-- ===== src/Examples/Targets.antt =====
-- Examples of the sockets to targets.
use zeromasque.Prelude.{
  ◌+◌, ◌*◌, ◌^◌, ◌==◌, if◌then◌else◌, ◌++◌, ◌≡◌, refl, [], ◌∷◌, Option, none, some, true, false,
}
use zeromasque.Prelude.Result.{ok}
use zeromasque.Net.{SocketAddr, v4, v6}
use zeromasque.Server.Bind.{
  SystemError, addr_in_use, bind_target, make, bind_target_transparent, ipv4, ip_transparent,
}
use zeromasque.Server.Bind.Record.{
  Sys, opened, option, bound, buffers, adopted, reuse_address, Log, recorder, Made,
}
use zeromasque.Server.Bind.Calls.{Transparent, plain_calls, attempt_calls, bind_target-Makes}

-- The port 9 is taken.
abbrev busy : Log → Sys → Option SystemError
busy w (bound a) = if a.port == 9 then some addr_in_use else none
busy w x = none

abbrev target : SocketAddr
target = record { ip = v4 1; port = 443 }

-- The client's address, as a dual-stack socket has it.
abbrev mapped : SocketAddr
mapped = record { ip = v6 (0xffff * 2 ^ 32 + 7); port = 9 }

-- The second attempt is for the port 0.
taken_port : bind_target true (recorder busy) target mapped true none [] ≡ (
  ok tt,
  opened ipv4
        ∷ buffers
        ∷ option ip_transparent 1
        ∷ reuse_address
        ∷ bound (record { ip = v4 7; port = 9 })
        ∷ attempt_calls target none ipv4 false (record { ip = v4 7; port = 0 })
      ++ adopted ∷ [],
)
unfolding bind_target bind_target_transparent make
taken_port = refl

bind_target-Makes_example :
    Made
      (plain_calls busy true target (some 5))
      []
      (bind_target true (recorder busy) target mapped false (some 5) [])
    × Transparent busy target
        (some 5)
        (v4 7)
        9
        []
        (some (ipv4, false))
        (bind_target true (recorder busy) target mapped true (some 5) [])
bind_target-Makes_example = bind_target-Makes busy target mapped (some 5) []
