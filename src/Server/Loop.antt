-- ===== src/Server/Loop.antt =====
-- `Server::run` of src/server.rs: the loop that waits for packets, replies, timeouts and the sweep, and
-- after each of them flushes and reaps.
use zeromasque.Prelude.{ℕ, refl, List, [], ◌∷◌}
use zeromasque.Prelude.Result.{Result, ok, ◌>>=◌}
use zeromasque.Net.{SocketAddr}
use zeromasque.Transport.{Transport, Drains}
use zeromasque.Rules.{RuleTable}
use zeromasque.Server.Session.{Stop, System}
use zeromasque.Server.Session.Ends.{Ends, Ends-then}
use zeromasque.Server.Routing.{
  Quic, Server, ToClient, on_packet, on_target_payload, flush_all, reap_closed, sweep_idle_flows,
  on_timeout,
}
use zeromasque.Server.Routing.Invariant.{
  IsRouted, on_target_payload-IsRouted, sweep-IsRouted, on_timeout-IsRouted, flush_all-IsRouted,
  reap_closed-IsRouted,
}
use zeromasque.Server.Routing.Packets.{Handles, on_packet-Handles}

-- The arm of the `select!` that fires. Packets and replies come with the rest of their bursts.
pub data Wake : Type 0 where
  packets : List (List ℕ × SocketAddr) → Wake
  replies : List ToClient → Wake
  timeout sweep : Wake

abbrev pub new : {C H : Type 0} → SocketAddr → Server C H
new local_addr = record { local_addr = local_addr; clients = []; routes = [] }

module _ {C H W S : Type 0} (t : Transport C H) (sys : System W S) (q : Quic C W) where
  unfoldable pub on_packets :
      RuleTable → ℕ → List (List ℕ × SocketAddr) → Server C H → W → Result Stop (Server C H × W)
  on_packets rules fuel [] s w = ok (s, w)
  on_packets rules fuel ((pkt, from) ∷ ps) s w =
      on_packet t sys q rules fuel s pkt from w >>= (λ r. on_packets rules fuel ps r.0 r.1)

  unfoldable pub on_replies : List ToClient → ℕ → Server C H → Server C H
  on_replies [] now s = s
  on_replies (tc ∷ tcs) now s = on_replies tcs now (on_target_payload t sys q s tc now)

  unfoldable pub on_wake : RuleTable → ℕ → Wake → Server C H → W → Result Stop (Server C H × W)
  unfolding on_packets on_replies
  on_wake rules fuel (packets ps) s w = on_packets rules fuel ps s w
  on_wake rules fuel (replies tcs) s w = ok (on_replies tcs (sys.now w) s, w)
  on_wake rules fuel timeout s w = ok (on_timeout t sys q s, w)
  on_wake rules fuel sweep s w = ok (sweep_idle_flows t sys q s (sys.now w), w)

  abbrev pub settle : Server C H × W → Server C H × W
  settle (s, w) = let (s', w') = flush_all t sys q s w in (reap_closed t sys q s', w')

  -- The loop, over the arms that fire until the receive task ends. The rules may have been reloaded
  -- before each.
  unfoldable pub run : ℕ → List (RuleTable × Wake) → Server C H → W → Result Stop (Server C H × W)
  run fuel [] s w = ok (s, w)
  run fuel ((rules, wake) ∷ wakes) s w =
      on_wake rules fuel wake s w >>= (λ r. run fuel wakes (settle r).0 (settle r).1)

  module _ (d : Drains t) where
    then-Handles :
        (rules : RuleTable) (f : ℕ → Result Stop (Server C H × W))
        (g : ℕ → Server C H × W → Result Stop (Server C H × W))
        → Handles t sys q d rules f
        → ((r : Server C H × W) → IsRouted r.0 → Handles t sys q d rules (λ fuel. g fuel r))
        → Handles t sys q d rules (λ fuel. f fuel >>= g fuel)
    then-Handles rules f g (r, ends, h) k =
        let (r', ends', h') = k r h in (r', Ends-then f r g r' ends ends', h')

    on_packets-Handles :
        (rules : RuleTable) (ps : List (List ℕ × SocketAddr)) (s : Server C H) (w : W)
        → IsRouted s
        → Handles t sys q d rules (λ fuel. on_packets rules fuel ps s w)
    unfolding on_packets
    on_packets-Handles rules [] s w h = ((s, w), (0, λ fuel le. refl), h)
    on_packets-Handles rules ((pkt, from) ∷ ps) s w h =
        then-Handles rules (λ fuel. on_packet t sys q rules fuel s pkt from w) _
          (on_packet-Handles t sys q d rules s pkt from w h)
          (λ r h'. on_packets-Handles rules ps r.0 r.1 h')

    on_replies-IsRouted :
        (tcs : List ToClient) (now : ℕ) (s : Server C H)
        → IsRouted s
        → IsRouted (on_replies tcs now s)
    unfolding on_replies
    on_replies-IsRouted [] now s h = h
    on_replies-IsRouted (tc ∷ tcs) now s h =
        on_replies-IsRouted tcs now _ (on_target_payload-IsRouted t sys q s tc now h)

    on_wake-Handles :
        (rules : RuleTable) (wake : Wake) (s : Server C H) (w : W)
        → IsRouted s
        → Handles t sys q d rules (λ fuel. on_wake rules fuel wake s w)
    unfolding on_wake
    on_wake-Handles rules (packets ps) s w h = on_packets-Handles rules ps s w h
    on_wake-Handles rules (replies tcs) s w h = (
      (on_replies tcs (sys.now w) s, w),
      (0, λ fuel le. refl),
      on_replies-IsRouted tcs (sys.now w) s h,
    )
    on_wake-Handles rules timeout s w h = (_, (0, λ fuel le. refl), on_timeout-IsRouted t sys q s h)
    on_wake-Handles rules sweep s w h =
        (_, (0, λ fuel le. refl), sweep-IsRouted t sys q s (sys.now w) h)

    -- For a transport that has finitely many events, bytes and datagrams to give between two packets,
    -- and from a server whose routes lead to clients, such as a new one: every sequence of events of the
    -- loop, under rules that may change between two of them, is worked off, with the same answer for every
    -- fuel that is enough. The `unwrap` of the client of a routed packet never meets nothing, and the server
    -- that comes of it has routes that lead to clients.
    pub run-Handles :
        (wakes : List (RuleTable × Wake)) (s : Server C H) (w : W)
        → IsRouted s
        → (r : Server C H × W) × Ends (λ fuel. run fuel wakes s w) r × IsRouted r.0
    unfolding run
    run-Handles [] s w h = ((s, w), (0, λ fuel le. refl), h)
    run-Handles ((rules', wake) ∷ wakes) s w h =
        then-Handles rules' (λ fuel. on_wake rules' fuel wake s w) _
          (on_wake-Handles rules' wake s w h)
          (λ r h'.
            run-Handles wakes _ _
              (reap_closed-IsRouted t sys q _ (flush_all-IsRouted t sys q r.0 r.1 h')))
