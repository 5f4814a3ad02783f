-- ===== src/Server/Request.antt =====
-- `ConnectRequest` of src/server.rs: the pseudo-headers of a CONNECT-UDP request.
pub mod Refusal
pub mod Parse
use zeromasque.Prelude.{
  ℕ, List, [], ◌∷◌, Option, none, some, Bool, true, false, not, bytes_beq, if◌then◌else◌,
}
use zeromasque.Prelude.Result.{Result, ok, err, ◌>>=◌, ◌>>◌, bail_if, ok_or}
use zeromasque.Text.{Text, codes}
use zeromasque.Text.Utf8.{from_utf8}
use zeromasque.Transport.{Header}
use mathlib.Core.Option

pub record ConnectRequest : Type 0 where
  pub authority : Text
  pub path : Text

-- The variables of the loop.
pub record Seen : Type 0 where
  pub method : Option (List ℕ)
  pub protocol : Option (List ℕ)
  pub authority : Option (List ℕ)
  pub path : Option (List ℕ)

abbrev pub nothing_seen : Seen
nothing_seen = record { method = none; protocol = none; authority = none; path = none }

abbrev pub see : Seen → Header → Seen
see s h =
    if bytes_beq h.name (codes ":method")
    then record s { method = some h.value }
    else if bytes_beq h.name (codes ":protocol")
    then record s { protocol = some h.value }
    else if bytes_beq h.name (codes ":authority")
    then record s { authority = some h.value }
    else if bytes_beq h.name (codes ":path")
    then record s { path = some h.value }
    else s

unfoldable pub see_all : Seen → List Header → Seen
see_all s [] = s
see_all s (h ∷ hs) = see_all (see s h) hs

abbrev pub holds : Option (List ℕ) → Text → Bool
holds none expected = false
holds (some value) expected = bytes_beq value expected

abbrev pub validate : Seen → Result ℕ ConnectRequest
validate s = do
  bail_if (not (holds s.method (codes "CONNECT"))) 405
  bail_if (not (holds s.protocol (codes "connect-udp"))) 501
  authority ← ok_or s.authority 400
  authority' ← ok_or (from_utf8 authority) 400
  path ← ok_or s.path 400
  path' ← ok_or (from_utf8 path) 400
  ok (record { authority = authority'; path = path' })

unfoldable pub parse : List Header → Result ℕ ConnectRequest
unfolding see_all
parse headers = validate (see_all nothing_seen headers)
