-- ===== src/Client/Names.antt =====
-- The texts of src/client.rs: the name of the proxy, the request and the status.
use zeromasque.Prelude.{
  ℕ, ◌+◌, ◌-◌, ◌*◌, ◌^◌, List, [], ◌∷◌, Option, none, some, Bool, ◌&&◌, ltb, leb, ◌==◌, take, find,
  if◌then◌else◌, bytes_beq,
}
use zeromasque.Text.{Text, codes, strip_prefix, rsplit_once, find_byte}
use zeromasque.Text.Utf8.{from_utf8}
use zeromasque.Transport.{Header}
use zeromasque.Rules.{before_or}
use mathlib.Core.Option

abbrev pub within : Text → Option ℕ → Option Text
within rest none = none
within rest (some end) = some (take end rest)

abbrev pub or_last_colon : Text → Option Text → Text
or_last_colon authority (some host) = host
or_last_colon authority none = before_or authority (rsplit_once b':' authority)

unfoldable pub host_of : Text → Text
host_of authority =
    or_last_colon authority
      (Option.bind (strip_prefix (codes "[") authority) (λ rest. within rest (find_byte b']' rest)))

abbrev pub header : List ℕ → List ℕ → Header
header n v = record { name = n; value = v }

unfoldable pub connect_headers : Text → Text → List Header
connect_headers authority path =
    header (codes ":method") (codes "CONNECT")
    ∷ header (codes ":protocol") (codes "connect-udp")
    ∷ header (codes ":scheme") (codes "https")
    ∷ header (codes ":authority") authority
    ∷ header (codes ":path") path
    ∷ header (codes "capsule-protocol") (codes "?1")
    ∷ []

-- `str::parse::<u16>`: digits, with a `+` in front or not.
unfoldable pub digits : ℕ → List ℕ → Option ℕ
digits n [] = if ltb n (2 ^ 16) then some n else none
digits n (c ∷ cs) =
    let rest = digits (n * 10 + (c - 48)) cs in if leb 48 c && leb c 57 then rest else none

unfoldable pub parse_u16 : Text → Option ℕ
unfolding digits
parse_u16 [] = none
parse_u16 (c ∷ []) = digits 0 (c ∷ [])
parse_u16 (c ∷ d ∷ cs) = if c == 43 then digits 0 (d ∷ cs) else digits 0 (c ∷ d ∷ cs)

abbrev pub is_status : Header → Bool
is_status h = bytes_beq h.name (codes ":status")

unfoldable pub status_of : List Header → Option ℕ
unfolding parse_u16
status_of hs = Option.bind (Option.bind (find is_status hs) (λ h. from_utf8 h.value)) parse_u16
