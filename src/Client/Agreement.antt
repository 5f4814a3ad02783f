-- ===== src/Client/Agreement.antt =====
-- The client of src/client.rs and the server of src/server.rs agree: on requests, on statuses, on names.
use zeromasque.Prelude.{
  ℕ, suc, ◌≤◌, ◌<◌, ◌≡◌, refl, ap, List, [], ◌∷◌, Option, none, some, Bool, true, false, arith,
  ◌==◌, if◌then◌else◌, take,
}
use zeromasque.Prelude.Result.{ok}
use zeromasque.Text.{Text, codes, find_byte, split_once, split_step, strip_prefix}
use zeromasque.Text.Utf8.{is_utf8, from_utf8_valid, is_utf8_ascii}
use mathlib.Core.Option
use zeromasque.Transport.{Header}
use zeromasque.Rules.{Rule, RuleTable, match_target, decision, host_of_authority, host_choice}
use zeromasque.Rules.Lookup.{First, match_target_lem}
use zeromasque.Server.Request.{ConnectRequest, parse}
use zeromasque.Server.Request.Parse.{connect_request_parse_lem}
use zeromasque.Server.Session.{status_text}
use zeromasque.Client.{
  connect_headers, status_of, host_of, digits, parse_u16, header, within, or_last_colon,
}

-- The server reads the client's request as the client means it, if the endpoint is a text.
pub parse-connect_headers :
    (authority path : Text)
    → is_utf8 authority ≡ true
    → is_utf8 path ≡ true
    → parse (connect_headers authority path) ≡ ok (record { authority = authority; path = path })
unfolding connect_headers
parse-connect_headers authority path ua up =
    (connect_request_parse_lem _ _).1 (refl, refl, (refl, ua), (refl, up))

status_digits : (n : ℕ) → 100 ≤ n → n < 1000 → parse_u16 (status_text n) ≡ some n
unfolding parse_u16 digits
status_digits n h k = ground arith

digit_ascii : (n : ℕ) → n < 1000 → is_utf8 (status_text n) ≡ true
digit_ascii n h = is_utf8_ascii (status_text n) (omega arith, (omega arith, (omega arith, tt)))

-- Every status of three digits that the server sends is the one that the client reads.
pub status_of-status_text :
    (n : ℕ) (hs : List Header)
    → 100 ≤ n
    → n < 1000
    → status_of (header (codes ":status") (status_text n) ∷ hs) ≡ some n
unfolding status_of mathlib.Core.Option.bind
status_of-status_text n hs h k =
    rw (from_utf8_valid (status_text n) (digit_ascii n k)) (status_digits n h k)

-- The target of a client's request is the one of the first rule whose endpoint has the client's authority and,
-- up to the query, its path.
pub connect_headers-match_target :
    (t : RuleTable) (authority path : Text) (r : Rule)
    → is_utf8 authority ≡ true
    → is_utf8 path ≡ true
    → First authority path t.rules r
    → (req : ConnectRequest) × (parse (connect_headers authority path) ≡ ok req)
      × (match_target t req.authority req.path ≡ some (decision r))
connect_headers-match_target t authority path r ua up first = (
  record { authority = authority; path = path },
  parse-connect_headers authority path ua up,
  ((match_target_lem t authority path).0 (decision r)).1 (r, first, refl),
)

-- The first occurrence of a character, found or split at.
abbrev SameCut : Text → Option ℕ → Option (Text × Text) → Type 0
SameCut s o p = Option.map (λ i. take i s) o ≡ Option.map (λ x. x.0) p

cut_step :
    (b : Bool) (c : ℕ) (s : Text) (o : Option ℕ) (p : Option (Text × Text))
    → SameCut s o p
    → SameCut
        (c ∷ s)
        (if b then some 0 else Option.map suc o)
        (split_step c (if b then some s else none) p)
cut_step true c s o p h = refl
cut_step false c s none none h = refl
cut_step false c s none (some x) h = cc
cut_step false c s (some i) none h = cc
cut_step false c s (some i) (some x) h = ap (Option.map (◌∷◌ c)) h

find_byte-split_once : (d : ℕ) (s : Text) → SameCut s (find_byte d s) (split_once (d ∷ []) s)
unfolding find_byte split_once
find_byte-split_once d [] = refl
find_byte-split_once d (c ∷ s) =
    let flip : (d == c) ≡ (c == d) = ground arith in
    rw flip
      (cut_step (c == d) c s (find_byte d s) (split_once (d ∷ []) s) (find_byte-split_once d s))

same_host :
    (authority rest : Text) (o : Option ℕ) (p : Option (Text × Text))
    → SameCut rest o p
    → or_last_colon authority (within rest o) ≡ host_choice authority p
same_host authority rest none none h = refl
same_host authority rest none (some x) h = cc
same_host authority rest (some i) none h = cc
same_host authority rest (some i) (some x) h = cc h

same_bracket :
    (authority : Text) (o : Option Text)
    → or_last_colon authority (Option.bind o (λ rest. within rest (find_byte b']' rest)))
      ≡ host_choice authority (Option.bind o (split_once (codes "]")))
unfolding Option.bind
same_bracket authority none = refl
same_bracket authority (some rest) =
    same_host authority rest (find_byte b']' rest) (split_once (codes "]") rest)
      (find_byte-split_once b']' rest)

-- The name that the client asks for in the TLS handshake is the host that the server takes from the same
-- authority.
pub host_of-host_of_authority : (authority : Text) → host_of authority ≡ host_of_authority authority
unfolding host_of host_of_authority
host_of-host_of_authority authority = same_bracket authority (strip_prefix (codes "[") authority)
