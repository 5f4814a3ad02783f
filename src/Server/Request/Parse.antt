-- ===== src/Server/Request/Parse.antt =====
-- `ConnectRequest::parse` of src/server.rs accepts exactly the CONNECT-UDP requests.
use zeromasque.Prelude.{
  ℕ, ◌≡◌, ◌↔◌, ◌∙◌, refl, sym, ap, List, [], ◌∷◌, Option, none, some, Bool, true, false, not, arith,
  bytes_beq, bytes_beq_sound, if◌then◌else◌, Bool-cases, inl, inr,
}
use zeromasque.Prelude.Result.{ok, bail_if, ok_or, >>=-eq-ok}
use zeromasque.Text.{Text, codes}
use zeromasque.Text.Utf8.{is_utf8, from_utf8, from_utf8_valid, from_utf8-some}
use zeromasque.Transport.{Header}
use zeromasque.Server.Request.{
  ConnectRequest, Seen, nothing_seen, see, see_all, holds, validate, parse,
}

abbrev pub or_else : Option (List ℕ) → Option (List ℕ) → Option (List ℕ)
or_else (some v) o = some v
or_else none o = o

-- The value of the last header of the name.
abbrev pub last_value : List ℕ → List Header → Option (List ℕ)
last_value n [] = none
last_value n (h ∷ hs) =
    or_else (last_value n hs) (if bytes_beq h.name n then some h.value else none)

-- One header, as the variable of the name sees it.
abbrev step : List ℕ → Header → Option (List ℕ) → Option (List ℕ)
step n h before = if bytes_beq h.name n then some h.value else before

or_else-step :
    (n : List ℕ) (h : Header) (later before : Option (List ℕ))
    → or_else later (step n h before)
      ≡ or_else (or_else later (if bytes_beq h.name n then some h.value else none)) before
or_else-step n h (some v) before = refl
or_else-step n h none before = elim (Bool-cases (bytes_beq h.name n)) [
  | inl e ↦ rw e refl
  | inr e ↦ rw e refl
]

-- The variable of a name, for each of the four.
module _ (name : List ℕ) (field : Seen → Option (List ℕ))
    (one : (s : Seen) (h : Header) → field (see s h) ≡ step name h (field s)) where
  see_all-field :
      (s : Seen) (hs : List Header) → field (see_all s hs) ≡ or_else (last_value name hs) (field s)
  unfolding see_all
  see_all-field s [] = refl
  see_all-field s (h ∷ hs) =
      see_all-field (see s h) hs
      ∙ ap (or_else (last_value name hs)) (one s h)
      ∙ or_else-step name h (last_value name hs) (field s)

-- Where two names differ, a header has at most one of them.
apart : (n a b : List ℕ) → bytes_beq a b ≡ false → bytes_beq n a ≡ true → bytes_beq n b ≡ false
apart n a b ne e = ap (λ x. bytes_beq x b) (bytes_beq_sound n a e) ∙ ne

see_method : (s : Seen) (h : Header) → (see s h).method ≡ step (codes ":method") h s.method
see_method s h = ground arith

see_protocol : (s : Seen) (h : Header) → (see s h).protocol ≡ step (codes ":protocol") h s.protocol
see_protocol s h = ground (arith, apart h.name (codes ":method") (codes ":protocol") refl)

see_authority :
    (s : Seen) (h : Header) → (see s h).authority ≡ step (codes ":authority") h s.authority
see_authority s h = ground (
  arith,
  apart h.name (codes ":method") (codes ":authority") refl,
  apart h.name (codes ":protocol") (codes ":authority") refl,
)

see_path : (s : Seen) (h : Header) → (see s h).path ≡ step (codes ":path") h s.path
see_path s h = ground (
  arith,
  apart h.name (codes ":method") (codes ":path") refl,
  apart h.name (codes ":protocol") (codes ":path") refl,
  apart h.name (codes ":authority") (codes ":path") refl,
)

or_else-none : (o : Option (List ℕ)) → or_else o none ≡ o
or_else-none none = refl
or_else-none (some v) = refl

abbrev pub seen : List Header → Seen
seen = see_all nothing_seen

pub seen_method : (hs : List Header) → (seen hs).method ≡ last_value (codes ":method") hs
seen_method hs =
    see_all-field (codes ":method") (λ s. s.method) see_method nothing_seen hs ∙ or_else-none _

pub seen_protocol : (hs : List Header) → (seen hs).protocol ≡ last_value (codes ":protocol") hs
seen_protocol hs =
    see_all-field (codes ":protocol") (λ s. s.protocol) see_protocol nothing_seen hs
    ∙ or_else-none _

seen_authority : (hs : List Header) → (seen hs).authority ≡ last_value (codes ":authority") hs
seen_authority hs =
    see_all-field (codes ":authority") (λ s. s.authority) see_authority nothing_seen hs
    ∙ or_else-none _

seen_path : (hs : List Header) → (seen hs).path ≡ last_value (codes ":path") hs
seen_path hs = see_all-field (codes ":path") (λ s. s.path) see_path nothing_seen hs ∙ or_else-none _

pub holds_sound : (o : Option (List ℕ)) (v : Text) → holds o v ≡ true → o ≡ some v
holds_sound none v h = cc
holds_sound (some x) v h = ap some (bytes_beq_sound x v h)

bail_if-ok : (e : ℕ) {u : Unit {0}} (b : Bool) → bail_if (not b) e ≡ ok u → b ≡ true
bail_if-ok e true h = refl
bail_if-ok e false h = cc

ok_or-ok : (e : ℕ) {A : Type 0} {a : A} (o : Option A) → ok_or o e ≡ ok a → o ≡ some a
ok_or-ok e none h = cc
ok_or-ok e (some x) h = cc

-- A text of the header of the name.
abbrev pub Carries : List Header → Text → Text → Type 0
Carries hs name v = last_value name hs ≡ some v

abbrev pub IsText : List Header → Text → Text → Type 0
IsText hs name v = Carries hs name v × (is_utf8 v ≡ true)

validate_ok :
    (s : Seen) (r : ConnectRequest)
    → validate s ≡ ok r
    → (s.method ≡ some (codes "CONNECT"))
      × (s.protocol ≡ some (codes "connect-udp"))
      × ((s.authority ≡ some r.authority) × (is_utf8 r.authority ≡ true))
      × ((s.path ≡ some r.path) × (is_utf8 r.path ≡ true))
validate_ok s r h0 =
    let (u1, e1, h1) = >>=-eq-ok (bail_if (not (holds s.method (codes "CONNECT"))) 405) _ h0 in
    let (u2, e2, h2) =
      >>=-eq-ok (bail_if (not (holds s.protocol (codes "connect-udp"))) 501) _ h1 in
    let (a, e3, h3) = >>=-eq-ok (ok_or s.authority 400) _ h2 in
    let (a', e4, h4) = >>=-eq-ok (ok_or (from_utf8 a) 400) _ h3 in
    let (p, e5, h5) = >>=-eq-ok (ok_or s.path 400) _ h4 in
    let (p', e6, h6) = >>=-eq-ok (ok_or (from_utf8 p) 400) _ h5 in
    let (ua, ea) = from_utf8-some a a' (ok_or-ok 400 (from_utf8 a) e4) in
    let (up, ep) = from_utf8-some p p' (ok_or-ok 400 (from_utf8 p) e6) in
    let same : record { authority = a'; path = p' } ≡ r = cc h6 in
    let authority : a ≡ r.authority = sym ea ∙ ap (λ x. x.authority) same in
    let path : p ≡ r.path = sym ep ∙ ap (λ x. x.path) same in
    (
      holds_sound s.method _ (bail_if-ok 405 _ e1),
      holds_sound s.protocol _ (bail_if-ok 501 _ e2),
      (ok_or-ok 400 s.authority e3 ∙ ap some authority, ap is_utf8 (sym authority) ∙ ua),
      (ok_or-ok 400 s.path e5 ∙ ap some path, ap is_utf8 (sym path) ∙ up),
    )

-- The headers are those of a CONNECT-UDP request for the authority and the path.
abbrev pub Requests : List Header → ConnectRequest → Type 0
Requests hs r =
    Carries hs (codes ":method") (codes "CONNECT")
    × Carries hs (codes ":protocol") (codes "connect-udp")
    × IsText hs (codes ":authority") r.authority
    × IsText hs (codes ":path") r.path

request_sound : (hs : List Header) (r : ConnectRequest) → parse hs ≡ ok r → Requests hs r
unfolding parse
request_sound hs r h =
    let (m, p, (a, ua), (x, ux)) = validate_ok (seen hs) r h in
    (
      sym (seen_method hs) ∙ m,
      sym (seen_protocol hs) ∙ p,
      (sym (seen_authority hs) ∙ a, ua),
      (sym (seen_path hs) ∙ x, ux),
    )

pub request_complete : (hs : List Header) (r : ConnectRequest) → Requests hs r → parse hs ≡ ok r
unfolding parse
request_complete hs r (m, p, (a, ua), (x, ux)) =
    rw
      (
        seen_method hs ∙ m,
        seen_protocol hs ∙ p,
        seen_authority hs ∙ a,
        seen_path hs ∙ x,
        from_utf8_valid r.authority ua,
        from_utf8_valid r.path ux,
      )
      refl

-- A request is accepted exactly if the last of its `:method` headers says `CONNECT`, the last of its
-- `:protocol` headers `connect-udp`, and it has an `:authority` and a `:path` whose last ones are texts:
-- those that the request then has.
pub connect_request_parse_lem :
    (hs : List Header) (r : ConnectRequest) → (parse hs ≡ ok r) ↔ Requests hs r
connect_request_parse_lem hs r = (request_sound hs r, request_complete hs r)
