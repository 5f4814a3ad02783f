-- ===== src/Server/Request/Refusal.antt =====
-- The statuses that `ConnectRequest::parse` of src/server.rs refuses a request with.
use zeromasque.Prelude.{
  ℕ, ◌≡◌, ◌≢◌, ◌⊎◌, ◌∙◌, sym, ap, List, Option, none, some, Bool, false, bytes_beq_refl, Bool-cases,
  inl, inr,
}
use zeromasque.Prelude.Result.{Result, ok, err, ◌>>=◌, ok_or}
use zeromasque.Text.{Text, codes}
use zeromasque.Text.Utf8.{from_utf8}
use zeromasque.Transport.{Header}
use zeromasque.Server.Request.{ConnectRequest, Seen, holds, parse}
use zeromasque.Server.Request.Parse.{
  Carries, IsText, seen, seen_method, seen_protocol, holds_sound, request_complete,
}

abbrev pub Refusal : List Header → ℕ → Type 0
Refusal hs status =
    ((status ≡ 405) × ¬ Carries hs (codes ":method") (codes "CONNECT"))
    ⊎ ((status ≡ 501)
        × Carries hs (codes ":method") (codes "CONNECT")
        × ¬ Carries hs (codes ":protocol") (codes "connect-udp"))
    ⊎ ((status ≡ 400)
        × Carries hs (codes ":method") (codes "CONNECT")
        × Carries hs (codes ":protocol") (codes "connect-udp")
        × ((a p : Text) → IsText hs (codes ":authority") a → ¬ IsText hs (codes ":path") p))

abbrev method_ok : Seen → Bool
method_ok s = holds s.method (codes "CONNECT")

abbrev protocol_ok : Seen → Bool
protocol_ok s = holds s.protocol (codes "connect-udp")

holds-false : (o : Option (List ℕ)) (v : Text) → holds o v ≡ false → o ≢ some v
holds-false o v h e = cc (h, ap (λ x. holds x v) e, bytes_beq_refl v)

abbrev rest_of : Seen → Result ℕ ConnectRequest
rest_of s = do
  authority ← ok_or s.authority 400
  authority' ← ok_or (from_utf8 authority) 400
  path ← ok_or s.path 400
  path' ← ok_or (from_utf8 path) 400
  ok (record { authority = authority'; path = path' })

abbrev Ends400 : Result ℕ ConnectRequest → Type 0
Ends400 r = (status : ℕ) → r ≡ err status → status ≡ 400

or_400 :
    {A : Type 0} (o : Option A) (f : A → Result ℕ ConnectRequest)
    → ((a : A) → Ends400 (f a))
    → Ends400 (ok_or o 400 >>= f)
or_400 none f h status e = cc
or_400 (some a) f h status e = h a status e

rest-Ends400 : (s : Seen) → Ends400 (rest_of s)
rest-Ends400 s = or_400 s.authority _ (λ a.
    or_400 (from_utf8 a) _
      (λ a'. or_400 s.path _ (λ p. or_400 (from_utf8 p) _ (λ p' status e. cc e))))

-- A request that is refused is refused with 405 if its method is not `CONNECT`, with 501 if it is but the
-- protocol is not `connect-udp`, and with 400 if both are but the authority or the path is missing or no
-- text.
pub parse-Refusal : (hs : List Header) (status : ℕ) → parse hs ≡ err status → Refusal hs status
unfolding parse
parse-Refusal hs status h = elim (Bool-cases (method_ok (seen hs))) [
  | inr m ↦ inl (cc (rw m at h), λ c. holds-false _ _ m (seen_method hs ∙ c))
  | inl m ↦ elim (Bool-cases (protocol_ok (seen hs))) [
    | inr p ↦ inr (
        inl (
          cc (rw (m, p) at h),
          sym (seen_method hs) ∙ holds_sound _ _ m,
          λ c. holds-false _ _ p (seen_protocol hs ∙ c),
        ))
    | inl p ↦
        let method : Carries hs (codes ":method") (codes "CONNECT") =
          sym (seen_method hs) ∙ holds_sound _ _ m in
        let protocol : Carries hs (codes ":protocol") (codes "connect-udp") =
          sym (seen_protocol hs) ∙ holds_sound _ _ p in
        inr (
          inr (
            rest-Ends400 (seen hs) status (rw (m, p) at h),
            method,
            protocol,
            λ a x ta tx. cc (
              h,
              request_complete hs (record { authority = a; path = x }) (method, protocol, ta, tx),
            ),
          ))
  ]
]
