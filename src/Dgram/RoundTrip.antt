-- ===== src/Dgram/RoundTrip.antt =====
-- `decode` of src/dgram.rs after `encode`, and on any bytes.
use zeromasque.Prelude.{
  ℕ, ◌+◌, ◌-◌, ◌*◌, ◌^◌, ◌≤◌, ◌<◌, ◌≡◌, ◌∙◌, sym, ap, List, [], ◌++◌, some, arith, length,
  length-append, length-drop, drop, drop-append_eq, take, take-append-drop, ◌⊎◌, inl, inr,
  Option-cases, append_assoc, All, All-drop,
}
use zeromasque.Bytes.{IsByte}
use zeromasque.Varint
use zeromasque.Varint.{encoded_len}
use zeromasque.Varint.Decode.{decode_bounds}
use zeromasque.Varint.RoundTrip.{decode-encode, encode-append}
use zeromasque.Dgram.{Parsed, context_id_udp, encode, decode}

-- The two integers in front of the payload.
abbrev header : ℕ → List ℕ
header flow_id = Varint.encode flow_id [] ++ Varint.encode context_id_udp []

encode-header :
    (flow_id : ℕ) (payload : List ℕ) → encode flow_id payload ≡ header flow_id ++ payload
unfolding encode
encode-header flow_id payload = ap (λ t. t ++ payload) (encode-append 0 (Varint.encode flow_id []))

decode_parts :
    (buf : List ℕ) (flow_id n1 context_id n2 : ℕ)
    → Varint.decode buf ≡ some (flow_id, n1)
    → Varint.decode (drop n1 buf) ≡ some (context_id, n2)
    → decode buf
      ≡ some (record { flow_id = flow_id; context_id = context_id; payload = drop (n1 + n2) buf })
unfolding decode
decode_parts buf flow_id n1 context_id n2 h k = rw (h, k)

-- A payload sent on a flow below 2 ^ 62 is received on that flow, as a raw UDP payload (context 0),
-- byte for byte.
pub decode-encode_flow :
    (flow_id : ℕ) (payload : List ℕ)
    → flow_id < 2 ^ 62
    → decode (encode flow_id payload)
      ≡ some (record { flow_id = flow_id; context_id = context_id_udp; payload = payload })
decode-encode_flow flow_id payload h =
    ap decode layout
    ∙ decode_parts _ flow_id (encoded_len flow_id) 0 (encoded_len 0) (decode-encode flow_id _ h).0
        second
    ∙ ap (λ t. some (record { flow_id = flow_id; context_id = 0; payload = t })) rest
  where
    first : List ℕ
    first = Varint.encode flow_id []

    context : List ℕ
    context = Varint.encode 0 []

    layout : encode flow_id payload ≡ first ++ (context ++ payload)
    layout = encode-header flow_id payload ∙ append_assoc first context payload

    cut : drop (encoded_len flow_id) (first ++ (context ++ payload)) ≡ context ++ payload
    cut = drop-append_eq _ first _ (sym (decode-encode flow_id [] h).1)

    second :
        Varint.decode (drop (encoded_len flow_id) (first ++ (context ++ payload)))
        ≡ some (0, encoded_len 0)
    second = ap Varint.decode cut ∙ (decode-encode 0 payload (omega arith)).0

    rest : drop (encoded_len flow_id + encoded_len 0) (first ++ (context ++ payload)) ≡ payload
    rest =
        ap (drop (encoded_len flow_id + encoded_len 0)) (sym (append_assoc first context payload))
        ∙ drop-append_eq _ (first ++ context) payload (
            omega (
              arith,
              length-append first context,
              (decode-encode flow_id [] h).1,
              (decode-encode 0 [] (omega arith)).1,
            ))

decode-inv :
    (buf : List ℕ) (p : Parsed)
    → decode buf ≡ some p
    → (n1 : ℕ) × (n2 : ℕ) × (Varint.decode buf ≡ some (p.flow_id, n1))
      × (Varint.decode (drop n1 buf) ≡ some (p.context_id, n2))
      × (p.payload ≡ drop (n1 + n2) buf)
unfolding decode
decode-inv buf p h = elim (Option-cases (Varint.decode buf)) [
  | inl gone ↦ absurd (ground (arith, gone))
  | inr ((f, n1), first) ↦ elim (Option-cases (Varint.decode (drop n1 buf))) [
    | inl gone ↦ absurd (ground (arith, gone, first))
    | inr ((c, n2), second) ↦ (
      n1,
      n2,
      ground (arith, first, second),
      ground (arith, first, second),
      ground (arith, first, second),
    )
  ]
]

-- On any bytes: an accepted datagram is a header of 2 to 16 bytes followed by the payload, so no
-- slice is taken out of range, and both ids are below 2 ^ 62.
pub decode_splits :
    (buf : List ℕ) (p : Parsed)
    → All IsByte buf
    → decode buf ≡ some p
    → (n : ℕ) × (2 ≤ n)
      × (n ≤ 16)
      × (n ≤ length buf)
      × (buf ≡ take n buf ++ p.payload)
      × (p.flow_id < 2 ^ 62)
      × (p.context_id < 2 ^ 62)
decode_splits buf p bytes h =
    let (n1, n2, first, second, rest) = decode-inv buf p h in
    let (w1, fit1, v1, _) = decode_bounds buf p.flow_id n1 bytes first in
    let (w2, fit2, v2, _) =
      decode_bounds (drop n1 buf) p.context_id n2 (All-drop IsByte n1 buf bytes) second in
    (
      n1 + n2,
      omega arith,
      omega arith,
      omega (arith, length-drop n1 buf),
      sym (ap (λ t. take (n1 + n2) buf ++ t) rest ∙ take-append-drop (n1 + n2) buf),
      below n1 p.flow_id w1 v1,
      below n2 p.context_id w2 v2,
    )
  where
    below : (n v : ℕ) → (n ≡ 1) ⊎ (n ≡ 2) ⊎ (n ≡ 4) ⊎ (n ≡ 8) → v < 64 * 256 ^ (n - 1) → v < 2 ^ 62
    below n v (inl e) h = omega (arith, ap (λ (t : ℕ). 64 * 256 ^ (t - 1)) e)
    below n v (inr (inl e)) h = omega (arith, ap (λ (t : ℕ). 64 * 256 ^ (t - 1)) e)
    below n v (inr (inr (inl e))) h = omega (arith, ap (λ (t : ℕ). 64 * 256 ^ (t - 1)) e)
    below n v (inr (inr (inr e))) h = omega (arith, ap (λ (t : ℕ). 64 * 256 ^ (t - 1)) e)
