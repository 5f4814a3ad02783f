-- ===== src/Varint/RoundTrip.antt =====
-- `decode` of src/varint.rs after `encode`.
use zeromasque.Prelude.{
  take, drop, take-length-append, drop-length-append, ℕ, suc, ◌+◌, ◌-◌, ◌*◌, ◌/◌, ◌%◌, ◌^◌, ◌≤◌,
  ◌<◌, ◌≡◌, refl, sym, ap, ◌∙◌, List, [], ◌∷◌, ◌++◌, Option, none, some, arith, length,
  length-append, take, take-length-append, ltb, le→ltb, ltb→lt, Bool-cases, Option-cases,
  append-nil, inl, inr, false, bit_and,
}
use zeromasque.Prelude.Bits.{bit_or_tag, low_six}
use zeromasque.Bytes.{be_bytes, read_be}
use zeromasque.Bytes.Laws.{length-be_bytes, be_bytes-add, read_be-be_bytes}
use mathlib.Core.Path.{ap₂}
use native.Mathlib.Nat.{one-le-pow, mod-eq_of_lt, add-mul-div_right}
use zeromasque.Varint.Decode.{decode-some, decode-append}
use zeromasque.Varint.{encoded_width, decode, encode, encoded_len}

decode_long :
    (first n : ℕ) (bytes rest : List ℕ)
    → encoded_width first ≡ suc n
    → length bytes ≡ n
    → decode (first ∷ bytes ++ rest) ≡ some (read_be (bit_and first 0x3f) bytes, suc n)
unfolding decode
decode_long first n bytes rest width len = rw (width, enough) (ap (λ t. some (t, suc n)) body)
  where
    enough : ltb (suc (length (bytes ++ rest))) (suc n) ≡ false
    enough = le→ltb _ _ (omega (arith, length-append bytes rest))

    cut : suc n - 1 ≡ length bytes
    cut = omega arith

    body :
        read_be (bit_and first 0x3f) (take (suc n - 1) (bytes ++ rest))
        ≡ read_be (bit_and first 0x3f) bytes
    body =
        ap (read_be (bit_and first 0x3f))
          (ap (λ k. take k (bytes ++ rest)) cut ∙ take-length-append bytes rest)

-- A first byte of `tag` in its two high bits over the six bits `high`, then `n` more bytes.
decode_tagged :
    (tag n v : ℕ) (rest : List ℕ)
    → 2 ^ tag ≡ suc n
    → tag < 4
    → v / 256 ^ n < 64
    → v < 2 ^ 62
    → decode ((tag * 64 + v / 256 ^ n) ∷ be_bytes n v ++ rest) ≡ some (v, suc n)
decode_tagged tag n v rest width ht hv small =
    decode_long _ n (be_bytes n v) rest (ap (λ t. 2 ^ t) high ∙ width) (length-be_bytes n v)
    ∙ ap (λ t. some (t, suc n)) value
  where
    high : (tag * 64 + v / 256 ^ n) / 2 ^ 6 ≡ tag
    high = omega arith

    low : bit_and (tag * 64 + v / 256 ^ n) 0x3f ≡ v / 256 ^ n
    low = low_six _ (omega arith) ∙ omega arith

    value : read_be (bit_and (tag * 64 + v / 256 ^ n) 0x3f) (be_bytes n v) ≡ v
    value = ap (λ t. read_be t (be_bytes n v)) low ∙ read_be-be_bytes n v (omega arith)

-- The tag of a multi-byte form lands in the two high bits of its first byte.
tagged_bytes :
    (tag n v : ℕ)
    → tag < 4
    → v / 256 ^ n < 64
    → be_bytes (suc n) (v + tag * 64 * 256 ^ n) ≡ (tag * 64 + v / 256 ^ n) ∷ be_bytes n v
unfolding be_bytes
tagged_bytes tag n v ht hv = ap₂ ◌∷◌ head (be_bytes-add n (tag * 64) v)
  where
    head : (v + tag * 64 * 256 ^ n) / 256 ^ n % 256 ≡ tag * 64 + v / 256 ^ n
    head = omega (arith, add-mul-div_right v (tag * 64) (one-le-pow n 256 (omega arith)))

-- What `encode` appends to its buffer, in each of the four ranges.
encode_one :
    (v : ℕ) (out : List ℕ) → v < 64 → encode v out ≡ out ++ (0 * 64 + v / 256 ^ 0) ∷ be_bytes 0 v
unfolding encode be_bytes
encode_one v out h = ground arith

encode_two :
    (v : ℕ) (out : List ℕ)
    → 64 ≤ v
    → v < 2 ^ 14
    → encode v out ≡ out ++ (1 * 64 + v / 256 ^ 1) ∷ be_bytes 1 v
unfolding encode
encode_two v out l h = ground (
  arith,
  tagged_bytes 1 1 v,
  bit_or_tag 14 v 1 h,
  mod-eq_of_lt {n = v} {m = 2 ^ 16} (omega arith),
)

encode_four :
    (v : ℕ) (out : List ℕ)
    → 2 ^ 14 ≤ v
    → v < 2 ^ 30
    → encode v out ≡ out ++ (2 * 64 + v / 256 ^ 3) ∷ be_bytes 3 v
unfolding encode
encode_four v out l h = ground (
  arith,
  tagged_bytes 2 3 v,
  bit_or_tag 30 v 2 h,
  mod-eq_of_lt {n = v} {m = 2 ^ 32} (omega arith),
)

encode_eight :
    (v : ℕ) (out : List ℕ)
    → 2 ^ 30 ≤ v
    → v < 2 ^ 62
    → encode v out ≡ out ++ (3 * 64 + v / 256 ^ 7) ∷ be_bytes 7 v
unfolding encode
encode_eight v out l h = ground (arith, tagged_bytes 3 7 v, bit_or_tag 62 v 3 h)

-- The tag of the range that a value lies in.
abbrev pub Tagged : ℕ → List ℕ → ℕ → ℕ → Type 0
Tagged v out tag n =
    (encode v out ≡ out ++ (tag * 64 + v / 256 ^ n) ∷ be_bytes n v)
    × (encoded_len v ≡ suc n)
    × (2 ^ tag ≡ suc n)
    × (tag < 4)
    × (v / 256 ^ n < 64)

-- Every value below 2 ^ 62 is encoded with one of the four tags.
pub encode_shape : (v : ℕ) (out : List ℕ) → v < 2 ^ 62 → (tag : ℕ) × (n : ℕ) × Tagged v out tag n
unfolding encoded_len
encode_shape v out h = elim (Bool-cases (ltb v 64)) [
  | inl a ↦
      (0, 0, (encode_one v out (ltb→lt v 64 a), ground arith, refl, omega arith, ground arith))
  | inr a ↦ elim (Bool-cases (ltb v (2 ^ 14))) [
    | inl b ↦ (
      1,
      1,
      (
        encode_two v out (ground arith) (ltb→lt v (2 ^ 14) b),
        ground arith,
        refl,
        omega arith,
        ground arith,
      ),
    )
    | inr b ↦ elim (Bool-cases (ltb v (2 ^ 30))) [
      | inl c ↦ (
        2,
        3,
        (
          encode_four v out (ground arith) (ltb→lt v (2 ^ 30) c),
          ground arith,
          refl,
          omega arith,
          ground arith,
        ),
      )
      | inr c ↦ (
        3,
        7,
        (encode_eight v out (ground arith) h, ground arith, refl, omega arith, ground arith),
      )
    ]
  ]
]

-- The encoding of a value below 2 ^ 62, appended to any buffer, adds `encoded_len` bytes, and
-- whatever follows it, `decode` reads back the value and consumes exactly those bytes.
pub decode-encode :
    (v : ℕ) (rest : List ℕ)
    → v < 2 ^ 62
    → (decode (encode v [] ++ rest) ≡ some (v, encoded_len v))
      × (length (encode v []) ≡ encoded_len v)
decode-encode v rest h =
    let (tag, n, shape) = encode_shape v [] h in
    let (e, len, width, ht, hv) = shape in
    rw (e, len) (decode_tagged tag n v rest width ht hv h, ap suc (length-be_bytes n v))

-- Encoding appends: what the buffer held stays in front.
pub encode-append : (v : ℕ) (out : List ℕ) → encode v out ≡ out ++ encode v []
unfolding encode
encode-append v out = ground arith

-- A number below 2 ^ 62 that is appended to any buffer stands behind what the buffer held, in as many
-- bytes as `encoded_len` says, and is read back from there with this length, whatever follows it.
pub decode-encode_appended :
    (v : ℕ) (out rest : List ℕ)
    → v < 2 ^ 62
    → (take (length out) (encode v out) ≡ out)
      × (length (encode v out) ≡ length out + encoded_len v)
      × (decode (drop (length out) (encode v out) ++ rest) ≡ some (v, encoded_len v))
decode-encode_appended v out rest h =
    let (whole, size) = decode-encode v rest h in
    rw (encode-append v out) (
      take-length-append out (encode v []),
      omega (arith, length-append out (encode v []), size),
      rw (drop-length-append out (encode v [])) whole,
    )

-- A number cut short is refused: `decode` answers `none` on every proper prefix of an encoding.
pub decode_truncated :
    (v x : ℕ) (front back : List ℕ)
    → v < 2 ^ 62
    → encode v [] ≡ front ++ x ∷ back
    → decode front ≡ none
decode_truncated v x [] back h e = unfold decode in refl
decode_truncated v x (b ∷ front) back h e = elim (Option-cases (decode (b ∷ front))) [
  | inl gone ↦ gone
  | inr ((u, m), found) ↦
      let (whole, size) = decode-encode v [] h in
      let (_, fits, _) = decode-some b front u m found in
      let longer = decode-append (b ∷ front) (x ∷ back) u m found in
      absurd (
        omega (
          arith,
          size,
          fits,
          ap length e,
          length-append (b ∷ front) (x ∷ back),
          ap consumed (sym longer ∙ ap decode (sym e) ∙ ap decode (sym (append-nil _)) ∙ whole),
        ))
]
  where
    consumed : Option (ℕ × ℕ) → ℕ
    consumed none = 0
    consumed (some (u, m)) = m
