-- ===== src/Varint/Decode.antt =====
-- What `decode` of src/varint.rs answers on any bytes.
use zeromasque.Prelude.{
  ℕ, zero, suc, ◌-◌, ◌*◌, ◌/◌, ◌^◌, ◌≤◌, ◌<◌, ◌≡◌, ◌∙◌, refl, List, [], ◌∷◌, ◌++◌, some, ◌⊎◌, inl,
  inr, ap, arith, length, length-append, All, take, take-append_le, length-take, All-take, bit_and,
}
use zeromasque.Bytes.{IsByte, read_be}
use zeromasque.Bytes.Laws.{read_be-lt}
use zeromasque.Prelude.Bits.{low_six}
use zeromasque.Varint.{encoded_width, decode, encoded_len}

-- The first byte fixes the length, and the six bits of value that come with it.
pub encoded_width_cases :
    (b : ℕ)
    → b < 256
    → (n : ℕ) × (encoded_width b ≡ suc n) × ((n ≡ 0) ⊎ (n ≡ 1) ⊎ (n ≡ 3) ⊎ (n ≡ 7))
encoded_width_cases b h = go (b / 2 ^ 6) refl
  where
    go :
        (q : ℕ)
        → b / 2 ^ 6 ≡ q
        → (n : ℕ) × (encoded_width b ≡ suc n) × ((n ≡ 0) ⊎ (n ≡ 1) ⊎ (n ≡ 3) ⊎ (n ≡ 7))
    go zero e = (0, ap (λ t. 2 ^ t) e, inl refl)
    go (suc zero) e = (1, ap (λ t. 2 ^ t) e, inr (inl refl))
    go (suc (suc zero)) e = (3, ap (λ t. 2 ^ t) e, inr (inr (inl refl)))
    go (suc (suc (suc zero))) e = (7, ap (λ t. 2 ^ t) e, inr (inr (inr refl)))
    go (suc (suc (suc (suc q)))) e = absurd (omega arith)

-- A successful `decode` took the width that the first byte names from the front of the buffer.
pub decode-some :
    (first : ℕ) (rest : List ℕ) (v n : ℕ)
    → decode (first ∷ rest) ≡ some (v, n)
    → (n ≡ encoded_width first)
      × (n ≤ suc (length rest))
      × (v ≡ read_be (bit_and first 0x3f) (take (n - 1) rest))
unfolding decode
decode-some first rest v n h = ground arith

-- The value of `k` bytes under six bits, at each of the four lengths.
value_bounds :
    (k low : ℕ) (bs : List ℕ)
    → (k ≡ 0) ⊎ (k ≡ 1) ⊎ (k ≡ 3) ⊎ (k ≡ 7)
    → low < 64
    → length bs ≡ k
    → All IsByte bs
    → (read_be low bs < 64 * 256 ^ k) × (encoded_len (read_be low bs) ≤ suc k)
unfolding encoded_len
value_bounds k low bs (inl e) hl len bytes =
    rw e (ground (arith, read_be-lt 0 low bs (len ∙ e) bytes (omega arith)))
value_bounds k low bs (inr (inl e)) hl len bytes =
    rw e (ground (arith, read_be-lt 1 low bs (len ∙ e) bytes (omega arith)))
value_bounds k low bs (inr (inr (inl e))) hl len bytes =
    rw e (ground (arith, read_be-lt 3 low bs (len ∙ e) bytes (omega arith)))
value_bounds k low bs (inr (inr (inr e))) hl len bytes =
    rw e (ground (arith, read_be-lt 7 low bs (len ∙ e) bytes (omega arith)))

-- On any bytes: a value that `decode` reads has taken 1, 2, 4 or 8 bytes that the buffer has, it
-- fits the bits of that length, and `encode` would not have used more bytes for it.
pub decode_bounds :
    (buf : List ℕ) (v n : ℕ)
    → All IsByte buf
    → decode buf ≡ some (v, n)
    → ((n ≡ 1) ⊎ (n ≡ 2) ⊎ (n ≡ 4) ⊎ (n ≡ 8))
      × (n ≤ length buf)
      × (v < 64 * 256 ^ (n - 1))
      × (encoded_len v ≤ n)
decode_bounds [] v n bytes h = unfold decode in cc
decode_bounds (b ∷ rest) v n bytes h =
    let (width, fits, value) = decode-some b rest v n h in
    let (k, e, cases) = encoded_width_cases b bytes.0 in
    let size : n ≡ suc k = width ∙ e in
    let low : bit_and b 0x3f < 64 = omega (arith, low_six b bytes.0) in
    let body : length (take k rest) ≡ k = omega (arith, length-take k rest) in
    let (below, short) =
      value_bounds k (bit_and b 0x3f) (take k rest) cases low body
        (All-take IsByte k rest bytes.1) in
    let read : v ≡ read_be (bit_and b 0x3f) (take k rest) =
      value ∙ ap (λ t. read_be (bit_and b 0x3f) (take t rest)) (omega arith) in
    let less : suc k - 1 ≡ k = omega arith in
    (ground arith, fits, rw (size, read, less) below, rw (size, read) short)

-- More bytes behind a complete integer change nothing.
pub decode-append :
    (buf more : List ℕ) (v n : ℕ) → decode buf ≡ some (v, n) → decode (buf ++ more) ≡ some (v, n)
unfolding decode
decode-append [] more v n h = cc
decode-append (b ∷ rest) more v n h =
    ground (arith, length-append rest more, take-append_le (encoded_width b - 1) rest more)
