-- ===== src/Bytes/Laws.antt =====
-- Reading back what `be_bytes` wrote.
use zeromasque.Prelude.{
  ℕ, zero, suc, ◌+◌, ◌*◌, ◌/◌, ◌%◌, ◌^◌, ◌≤◌, ◌<◌, ◌≡◌, refl, sym, ap, ◌∙◌, List, [], ◌∷◌, arith,
  length, All, bit_or,
}
use mathlib.Core.Path.{ap₂}
use zeromasque.Prelude.Bits.{bit_or_field}
use zeromasque.Bytes.{IsByte, be_bytes, read_be}
use native.Mathlib.Nat.{
  pow-suc, one-le-pow, div-div-eq-div-mul, add-mul-div_right, mod-eq_of_lt, div-le_self,
}

pub length-be_bytes : (n v : ℕ) → length (be_bytes n v) ≡ n
unfolding be_bytes
length-be_bytes zero v = refl
length-be_bytes (suc n) v = ap suc (length-be_bytes n v)

pub be_bytes-IsByte : (n v : ℕ) → All IsByte (be_bytes n v)
unfolding be_bytes
be_bytes-IsByte zero v = tt
be_bytes-IsByte (suc n) v = (omega arith, be_bytes-IsByte n v)

-- The bytes below a multiple of `256 ^ n` do not depend on it.
pub be_bytes-add : (n c v : ℕ) → be_bytes n (v + c * 256 ^ n) ≡ be_bytes n v
unfolding be_bytes
be_bytes-add zero c v = refl
be_bytes-add (suc n) c v = ap₂ ◌∷◌ head (rw split (be_bytes-add n (c * 256) v))
  where
    split : v + c * 256 ^ suc n ≡ v + (c * 256) * 256 ^ n
    split = omega (arith, ap (λ (t : ℕ). c * t) (pow-suc 256 n))

    head : (v + c * 256 ^ suc n) / 256 ^ n % 256 ≡ v / 256 ^ n % 256
    head = rw split (omega (arith, add-mul-div_right v (c * 256) (one-le-pow n 256 (omega arith))))

shift_in :
    (value b : ℕ) → value < 2 ^ 56 → b < 256 → bit_or (value * 2 ^ 8 % 2 ^ 64) b ≡ value * 256 + b
shift_in value b h hb =
    ap (λ t. bit_or t b) (mod-eq_of_lt {n = value * 2 ^ 8} {m = 2 ^ 64} (omega arith))
    ∙ bit_or_field 8 b value (omega arith)

-- The high part of a number, followed by its `n` low bytes, reads as the number.
pub read_be-be_bytes : (n v : ℕ) → v < 2 ^ 64 → read_be (v / 256 ^ n) (be_bytes n v) ≡ v
unfolding read_be be_bytes
read_be-be_bytes zero v h = omega arith
read_be-be_bytes (suc n) v h = ap (λ t. read_be t (be_bytes n v)) grow ∙ read_be-be_bytes n v h
  where
    peel : v / 256 ^ suc n ≡ v / 256 ^ n / 256
    peel = rw (pow-suc 256 n) (sym (div-div-eq-div-mul v (256 ^ n) 256))

    small : v / 256 ^ n / 256 < 2 ^ 56
    small = omega (arith, div-le_self v (256 ^ n))

    grow : bit_or (v / 256 ^ suc n * 2 ^ 8 % 2 ^ 64) (v / 256 ^ n % 256) ≡ v / 256 ^ n
    grow =
        rw (peel, shift_in (v / 256 ^ n / 256) (v / 256 ^ n % 256) small (omega arith))
          (omega arith)

grow-le : (value b p : ℕ) → b < 256 → (value * 256 + b + 1) * p ≤ (value + 1) * (p * 256)
grow-le value b p h = grind arith

-- A read of `n` bytes stays below the next multiple of `256 ^ n`.
pub read_be-lt :
    (n value : ℕ) (bs : List ℕ)
    → length bs ≡ n
    → All IsByte bs
    → (value + 1) * 256 ^ n ≤ 2 ^ 64
    → read_be value bs < (value + 1) * 256 ^ n
unfolding read_be
read_be-lt zero value [] e bytes h = omega arith
read_be-lt zero value (b ∷ bs) e bytes h = absurd (omega arith)
read_be-lt (suc n) value [] e bytes h = absurd (omega arith)
read_be-lt (suc n) value (b ∷ bs) e bytes h = rw (shift_in value b small bytes.0) (
    omega (
      arith,
      above,
      bound,
      read_be-lt n (value * 256 + b) bs (omega arith) bytes.1 (omega (arith, bound, above)),
    ))
  where
    above : (value + 1) * 256 ^ suc n ≡ (value + 1) * (256 ^ n * 256)
    above = ap (λ (t : ℕ). (value + 1) * t) (pow-suc 256 n)

    bound : (value * 256 + b + 1) * 256 ^ n ≤ (value + 1) * (256 ^ n * 256)
    bound = grow-le value b (256 ^ n) bytes.0

    large : (p : ℕ) → 1 ≤ p → value + 1 ≤ (value + 1) * p
    large p hp = grind arith

    small : value < 2 ^ 56
    small = omega (arith, above, large (256 ^ n) (one-le-pow n 256 (omega arith)))
