-- ===== src/Prelude/Bits.antt =====
-- `|` with a tag above a field and `&` with a low mask, as arithmetic.
use Prim.Native.Nat.{
  ℕ, zero, suc, ◌+◌, ◌*◌, ◌/◌, ◌%◌, ◌^◌, ◌≤◌, ◌<◌, max, bit_and, bit_or, digits, bit_or-bitwise,
}
use mathlib.Core.Path.{◌≡◌, refl, sym, ap, ◌∙◌}
use mathlib.Core.Bool.{Bool, true, ◌&&◌}
use native.Mathlib.Omega.{arith}
use native.Mathlib.Nat.{pow-suc}
use zeromasque.Prelude.Tests.{◌==◌, ==_iff, Bool-cases, &&-true}
use mathlib.Core.Logic.{inl, inr}

-- The digit recursion of `|`, on a field below `2 ^ k` and a multiple of `2 ^ k`.
or_digits : (n k a c : ℕ) → a ≤ n → a < 2 ^ k → digits (λ b. b) max n a (c * 2 ^ k) ≡ c * 2 ^ k + a
or_digits zero k zero c h f = omega arith
or_digits zero k (suc a) c h f = absurd (omega arith)
or_digits (suc n) k zero c h f = omega arith
or_digits (suc n) zero (suc a) c h f = absurd (omega arith)
or_digits (suc n) (suc k) (suc a) c h f = omega (
  arith,
  double,
  ap (λ (t : ℕ). digits (λ b. b) max n (suc a / 2) t) halve,
  or_digits n k (suc a / 2) c (omega arith) (omega (arith, pow-suc 2 k)),
)
  where
    double : c * 2 ^ suc k ≡ 2 * (c * 2 ^ k)
    double = omega (arith, ap (λ (t : ℕ). c * t) (pow-suc 2 k))

    halve : c * 2 ^ suc k / 2 ≡ c * 2 ^ k
    halve = omega (arith, double)

-- A field below bit `k` joined with a tag from bit `k` on.
pub bit_or_tag : (k a c : ℕ) → a < 2 ^ k → bit_or a (c * 2 ^ k) ≡ c * 2 ^ k + a
bit_or_tag k a c h = bit_or-bitwise a (c * 2 ^ k) ∙ or_digits a k a c (omega arith) h

-- The same with the multiple on the left.
or_digits_left :
    (n k x a c : ℕ) → x ≤ n → a < 2 ^ k → x ≡ c * 2 ^ k → digits (λ b. b) max n x a ≡ x + a
or_digits_left zero k zero a c h f e = omega arith
or_digits_left zero k (suc x) a c h f e = absurd (omega arith)
or_digits_left (suc n) k zero a c h f e = omega arith
or_digits_left (suc n) zero (suc x) a c h f e =
    omega (arith, or_digits_left n 0 (suc x / 2) (a / 2) (suc x / 2) (omega arith) (omega arith))
or_digits_left (suc n) (suc k) (suc x) a c h f e = omega (
  arith,
  double,
  or_digits_left n k (suc x / 2) (a / 2) c (omega arith) (omega (arith, pow-suc 2 k))
      (omega (arith, double)),
)
  where
    double : c * 2 ^ suc k ≡ 2 * (c * 2 ^ k)
    double = omega (arith, ap (λ (t : ℕ). c * t) (pow-suc 2 k))

pub bit_or_field : (k a c : ℕ) → a < 2 ^ k → bit_or (c * 2 ^ k) a ≡ c * 2 ^ k + a
bit_or_field k a c h =
    bit_or-bitwise (c * 2 ^ k) a ∙ or_digits_left (c * 2 ^ k) k (c * 2 ^ k) a c (omega arith) h refl

-- A byte's low bits are its remainder, for every byte.
low_bits : ℕ → Bool
low_bits zero = true
low_bits (suc b) = low_bits b && (bit_and b 0x3f == b % 64)

low_bits_sound : (n x : ℕ) → low_bits n ≡ true → x < n → bit_and x 0x3f ≡ x % 64
unfolding low_bits
low_bits_sound zero x h small = absurd (omega arith)
low_bits_sound (suc b) x h small = elim (Bool-cases (x == b)) [
  | inl e ↦
      let same : x ≡ b = (==_iff x b).0 e in
      ap (λ y. bit_and y 0x3f) same ∙ (==_iff _ _).0 (&&-true _ _ h).1 ∙ ap (λ y. y % 64) (sym same)
  | inr ne ↦ low_bits_sound b x (&&-true _ _ h).0 (ground (arith, ne))
]

all_bytes : low_bits 256 ≡ true
unfolding low_bits
all_bytes = refl

-- The six low bits of a byte.
pub low_six : (x : ℕ) → x < 256 → bit_and x 0x3f ≡ x % 64
low_six x h = low_bits_sound 256 x all_bytes h
