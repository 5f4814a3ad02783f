-- ===== src/Ech/Keygen/Laws.antt =====
-- `validate_public_name` and `run` of src/ech/keygen.rs: which names pass, and what is printed.
use zeromasque.Prelude.{
  ℕ, ◌≤◌, ◌<◌, ◌≡◌, ◌↔◌, ◌⊎◌, refl, ap, [], ◌∷◌, Bool, true, false, not, ◌||◌, ◌==◌, ltb, arith,
  All, length, any, all, &&-true, subst, nat_beq_sound, nat_beq_refl,
}
use zeromasque.Prelude.Result.{Result, ok, ◌>>◌, bail_if}
use zeromasque.Prelude.Members.{In, any-In, In-any}
use zeromasque.Text.{Text, is_empty}
use zeromasque.Ech.Keygen.{
  GenError, bad_length, no_dot, bad_character, allowed_byte, validate_public_name,
}

-- A byte of a DNS name in ASCII.
abbrev pub IsNameByte : ℕ → Type 0
IsNameByte c =
    ((b'a' ≤ c) × (c ≤ b'z'))
    ⊎ ((b'A' ≤ c) × (c ≤ b'Z'))
    ⊎ ((b'0' ≤ c) × (c ≤ b'9'))
    ⊎ (c ≡ b'.')
    ⊎ (c ≡ b'-')

-- 1 to 253 letters, digits, dots and hyphens, with a dot.
abbrev pub IsPublicName : Text → Type 0
IsPublicName name = (0 < length name) × (length name ≤ 253) × In b'.' name × All IsNameByte name

allowed_byte_sound : (c : ℕ) → allowed_byte c ≡ true → IsNameByte c
allowed_byte_sound c h = grind arith

allowed_byte_complete : (c : ℕ) → IsNameByte c → allowed_byte c ≡ true
allowed_byte_complete c h = ground arith

all-allowed_byte : (s : Text) → all allowed_byte s ≡ true → All IsNameByte s
all-allowed_byte [] h = tt
all-allowed_byte (c ∷ s) h =
    let (p, q) = &&-true _ _ h in (allowed_byte_sound c p, all-allowed_byte s q)

allowed_byte-all : (s : Text) → All IsNameByte s → all allowed_byte s ≡ true
allowed_byte-all [] h = refl
allowed_byte-all (c ∷ s) h = ground (arith, allowed_byte_complete c h.0, allowed_byte-all s h.1)

-- Three tests in a row.
abbrev three : Bool → Bool → Bool → GenError → GenError → GenError → Result GenError (Unit {0})
three a b c x y z = bail_if a x >> (bail_if b y >> (bail_if c z >> ok tt))

passes_three :
    (a b c : Bool) (x y z : GenError)
    → (three a b c x y z ≡ ok tt) ↔ ((a ≡ false) × (b ≡ false) × (c ≡ false))
passes_three true b c x y z = (λ h. cc, λ h. cc (h.0))
passes_three false true c x y z = (λ h. cc, λ h. cc (h.1))
passes_three false false true x y z = (λ h. cc, λ h. cc (h.2))
passes_three false false false x y z = (λ h. (refl, refl, refl), λ h. refl)

not-false : (b : Bool) → not b ≡ false → b ≡ true
not-false true h = refl
not-false false h = cc

has_dot : (name : Text) → any (λ x. x == b'.') name ≡ true → In b'.' name
has_dot name h =
    let (d, i, same) = In-any (λ x. x == b'.') name h in
    subst (λ x. In x name) (nat_beq_sound d b'.' same) i

length_test :
    (name : Text)
    → ((is_empty name || ltb 253 (length name)) ≡ false) ↔ ((0 < length name) × (length name ≤ 253))
length_test [] = (λ h. cc, λ h. absurd (omega arith))
length_test (c ∷ s) = (λ h. (omega arith, ground arith), λ h. ground arith)

-- A name passes exactly when it has 1 to 253 bytes, all of them letters, digits, dots and hyphens of
-- ASCII, and at least one of them a dot.
pub validate_public_name_lem :
    (name : Text) → (validate_public_name name ≡ ok tt) ↔ IsPublicName name
unfolding validate_public_name
validate_public_name_lem name = (
  λ h.
      let (long, dot, bytes) = (passes_three _ _ _ bad_length no_dot bad_character).0 h in
      let (some_byte, short) = (length_test name).0 long in
      (some_byte, short, has_dot name (not-false _ dot), all-allowed_byte name (not-false _ bytes)),
  λ h. (passes_three _ _ _ bad_length no_dot bad_character).1 (
    (length_test name).1 (h.0, h.1),
    ap not (any-In (λ x. x == b'.') b'.' name h.2 (nat_beq_refl b'.')),
    ap not (allowed_byte-all name h.3),
  ),
)
