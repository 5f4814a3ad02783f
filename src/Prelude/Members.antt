-- ===== src/Prelude/Members.antt =====
-- Membership, distinctness and pairing of lists, as predicates that compute.
use mathlib.Core.Path.{◌≡◌, refl, sym, ◌∙◌, ap}
use mathlib.Core.Logic.{◌⊎◌, inl, inr}
use mathlib.Core.Bool.{Bool, true, false}
use mathlib.Core.List.{List, [], ◌∷◌, ◌++◌}
use native.Mathlib.Omega.{arith}
use zeromasque.Prelude.Tests.{Bool-cases}
use zeromasque.Prelude.Lists.{any, find, All}
use mathlib.Core.Option.{none, some}

module _ {A : Type 0} where
  abbrev pub In : A → List A → Type 0
  In a [] = ⊥
  In a (x ∷ xs) = (a ≡ x) ⊎ In a xs

  abbrev pub Distinct : List A → Type 0
  Distinct [] = Unit {0}
  Distinct (x ∷ xs) = ¬ In x xs × Distinct xs

module _ {A : Type 0} where
  pub In-append_left : (a : A) (xs ys : List A) → In a xs → In a (xs ++ ys)
  In-append_left a [] ys h = absurd h
  In-append_left a (x ∷ xs) ys (inl e) = inl e
  In-append_left a (x ∷ xs) ys (inr h) = inr (In-append_left a xs ys h)

  pub In-append_right : (a : A) (xs ys : List A) → In a ys → In a (xs ++ ys)
  In-append_right a [] ys h = h
  In-append_right a (x ∷ xs) ys h = inr (In-append_right a xs ys h)

  pub In-append : (a : A) (xs ys : List A) → In a (xs ++ ys) → In a xs ⊎ In a ys
  In-append a [] ys h = inr h
  In-append a (x ∷ xs) ys (inl e) = inl (inl e)
  In-append a (x ∷ xs) ys (inr h) = elim (In-append a xs ys h) [
    | inl p ↦ inl (inr p)
    | inr p ↦ inr p
  ]

  pub Distinct-snoc : (xs : List A) (a : A) → Distinct xs → ¬ In a xs → Distinct (xs ++ a ∷ [])
  Distinct-snoc [] a d h = (λ x. x, tt)
  Distinct-snoc (x ∷ xs) a d h = (
    λ i. elim (In-append x xs (a ∷ []) i) [
      | inl p ↦ d.0 p
      | inr (inl e) ↦ h (inl (sym e))
      | inr (inr p) ↦ absurd p
    ],
    Distinct-snoc xs a d.1 (λ i. h (inr i)),
  )

  module _ (p : A → Bool) where
    pub any-In : (a : A) (xs : List A) → In a xs → p a ≡ true → any p xs ≡ true
    any-In a [] h e = absurd h
    any-In a (x ∷ xs) (inl q) e = ground (arith, ap p q)
    any-In a (x ∷ xs) (inr h) e = ground (arith, any-In a xs h e)

    pub In-any : (xs : List A) → any p xs ≡ true → (a : A) × In a xs × (p a ≡ true)
    In-any [] h = cc
    In-any (x ∷ xs) h = elim (Bool-cases (p x)) [
      | inl e ↦ (x, inl refl, e)
      | inr e ↦ let (a, i, q) = In-any xs (ground (arith, e)) in (a, inr i, q)
    ]

-- Two lists of one length, related one by one.
abbrev pub Both : {A B : Type 0} → (A → B → Type 0) → List A → List B → Type 0
Both R [] [] = Unit {0}
Both R [] (b ∷ bs) = ⊥
Both R (a ∷ as') [] = ⊥
Both R (a ∷ as') (b ∷ bs) = R a b × Both R as' bs

-- `find` answers with the first element that passes, and the ones in front of it do not.
module _ {A : Type 0} (p : A → Bool) where
  abbrev pub IsFirst : A → List A → Type 0
  IsFirst x xs =
      (before : List A) × (after : List A) × (xs ≡ before ++ x ∷ after)
      × All (λ y. p y ≡ false) before
      × (p x ≡ true)

  pub find-IsFirst : (xs : List A) (x : A) → find p xs ≡ some x → IsFirst x xs
  find-IsFirst [] x h = cc
  find-IsFirst (y ∷ xs) x h = elim (Bool-cases (p y)) [
    | inl e ↦
        let same : y ≡ x = ground (arith, e) in
        ([], xs, ap (λ t. t ∷ xs) same, tt, ap p (sym same) ∙ e)
    | inr e ↦
        let (before, after, split, others, this) = find-IsFirst xs x (ground (arith, e)) in
        (y ∷ before, after, ap (◌∷◌ y) split, (e, others), this)
  ]

  find_past :
      (before : List A) (x : A) (after : List A)
      → All (λ y. p y ≡ false) before
      → p x ≡ true
      → find p (before ++ x ∷ after) ≡ some x
  find_past [] x after h e = ground (arith, e)
  find_past (y ∷ before) x after h e = ground (arith, h.0, find_past before x after h.1 e)

  pub IsFirst-find : (xs : List A) (x : A) → IsFirst x xs → find p xs ≡ some x
  IsFirst-find xs x (before, after, split, others, this) =
      ap (find p) split ∙ find_past before x after others this

  pub find-none : (xs : List A) → find p xs ≡ none → All (λ y. p y ≡ false) xs
  find-none [] h = tt
  find-none (y ∷ xs) h = (ground arith, find-none xs (ground arith))

  pub find-All-false : (xs : List A) → All (λ y. p y ≡ false) xs → find p xs ≡ none
  find-All-false [] h = refl
  find-All-false (y ∷ xs) h = ground (arith, h.0, find-All-false xs h.1)

module _ {A : Type 0} {P Q : A → Type 0} (f : (a : A) → P a → Q a) where
  pub All-map : (xs : List A) → All P xs → All Q xs
  All-map [] h = tt
  All-map (x ∷ xs) h = (f x h.0, All-map xs h.1)
