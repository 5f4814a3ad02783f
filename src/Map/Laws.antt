-- ===== src/Map/Laws.antt =====
-- What a lookup sees after each operation on a map.
use zeromasque.Prelude.{
  ◌≡◌, ◌≢◌, ◌∙◌, refl, sym, ap, List, [], ◌∷◌, Option, none, some, Bool, true, false, arith, filter,
  All, subst, if◌then◌else◌, Eq, Bool-cases, Option-cases, inl, inr,
}
use zeromasque.Map.{Map, is_some, retain, map_values, get, contains_key, remove, insert, update}
use mathlib.Core.Option

pub beq_ne : {K : Type 0} ⦃key : Eq K⦄ (a b : K) → a ≢ b → key.beq a b ≡ false
beq_ne ⦃key⦄ a b h = elim (Bool-cases (key.beq a b)) [
  | inl e ↦ absurd (h (key.beq_sound a b e))
  | inr e ↦ e
]

module _ {K V : Type 0} ⦃key : Eq K⦄ where
  pub get-remove_same : (k : K) (m : Map K V) → get k (remove k m) ≡ none
  unfolding get remove
  get-remove_same k [] = refl
  get-remove_same k (e ∷ m) = elim (Bool-cases (key.beq k e.0)) [
    | inl h ↦ rw h (get-remove_same k m)
    | inr h ↦ rw (h, h) (get-remove_same k m)
  ]

  pub get-remove_ne : (k q : K) (m : Map K V) → q ≢ k → get q (remove k m) ≡ get q m
  unfolding get remove
  get-remove_ne k q [] h = refl
  get-remove_ne k q (e ∷ m) h = elim (Bool-cases (key.beq k e.0)) [
    | inl a ↦
        let other : key.beq q e.0 ≡ false =
          ap (key.beq q) (sym (key.beq_sound k e.0 a)) ∙ beq_ne q k h in
        rw (a, other) (get-remove_ne k q m h)
    | inr a ↦ rw a (ap (λ t. if key.beq q e.0 then some e.1 else t) (get-remove_ne k q m h))
  ]

  pub get-insert_same : (k : K) (v : V) (m : Map K V) → get k (insert k v m) ≡ some v
  unfolding get insert
  get-insert_same k v m = rw (key.beq_refl k) refl

  pub get-insert_ne : (k q : K) (v : V) (m : Map K V) → q ≢ k → get q (insert k v m) ≡ get q m
  unfolding insert
  get-insert_ne k q v m h = unfold get in rw (beq_ne q k h) (get-remove_ne k q m h)

  pub get-update_same :
      (k : K) (f : V → V) (m : Map K V) → get k (update k f m) ≡ Option.map f (get k m)
  unfolding get update
  get-update_same k f [] = refl
  get-update_same k f (e ∷ m) = elim (Bool-cases (key.beq k e.0)) [
    | inl h ↦ rw (h, h) refl
    | inr h ↦ rw (h, h) (get-update_same k f m)
  ]

  pub get-update_ne : (k q : K) (f : V → V) (m : Map K V) → q ≢ k → get q (update k f m) ≡ get q m
  unfolding get update
  get-update_ne k q f [] h = refl
  get-update_ne k q f (e ∷ m) h = elim (Bool-cases (key.beq k e.0)) [
    | inl a ↦
        let other : key.beq q e.0 ≡ false =
          ap (key.beq q) (sym (key.beq_sound k e.0 a)) ∙ beq_ne q k h in
        rw (a, other) refl
    | inr a ↦ rw a (ap (λ t. if key.beq q e.0 then some e.1 else t) (get-update_ne k q f m h))
  ]

  -- A key that passes keeps its value.
  pub get-retain-true :
      (p : K → V → Bool) (k : K) (m : Map K V) (v : V)
      → get k m ≡ some v
      → p k v ≡ true
      → get k (retain p m) ≡ some v
  unfolding get
  get-retain-true p k [] v h t = cc
  get-retain-true p k (e ∷ m) v h t = elim (Bool-cases (key.beq k e.0)) [
    | inl a ↦
        let same : e.1 ≡ v = ground (arith, a) in
        let passes : p e.0 e.1 ≡ true =
          ap (λ x. p x e.1) (sym (key.beq_sound k e.0 a)) ∙ ap (p k) same ∙ t in
        rw (passes, a) (ap some same)
    | inr a ↦ elim (Bool-cases (p e.0 e.1)) [
      | inl b ↦ rw (b, a) (get-retain-true p k m v (ground (arith, a)) t)
      | inr b ↦ rw b (get-retain-true p k m v (ground (arith, a)) t)
    ]
  ]

module _ {K V U : Type 0} ⦃key : Eq K⦄ where
  pub get-map_values :
      (f : V → U) (k : K) (m : Map K V) → get k (map_values f m) ≡ Option.map f (get k m)
  unfolding get
  get-map_values f k [] = refl
  get-map_values f k (e ∷ m) = elim (Bool-cases (key.beq k e.0)) [
    | inl h ↦ rw h refl
    | inr h ↦ rw h (get-map_values f k m)
  ]

is_some-map : {V : Type 0} (f : V → V) (o : Option V) → is_some (Option.map f o) ≡ is_some o
is_some-map f none = refl
is_some-map f (some v) = refl

-- Which keys there are.
module _ {K V : Type 0} ⦃key : Eq K⦄ where
  pub contains-insert_same : (k : K) (v : V) (m : Map K V) → contains_key k (insert k v m) ≡ true
  contains-insert_same k v m = ap is_some (get-insert_same k v m)

  pub contains-insert :
      (k q : K) (v : V) (m : Map K V)
      → contains_key q m ≡ true
      → contains_key q (insert k v m) ≡ true
  contains-insert k q v m h = elim (Bool-cases (key.beq q k)) [
    | inl e ↦
        ap (λ x. contains_key x (insert k v m)) (key.beq_sound q k e) ∙ contains-insert_same k v m
    | inr e ↦
        ap is_some
          (get-insert_ne k q v m (λ same. cc (e, ap (key.beq q) (sym same), key.beq_refl q)))
        ∙ h
  ]

  pub contains-update :
      (k q : K) (f : V → V) (m : Map K V) → contains_key q (update k f m) ≡ contains_key q m
  contains-update k q f m = elim (Bool-cases (key.beq q k)) [
    | inl e ↦
        let same : q ≡ k = key.beq_sound q k e in
        ap (λ x. contains_key x (update k f m)) same
        ∙ ap is_some (get-update_same k f m)
        ∙ is_some-map f (get k m)
        ∙ ap (λ x. contains_key x m) (sym same)
    | inr e ↦
        ap is_some
          (get-update_ne k q f m (λ same. cc (e, ap (key.beq q) (sym same), key.beq_refl q)))
  ]

  pub contains-map_values :
      (f : V → V) (k : K) (m : Map K V) → contains_key k (map_values f m) ≡ contains_key k m
  contains-map_values f k m = ap is_some (get-map_values f k m) ∙ is_some-map f (get k m)

  pub contains-get : (k : K) (m : Map K V) → contains_key k m ≡ true → (v : V) × (get k m ≡ some v)
  contains-get k m h = elim (Option-cases (get k m)) [
    | inl e ↦ absurd (cc (h, ap is_some e))
    | inr w ↦ w
  ]

  -- What holds of all entries holds of the one that a lookup finds.
  pub All-get :
      (P : K × V → Type 0) (k : K) (m : Map K V) (v : V) → All P m → get k m ≡ some v → P (k, v)
  unfolding get
  All-get P k [] v h e = cc
  All-get P k ((x, y) ∷ m) v h e = elim (Bool-cases (key.beq k x)) [
    | inl a ↦
        let same : y ≡ v = ground (arith, a) in
        subst (λ z. P (z, v)) (sym (key.beq_sound k x a)) (subst (λ z. P (x, z)) same h.0)
    | inr a ↦ All-get P k m v h.1 (ground (arith, a))
  ]

pub All-filter :
    {A : Type 0} (P : A → Type 0) (p : A → Bool) (xs : List A)
    → All P xs
    → All (λ x. P x × (p x ≡ true)) (filter p xs)
All-filter P p [] h = tt
All-filter P p (x ∷ xs) h = elim (Bool-cases (p x)) [
  | inl e ↦ rw e ((h.0, e), All-filter P p xs h.1)
  | inr e ↦ rw e (All-filter P p xs h.1)
]
