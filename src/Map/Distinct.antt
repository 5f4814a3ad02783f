-- ===== src/Map/Distinct.antt =====
-- The keys of a map, each there once, and what holds of all its entries.
use zeromasque.Prelude.{
  ◌≡◌, refl, sym, ap, [], ◌∷◌, none, some, Bool, false, not, arith, filter, All, subst, Eq,
  Bool-cases, inl, inr,
}
use zeromasque.Prelude.Members.{In, Distinct, All-map}
use zeromasque.Map.{Map, keys, get, remove, insert, update}
use zeromasque.Map.Laws.{beq_ne, All-filter}

module _ {K V : Type 0} ⦃key : Eq K⦄ where
  pub get-not_In : (k : K) (m : Map K V) → ¬ In k (keys m) → get k m ≡ none
  unfolding get
  get-not_In k [] h = refl
  get-not_In k (e ∷ m) h =
      rw (beq_ne k e.0 (λ same. h (inl same))) (get-not_In k m (λ i. h (inr i)))

  keys-update : (k : K) (f : V → V) (m : Map K V) → keys (update k f m) ≡ keys m
  unfolding update
  keys-update k f [] = refl
  keys-update k f (e ∷ m) = elim (Bool-cases (key.beq k e.0)) [
    | inl h ↦ rw h refl
    | inr h ↦ rw h (ap (◌∷◌ e.0) (keys-update k f m))
  ]

  pub Distinct-update :
      (k : K) (f : V → V) (m : Map K V) → Distinct (keys m) → Distinct (keys (update k f m))
  Distinct-update k f m h = subst Distinct (sym (keys-update k f m)) h

  In-filter : (p : K × V → Bool) (k : K) (m : Map K V) → In k (keys (filter p m)) → In k (keys m)
  In-filter p k [] i = i
  In-filter p k (e ∷ m) i = elim (Bool-cases (p e)) [
    | inr h ↦ inr (In-filter p k m (rw h at i))
    | inl h ↦
        let i' : In k (e.0 ∷ keys (filter p m)) = rw h at i in
        elim i' [ inl same ↦ inl same | inr later ↦ inr (In-filter p k m later) ]
  ]

  Distinct-filter :
      (p : K × V → Bool) (m : Map K V) → Distinct (keys m) → Distinct (keys (filter p m))
  Distinct-filter p [] h = tt
  Distinct-filter p (e ∷ m) h = elim (Bool-cases (p e)) [
    | inr x ↦ rw x (Distinct-filter p m h.1)
    | inl x ↦ rw x ((λ i. h.0 (In-filter p e.0 m i)), Distinct-filter p m h.1)
  ]

  pub Distinct-remove : (k : K) (m : Map K V) → Distinct (keys m) → Distinct (keys (remove k m))
  unfolding remove
  Distinct-remove k m h = Distinct-filter _ m h

  removed : (k : K) (m : Map K V) → ¬ In k (keys (remove k m))
  unfolding remove
  removed k [] = λ i. i
  removed k (e ∷ m) = elim (Bool-cases (key.beq k e.0)) [
    | inl x ↦ rw x (removed k m)
    | inr x ↦ rw x (λ i. elim i [
      | inl same ↦ cc (x, ap (key.beq k) same, key.beq_refl k)
      | inr later ↦ removed k m later
    ])
  ]

  pub Distinct-insert :
      (k : K) (v : V) (m : Map K V) → Distinct (keys m) → Distinct (keys (insert k v m))
  unfolding insert
  Distinct-insert k v m h = (removed k m, Distinct-remove k m h)

  pub All-remove :
      (P : K × V → Type 0) (k : K) (m : Map K V)
      → All P m
      → All (λ e. P e × (key.beq k e.0 ≡ false)) (remove k m)
  unfolding remove
  All-remove P k m h =
      All-map (λ e r. (r.0, ground (arith, r.1))) _ (All-filter P (λ e. not (key.beq k e.0)) m h)

  -- Only the entry that a lookup finds is changed.
  pub All-update :
      (P : V → Type 0) (k : K) (f : V → V) (m : Map K V)
      → All (λ e. P e.1) m
      → ((v : V) → get k m ≡ some v → P (f v))
      → All (λ e. P e.1) (update k f m)
  unfolding update get
  All-update P k f [] h g = tt
  All-update P k f (e ∷ m) h g = elim (Bool-cases (key.beq k e.0)) [
    | inl x ↦ rw x (g e.1 (rw x refl), h.1)
    | inr x ↦ rw x (h.0, All-update P k f m h.1 (λ v found. g v (rw x found)))
  ]
