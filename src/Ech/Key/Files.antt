-- ===== src/Ech/Key/Files.antt =====
-- The files that `EchKeySet::load` of src/ech/key.rs reads at a path, and their order.
use zeromasque.Prelude.{
  ℕ, ◌<◌, ltb, ◌++◌, ◌≡◌, ◌≢◌, ◌↔◌, ◌⊎◌, inl, inr, refl, sym, ap, ◌∙◌, subst, List, [], ◌∷◌, Option,
  none, some, true, false, not, &&-true, arith, Bool-cases, All, ◌==◌,
}
use mathlib.Core.Path.{ap₂}
use mathlib.Core.List.{Permᴰ}
use zeromasque.Text.{Text}
use zeromasque.Text.Utf8.{is_utf8}
use zeromasque.Ech.Key.{name_leb, insert_name, sort, is_visible, starts_with_dot, visible_names}
use zeromasque.Ech.Key.Order.{name_leb_total, name_leb_trans, insert_swap}

-- A name that is a text and does not begin with a dot.
abbrev pub IsShown : Text → Type 0
IsShown name = (is_utf8 name ≡ true) × ((s : Text) → name ≢ b'.' ∷ s)

-- The shown names among the entries; an entry whose name is no text of the system's is `none`.
abbrev pub Selects : List (Option Text) → List Text → Type 0
Selects [] names = names ≡ []
Selects (none ∷ es) names = Selects es names
Selects (some n ∷ es) names =
    (IsShown n × ((rest : List Text) × (names ≡ n ∷ rest) × Selects es rest))
    ⊎ ((¬ IsShown n) × Selects es names)

-- One name before another in the order of their bytes: it is the beginning of the other, or it has the
-- smaller byte where they first differ.
abbrev pub Before : Text → Text → Type 0
Before s t =
    ((rest : Text) × (t ≡ s ++ rest))
    ⊎ ((p : Text) × (a : ℕ) × (u : Text) × (b : ℕ) × (v : Text) × (s ≡ p ++ a ∷ u)
        × (t ≡ p ++ b ∷ v)
        × (a < b))

abbrev pub Ascending : List Text → Type 0
Ascending [] = Unit {0}
Ascending (n ∷ ns) = All (Before n) ns × Ascending ns

-- All shown names of the entries, in order.
abbrev pub Listing : List (Option Text) → List Text → Type 0
Listing entries names =
    (shown : List Text) × Selects entries shown × Permᴰ names shown × Ascending names

Before-cons : (c d : ℕ) (s t : Text) → c ≡ d → Before s t → Before (c ∷ s) (d ∷ t)
Before-cons c d s t h (inl (rest, e)) = inl (rest, ap₂ (λ x y. x ∷ y) (sym h) e)
Before-cons c d s t h (inr (p, a, u, b, v, e, f, l)) =
    inr (c ∷ p, a, u, b, v, ap (◌∷◌ c) e, ap₂ (λ x y. x ∷ y) (sym h) f, l)

name_leb-Before : (s t : Text) → name_leb s t ≡ true → Before s t
name_leb-Before [] t h = inl (t, refl)
name_leb-Before (a ∷ s) [] h = absurd (cc h)
name_leb-Before (a ∷ s) (b ∷ t) h = elim (Bool-cases (ltb a b)) [
  | inl l ↦ inr ([], a, s, b, t, refl, refl, ground (arith, l))
  | inr g ↦
      let same : a ≡ b = ground (arith, h, g) in
      Before-cons a b s t same (name_leb-Before s t (ground (arith, h, g)))
]

leb-append : (s rest : Text) → name_leb s (s ++ rest) ≡ true
leb-append [] rest = refl
leb-append (a ∷ s) rest = ground (arith, leb-append s rest)

leb-differ :
    (p : Text) (a : ℕ) (u : Text) (b : ℕ) (v : Text)
    → a < b
    → name_leb (p ++ a ∷ u) (p ++ b ∷ v) ≡ true
leb-differ [] a u b v l = ground (arith, l)
leb-differ (c ∷ p) a u b v l = ground (arith, leb-differ p a u b v l)

Before-name_leb : (s t : Text) → Before s t → name_leb s t ≡ true
Before-name_leb s t (inl (rest, e)) = ap (name_leb s) e ∙ leb-append s rest
Before-name_leb s t (inr (p, a, u, b, v, e, f, l)) = ap₂ name_leb e f ∙ leb-differ p a u b v l

no_dot : (n : Text) → starts_with_dot n ≡ false → (s : Text) → n ≢ b'.' ∷ s
no_dot n h s e = absurd (cc (h, ap starts_with_dot e))

dotted : (n : Text) → ((s : Text) → n ≢ b'.' ∷ s) → starts_with_dot n ≡ false
dotted [] h = refl
dotted (c ∷ s) h = elim (Bool-cases (c == b'.')) [
  | inl e ↦ absurd (h s (ap (λ x. x ∷ s) (ground (arith, e))))
  | inr e ↦ e
]

is_visible-IsShown : (n : Text) → is_visible n ≡ true → IsShown n
is_visible-IsShown n h =
    let (u, d) = &&-true (is_utf8 n) (not (starts_with_dot n)) h in
    (u, no_dot n (ground (arith, d)))

IsShown-is_visible : (n : Text) → IsShown n → is_visible n ≡ true
IsShown-is_visible n (u, d) = rw (u, dotted n d) refl

visible_names-Selects : (es : List (Option Text)) → Selects es (visible_names es)
unfolding visible_names
visible_names-Selects [] = refl
visible_names-Selects (none ∷ es) = visible_names-Selects es
visible_names-Selects (some n ∷ es) = elim (Bool-cases (is_visible n)) [
  | inl h ↦ rw h (inl (is_visible-IsShown n h, (visible_names es, refl, visible_names-Selects es)))
  | inr h ↦ rw h (inr (λ s. absurd (cc (h, IsShown-is_visible n s)), visible_names-Selects es))
]

Selects-visible_names :
    (es : List (Option Text)) (names : List Text) → Selects es names → names ≡ visible_names es
unfolding visible_names
Selects-visible_names [] names h = h
Selects-visible_names (none ∷ es) names h = Selects-visible_names es names h
Selects-visible_names (some n ∷ es) names (inl (s, (rest, e, h))) =
    rw (IsShown-is_visible n s) (e ∙ ap (◌∷◌ n) (Selects-visible_names es rest h))
Selects-visible_names (some n ∷ es) names (inr (s, h)) = elim (Bool-cases (is_visible n)) [
  | inl v ↦ absurd (s (is_visible-IsShown n v))
  | inr v ↦ rw v (Selects-visible_names es names h)
]

Perm-refl : (ns : List Text) → Permᴰ ns ns
Perm-refl [] = Permᴰ.nil
Perm-refl (n ∷ ns) = Permᴰ.cons refl (Perm-refl ns)

insert_name-Perm : (n : Text) (ms : List Text) → Permᴰ (insert_name n ms) (n ∷ ms)
unfolding insert_name
insert_name-Perm n [] = Perm-refl (n ∷ [])
insert_name-Perm n (m ∷ ms) = elim (Bool-cases (name_leb n m)) [
  | inl h ↦ rw h (Perm-refl (n ∷ m ∷ ms))
  | inr h ↦ rw h (Permᴰ.trans (Permᴰ.cons refl (insert_name-Perm n ms)) (Permᴰ.swap refl refl))
]

sort-Perm : (ns : List Text) → Permᴰ (sort ns) ns
unfolding sort
sort-Perm [] = Permᴰ.nil
sort-Perm (n ∷ ns) = Permᴰ.trans (insert_name-Perm n (sort ns)) (Permᴰ.cons refl (sort-Perm ns))

All-insert_name :
    (P : Text → Type 0) (n : Text) (ms : List Text) → P n → All P ms → All P (insert_name n ms)
unfolding insert_name
All-insert_name P n [] p h = (p, tt)
All-insert_name P n (m ∷ ms) p h = elim (Bool-cases (name_leb n m)) [
  | inl e ↦ rw e (p, h)
  | inr e ↦ rw e (h.0, All-insert_name P n ms p h.1)
]

All-behind :
    (n m : Text) (ms : List Text) → name_leb n m ≡ true → All (Before m) ms → All (Before n) ms
All-behind n m [] e h = tt
All-behind n m (x ∷ ms) e h = (
  name_leb-Before n x (name_leb_trans n m x e (Before-name_leb m x h.0)),
  All-behind n m ms e h.1,
)

insert_name-Ascending : (n : Text) (ms : List Text) → Ascending ms → Ascending (insert_name n ms)
unfolding insert_name
insert_name-Ascending n [] h = (tt, tt)
insert_name-Ascending n (m ∷ ms) h = elim (Bool-cases (name_leb n m)) [
  | inl e ↦ rw e ((name_leb-Before n m e, All-behind n m ms e h.0), h)
  | inr e ↦ rw e (
    All-insert_name (Before m) n ms (name_leb-Before m n (name_leb_total n m e)) h.0,
    insert_name-Ascending n ms h.1,
  )
]

sort-Ascending : (ns : List Text) → Ascending (sort ns)
unfolding sort
sort-Ascending [] = tt
sort-Ascending (n ∷ ns) = insert_name-Ascending n (sort ns) (sort-Ascending ns)

insert_name-least : (n : Text) (ns : List Text) → All (Before n) ns → insert_name n ns ≡ n ∷ ns
unfolding insert_name
insert_name-least n [] h = refl
insert_name-least n (m ∷ ms) h = rw (Before-name_leb n m h.0) refl

sorted : (ns : List Text) → Ascending ns → sort ns ≡ ns
unfolding sort
sorted [] h = refl
sorted (n ∷ ns) h = ap (insert_name n) (sorted ns h.1) ∙ insert_name-least n ns h.0

sort-same : {xs ys : List Text} → Permᴰ xs ys → sort xs ≡ sort ys
unfolding sort
sort-same Permᴰ.nil = refl
sort-same (Permᴰ.cons e p) = ap₂ insert_name e (sort-same p)
sort-same (Permᴰ.swap {a = a} {b = b} {l = l} e e') =
    insert_swap a b (sort l) ∙ ap₂ (λ x y. insert_name x (insert_name y (sort l))) e' e
sort-same (Permᴰ.trans p q) = sort-same p ∙ sort-same q

-- The listing is what the code takes.
pub listing_lem :
    (es : List (Option Text)) (names : List Text)
    → (names ≡ sort (visible_names es)) ↔ Listing es names
listing_lem es names = (
  λ e. subst (Listing es) (sym e) (
    visible_names es,
    visible_names-Selects es,
    sort-Perm (visible_names es),
    sort-Ascending (visible_names es),
  ),
  λ (shown, s, p, a).
      sym (sorted names a) ∙ sort-same p ∙ ap sort (Selects-visible_names es shown s),
)
