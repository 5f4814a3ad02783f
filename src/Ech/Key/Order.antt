-- ===== src/Ech/Key/Order.antt =====
-- The order of a directory's entries in src/ech/key.rs: `entries.sort()` forgets it.
use zeromasque.Prelude.{
  ◌≡◌, inl, inr, refl, sym, ap, ◌∙◌, List, [], ◌∷◌, Option, none, some, true, false, arith,
  Bool-cases, Option-cases, if◌then◌else◌,
}
use mathlib.Core.Path.{ap₂}
use zeromasque.Prelude.Result.{◌>>=◌, ok_or}
use mathlib.Core.List.{Permᴰ}
use zeromasque.Text.{Text}
use zeromasque.Ech.Pem.{Base64}
use zeromasque.Ech.Key.{
  FileSystem, name_leb, insert_name, sort, is_visible, visible_names, load, bundles_at,
  read_entries, read_dir_failed, from_entries,
}

pub name_leb_total : (s t : Text) → name_leb s t ≡ false → name_leb t s ≡ true
name_leb_total [] t h = cc
name_leb_total (a ∷ s) [] h = refl
name_leb_total (a ∷ s) (b ∷ t) h = ground (arith, name_leb_total s t)

name_leb_antisym : (s t : Text) → name_leb s t ≡ true → name_leb t s ≡ true → s ≡ t
name_leb_antisym [] [] h k = refl
name_leb_antisym [] (b ∷ t) h k = cc
name_leb_antisym (a ∷ s) [] h k = cc
name_leb_antisym (a ∷ s) (b ∷ t) h k = ground (arith, name_leb_antisym s t)

pub name_leb_trans :
    (s t u : Text) → name_leb s t ≡ true → name_leb t u ≡ true → name_leb s u ≡ true
name_leb_trans [] t u h k = refl
name_leb_trans (a ∷ s) [] u h k = cc
name_leb_trans (a ∷ s) (b ∷ t) [] h k = cc
name_leb_trans (a ∷ s) (b ∷ t) (c ∷ u) h k = ground (arith, name_leb_trans s t u)

pub insert_swap :
    (m n : Text) (l : List Text) → insert_name m (insert_name n l) ≡ insert_name n (insert_name m l)
unfolding insert_name
insert_swap m n [] = ground (arith, name_leb_total m n, name_leb_total n m, name_leb_antisym m n)
insert_swap m n (x ∷ l) = ground (
  arith,
  insert_swap m n l,
  name_leb_total m n,
  name_leb_total n m,
  name_leb_antisym m n,
  name_leb_trans m n x,
  name_leb_trans n m x,
)

-- The sorted names of a directory, with an entry more.
abbrev entry : Option Text → List Text → List Text
entry none names = names
entry (some n) names = if is_visible n then insert_name n names else names

abbrev listed : List (Option Text) → List Text
listed es = sort (visible_names es)

listed-cons : (e : Option Text) (es : List (Option Text)) → listed (e ∷ es) ≡ entry e (listed es)
unfolding sort visible_names
listed-cons none es = refl
listed-cons (some n) es = elim (Bool-cases (is_visible n)) [ inl h ↦ rw h refl | inr h ↦ rw h refl ]

entry_swap :
    (d e : Option Text) (names : List Text) → entry d (entry e names) ≡ entry e (entry d names)
entry_swap none e names = refl
entry_swap (some m) none names = refl
entry_swap (some m) (some n) names = ground (arith, insert_swap m n names)

listed-Perm : {es ds : List (Option Text)} → Permᴰ es ds → listed es ≡ listed ds
listed-Perm Permᴰ.nil = refl
listed-Perm (Permᴰ.cons {a = a} {b = b} {l₁ = xs} {l₂ = ys} e p) =
    listed-cons a xs ∙ ap₂ entry e (listed-Perm p) ∙ sym (listed-cons b ys)
listed-Perm (Permᴰ.swap {a = a} {b = b} {a' = a'} {b' = b'} {l = l} e e') =
    listed-cons a (b ∷ l)
    ∙ ap (entry a) (listed-cons b l)
    ∙ entry_swap a b (listed l)
    ∙ ap₂ (λ x y. entry x (entry y (listed l))) e' e
    ∙ sym (ap (entry a') (listed-cons b' l))
    ∙ sym (listed-cons a' (b' ∷ l))
listed-Perm (Permᴰ.trans p q) = listed-Perm p ∙ listed-Perm q

-- The same entries, in some order; or a directory that cannot be read.
abbrev pub Reordered : Option (List (Option Text)) → Option (List (Option Text)) → Type 0
Reordered none none = Unit {0}
Reordered (some es) (some ds) = Permᴰ es ds
Reordered none (some ds) = ⊥
Reordered (some es) none = ⊥

module _ (base64 : Base64) (fs : FileSystem) (r : Text → Option (List (Option Text))) where
  abbrev other : FileSystem
  other = record fs { read_dir = r }

  read_entries-same :
      (dir : Text) (names : List Text)
      → read_entries base64 fs dir names ≡ read_entries base64 other dir names
  unfolding read_entries
  read_entries-same dir [] = refl
  read_entries-same dir (n ∷ names) = rw (read_entries-same dir names) refl

  entries_same :
      (path : Text) (a b : Option (List (Option Text)))
      → Reordered a b
      → (ok_or a read_dir_failed >>= from_entries base64 fs path)
        ≡ (ok_or b read_dir_failed >>= from_entries base64 other path)
  entries_same path none none h = refl
  entries_same path (some es) (some ds) h =
      rw (listed-Perm h, read_entries-same path (listed ds)) refl
  entries_same path none (some ds) h = absurd h
  entries_same path (some es) none h = absurd h

  dir_same :
      (path : Text)
      → Reordered (fs.read_dir path) (r path)
      → bundles_at base64 fs path ≡ bundles_at base64 other path
  unfolding bundles_at
  dir_same path h = elim (Option-cases (fs.is_dir path)) [
    | inl e ↦ rw e refl
    | inr (true, e) ↦ rw e (entries_same path (fs.read_dir path) (r path) h)
    | inr (false, e) ↦ rw e refl
  ]

  -- What a directory of keys loads as, or how it fails, does not depend on the order in which the
  -- system lists its entries: for two file systems that list the entries of the path in any two
  -- orders and are otherwise the same, the answers are the same.
  pub load_ignores_order :
      (path : Text)
      → Reordered (fs.read_dir path) (r path)
      → load base64 fs path ≡ load base64 (record fs { read_dir = r }) path
  unfolding load
  load_ignores_order path h = rw (dir_same path h) refl
