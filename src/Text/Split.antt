-- ===== src/Text/Split.antt =====
-- Where `strip_prefix`, `split_once`, `rsplit_once` and `find` cut a text.
use zeromasque.Prelude.{
  ℕ, zero, suc, ◌≡◌, ◌≢◌, inl, inr, refl, [], ◌∷◌, ◌++◌, none, some, arith, All, take, drop, length,
  Option-cases,
}
use zeromasque.Text.{Text, strip_prefix, split_once, find_byte}

-- No byte of the text is `d`.
abbrev pub Free : ℕ → Text → Type 0
Free d = All (λ c. c ≢ d)

pub strip_prefix_sound : (p s r : Text) → strip_prefix p s ≡ some r → s ≡ p ++ r
strip_prefix_sound [] s r h = ground arith
strip_prefix_sound (p ∷ ps) [] r h = cc
strip_prefix_sound (p ∷ ps) (c ∷ s) r h = ground (arith, strip_prefix_sound ps s r)

pub strip_prefix-append : (p r : Text) → strip_prefix p (p ++ r) ≡ some r
strip_prefix-append [] r = refl
strip_prefix-append (p ∷ ps) r = ground (arith, strip_prefix-append ps r)

pub split_once_sound :
    (p s before after : Text) → split_once p s ≡ some (before, after) → s ≡ before ++ (p ++ after)
unfolding split_once
split_once_sound p [] before after h = cc
split_once_sound p (c ∷ s) before after h = elim (Option-cases (strip_prefix p (c ∷ s))) [
  | inl e ↦ elim (Option-cases (split_once p s)) [
    | inl f ↦ ground (arith, e, f)
    | inr ((b, a), f) ↦ ground (arith, e, f, split_once_sound p s b a f)
  ]
  | inr (r, e) ↦ ground (arith, e, strip_prefix_sound p (c ∷ s) r e)
]

-- The first occurrence of a pattern that begins with `d`, behind a text without `d`.
pub split_once_first :
    (d : ℕ) (p before after : Text)
    → Free d before
    → split_once (d ∷ p) (before ++ (d ∷ p ++ after)) ≡ some (before, after)
unfolding split_once
split_once_first d p [] after h = ground (arith, strip_prefix-append (d ∷ p) after)
split_once_first d p (c ∷ before) after h = ground (arith, split_once_first d p before after h.1)

pub split_once-Free' : (d : ℕ) (p s : Text) → Free d s → split_once (d ∷ p) s ≡ none
unfolding split_once
split_once-Free' d p [] h = refl
split_once-Free' d p (c ∷ s) h = ground (arith, split_once-Free' d p s h.1)

-- At a single character the part in front is free of it.
pub split_once-Free :
    (d : ℕ) (s before after : Text) → split_once (d ∷ []) s ≡ some (before, after) → Free d before
unfolding split_once
split_once-Free d [] before after h = cc
split_once-Free d (c ∷ s) before after h = elim (Option-cases (split_once (d ∷ []) s)) [
  | inl f ↦ ground (arith, f)
  | inr ((b, a), f) ↦ ground (arith, f, split_once-Free d s b a f)
]

pub split_once-none : (d : ℕ) (s : Text) → split_once (d ∷ []) s ≡ none → Free d s
unfolding split_once
split_once-none d [] h = tt
split_once-none d (c ∷ s) h = ground (arith, split_once-none d s)

pub find_byte-some :
    (d i : ℕ) (s : Text)
    → find_byte d s ≡ some i
    → Free d (take i s) × ((rest : Text) × (drop i s ≡ d ∷ rest))
unfolding find_byte
find_byte-some d i [] h = cc
find_byte-some d zero (c ∷ s) h = (tt, (s, ground arith))
find_byte-some d (suc i) (c ∷ s) h =
    let (free, (rest, e)) = find_byte-some d i s (ground arith) in ((ground arith, free), (rest, e))

pub find_byte-none : (d : ℕ) (s : Text) → find_byte d s ≡ none → Free d s
unfolding find_byte
find_byte-none d [] h = tt
find_byte-none d (c ∷ s) h = ground (arith, find_byte-none d s)

pub find_byte_first :
    (d : ℕ) (s rest : Text) → Free d s → find_byte d (s ++ d ∷ rest) ≡ some (length s)
unfolding find_byte
find_byte_first d [] rest h = ground arith
find_byte_first d (c ∷ s) rest h = ground (arith, find_byte_first d s rest h.1)

pub find_byte-Free : (d : ℕ) (s : Text) → Free d s → find_byte d s ≡ none
unfolding find_byte
find_byte-Free d [] h = refl
find_byte-Free d (c ∷ s) h = ground (arith, find_byte-Free d s h.1)
