-- ===== src/Text/Trim/Laws.antt =====
-- What `trim`, `lines` and `strip_suffix` do to the texts that the program writes.
use zeromasque.Prelude.{
  ℕ, ◌≤◌, ◌<◌, ◌≡◌, ◌≢◌, ◌⊎◌, refl, sym, ap, ◌∙◌, [], ◌∷◌, ◌++◌, some, false, arith, All, bytes_beq,
  bytes_beq_refl, bytes_beq_sound, Bool-cases, inl, inr, length, length-append, append-nil,
}
use mathlib.Core.List
use mathlib.Core.List.{reverse, reverse-append, reverse-reverse}
use zeromasque.Text.{Text}
use zeromasque.Text.Trim.{space_len, space_end, drop_spaces, trim, lines, strip_suffix}

-- Visible ASCII: no white space begins or ends with such a byte.
abbrev pub IsGraphic : ℕ → Type 0
IsGraphic c = (33 ≤ c) × (c < 127)

space_len-graphic : (c : ℕ) (s : Text) → IsGraphic c → space_len (c ∷ s) ≡ 0
unfolding space_len
space_len-graphic c s h = ground arith

space_end-graphic : (c : ℕ) (s : Text) → IsGraphic c → space_end (c ∷ s) ≡ 0
unfolding space_end
space_end-graphic c s h = ground arith

drop_spaces-kept :
    (len : Text → ℕ) (c : ℕ) (s : Text) → len (c ∷ s) ≡ 0 → drop_spaces len 0 (c ∷ s) ≡ c ∷ s
unfolding drop_spaces
drop_spaces-kept len c s h = rw (h, drop_spaces) refl

-- A text that begins and ends with visible bytes is its own trim.
pub trim_kept :
    (c d : ℕ) (s r : Text)
    → IsGraphic c
    → IsGraphic d
    → reverse (c ∷ s) ≡ d ∷ r
    → trim (c ∷ s) ≡ c ∷ s
unfolding trim
trim_kept c d s r hc hd e =
    ap (λ t. reverse (drop_spaces space_end 0 (reverse t)))
      (drop_spaces-kept space_len c s (space_len-graphic c s hc))
    ∙ ap (λ t. reverse (drop_spaces space_end 0 t)) e
    ∙ ap reverse (drop_spaces-kept space_end d r (space_end-graphic d r hd))
    ∙ ap reverse (sym e)
    ∙ reverse-reverse (c ∷ s)

All-reverse_onto : (P : ℕ → Type 0) (s t : Text) → All P s → All P t → All P (List.reverse_aux s t)
All-reverse_onto P [] t h k = k
All-reverse_onto P (c ∷ s) t h k = All-reverse_onto P s (c ∷ t) h.1 (h.0, k)

trim_from_end :
    (c : ℕ) (s t : Text)
    → IsGraphic c
    → All IsGraphic t
    → reverse (c ∷ s) ≡ t
    → trim (c ∷ s) ≡ c ∷ s
trim_from_end c s [] h k e =
    absurd (omega (arith, ap length (sym (reverse-reverse (c ∷ s)) ∙ ap reverse e)))
trim_from_end c s (d ∷ r) h k e = trim_kept c d s r h k.0 e

pub trim-graphic : (s : Text) → All IsGraphic s → trim s ≡ s
unfolding trim
trim-graphic [] h = refl
trim-graphic (c ∷ s) h =
    trim_from_end c s (reverse (c ∷ s)) h.0 (All-reverse_onto IsGraphic (c ∷ s) [] h tt) refl

-- A line that holds no line feed and no carriage return.
abbrev pub IsLine : Text → Type 0
IsLine = All (λ c. (c ≢ 10) × (c ≢ 13))

pub lines_line : (l rest : Text) → IsLine l → lines (l ++ (10 ∷ rest)) ≡ l ∷ lines rest
unfolding lines
lines_line [] rest h = refl
lines_line (c ∷ l) rest h = rw (lines_line l rest h.1) (ground arith)

longer : (d c : ℕ) (q s : Text) → bytes_beq (d ∷ q) (c ∷ (s ++ d ∷ q)) ≡ false
longer d c q s = elim (Bool-cases (bytes_beq (d ∷ q) (c ∷ (s ++ d ∷ q)))) [
  | inl e ↦ absurd (
      omega
        (arith, ap length (bytes_beq_sound (d ∷ q) (c ∷ (s ++ d ∷ q)) e), length-append s (d ∷ q)))
  | inr e ↦ e
]

pub strip_suffix-append : (d : ℕ) (q s : Text) → strip_suffix (d ∷ q) (s ++ d ∷ q) ≡ some s
unfolding strip_suffix
strip_suffix-append d q [] = rw (bytes_beq_refl (d ∷ q))
strip_suffix-append d q (c ∷ s) = rw (longer d c q s, strip_suffix-append d q s) refl

-- A space, a tab, or a byte that ends a line.
abbrev pub IsSpace : ℕ → Type 0
IsSpace c = ((9 ≤ c) × (c ≤ 13)) ⊎ (c ≡ 32)

space_len-IsSpace : (c : ℕ) (s : Text) → IsSpace c → space_len (c ∷ s) ≡ 1
unfolding space_len
space_len-IsSpace c s h = ground arith

space_end-IsSpace : (c : ℕ) (s : Text) → IsSpace c → space_end (c ∷ s) ≡ 1
unfolding space_end
space_end-IsSpace c s h = ground arith

drop_spaces-padding :
    (len : Text → ℕ)
    → ((c : ℕ) (s : Text) → IsSpace c → len (c ∷ s) ≡ 1)
    → (ws s : Text) → All IsSpace ws
    → drop_spaces len 0 (ws ++ s) ≡ drop_spaces len 0 s
unfolding drop_spaces
drop_spaces-padding len one [] s h = refl
drop_spaces-padding len one (w ∷ ws) s h =
    rw (one w (ws ++ s) h.0, drop_spaces) (drop_spaces-padding len one ws s h.1)

drop_end-graphic : (s : Text) → All IsGraphic s → drop_spaces space_end 0 s ≡ s
unfolding drop_spaces
drop_end-graphic [] h = refl
drop_end-graphic (c ∷ s) h = drop_spaces-kept space_end c s (space_end-graphic c s h.0)

All-reverse : (P : ℕ → Type 0) (s : Text) → All P s → All P (reverse s)
All-reverse P s h = All-reverse_onto P s [] h tt

-- What is left of the padding in front.
trim_front :
    (before t : Text)
    → All IsSpace before
    → trim (before ++ t) ≡ reverse (drop_spaces space_end 0 (reverse (drop_spaces space_len 0 t)))
unfolding trim
trim_front before t h =
    ap (λ x. reverse (drop_spaces space_end 0 (reverse x)))
      (drop_spaces-padding space_len space_len-IsSpace before t h)

drop_padding : (after : Text) → All IsSpace after → drop_spaces space_len 0 after ≡ []
unfolding drop_spaces
drop_padding after h =
    ap (drop_spaces space_len 0) (sym (append-nil after))
    ∙ drop_spaces-padding space_len space_len-IsSpace after [] h

drop_back :
    (s after : Text)
    → All IsGraphic s
    → All IsSpace after
    → drop_spaces space_end 0 (reverse (s ++ after)) ≡ reverse s
drop_back s after h ha =
    ap (drop_spaces space_end 0) (reverse-append s after)
    ∙ drop_spaces-padding space_end space_end-IsSpace (reverse after) (reverse s)
        (All-reverse IsSpace after ha)
    ∙ drop_end-graphic (reverse s) (All-reverse IsGraphic s h)

-- White space round visible bytes is dropped.
pub trim-padding :
    (before s after : Text)
    → All IsSpace before
    → All IsGraphic s
    → All IsSpace after
    → trim (before ++ (s ++ after)) ≡ s
unfolding drop_spaces
trim-padding before [] after hb h ha =
    trim_front before after hb
    ∙ ap (λ x. reverse (drop_spaces space_end 0 (reverse x))) (drop_padding after ha)
trim-padding before (c ∷ s) after hb h ha =
    trim_front before (c ∷ (s ++ after)) hb
    ∙ ap (λ x. reverse (drop_spaces space_end 0 (reverse x)))
        (drop_spaces-kept space_len c (s ++ after) (space_len-graphic c (s ++ after) h.0))
    ∙ ap reverse (drop_back (c ∷ s) after h ha)
    ∙ reverse-reverse (c ∷ s)
