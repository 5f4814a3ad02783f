-- ===== src/Endpoint/Parse.antt =====
-- `Endpoint::parse` of src/endpoint.rs: what it accepts, and how it splits it.
use zeromasque.Prelude.{
  ◌≡◌, ◌≢◌, ◌⊎◌, inl, inr, ◌∙◌, refl, sym, ap, [], ◌∷◌, ◌++◌, false, arith, take, take-append-drop,
  take-length-append, drop-length-append, Option-cases,
}
use zeromasque.Prelude.Result.{ok, ◌>>◌, bail_if}
use zeromasque.Text.{Text, codes, split_once, find_byte, is_empty}
use zeromasque.Text.Split.{
  Free, split_once_sound, split_once_first, find_byte-some, find_byte-none, find_byte_first,
  find_byte-Free,
}
use zeromasque.Endpoint.{Endpoint, no_authority, split_path, parse}

-- How `authority` and `path` make up what follows the scheme: the path is the rest from the first
-- `/` on, or `/` where there is none.
abbrev pub Splits : Text → Endpoint → Type 0
Splits rest e =
    Free b'/' e.authority
    × (((tail : Text) × (rest ≡ e.authority ++ b'/' ∷ tail) × (e.path ≡ b'/' ∷ tail))
        ⊎ ((rest ≡ e.authority) × (e.path ≡ b'/' ∷ [])))

split_path-Splits :
    (rest : Text)
    → let parts = split_path rest (find_byte b'/' rest) in
      Splits rest (record { authority = parts.0; path = parts.1 })
split_path-Splits rest = elim (Option-cases (find_byte b'/' rest)) [
  | inl e ↦ rw e (find_byte-none b'/' rest e, inr (refl, refl))
  | inr (i, e) ↦
      let (free, (tail, at)) = find_byte-some b'/' i rest e in
      rw e (free, inl (tail, sym (take-append-drop i rest) ∙ ap (λ t. take i rest ++ t) at, at))
]

-- The last check of `parse`, on the two parts.
finish_inv :
    (a p : Text) (e : Endpoint)
    → (do bail_if (is_empty a) no_authority; ok (record { authority = a; path = p })) ≡ ok e
    → (a ≢ []) × (e ≡ record { authority = a; path = p })
finish_inv [] p e h = cc
finish_inv (c ∷ a) p e h = (λ x. cc, ground arith)

is_empty-false : (a : Text) → a ≢ [] → is_empty a ≡ false
is_empty-false [] h = absurd (h refl)
is_empty-false (c ∷ a) h = refl

-- A parsed endpoint is what the text says: a scheme, `://`, a nonempty authority without `/`, and
-- the path from the first `/` on, which is `/` where the text has none.
pub parse_sound :
    (raw : Text) (e : Endpoint)
    → parse raw ≡ ok e
    → (e.authority ≢ [])
      × ((scheme : Text) × (rest : Text) × (raw ≡ scheme ++ (codes "://" ++ rest)) × Splits rest e)
unfolding parse
parse_sound raw e h = elim (Option-cases (split_once (codes "://") raw)) [
  | inl gone ↦ absurd (ground (arith, gone))
  | inr ((scheme, rest), found) ↦
      let parts = split_path rest (find_byte b'/' rest) in
      let (full, e') = finish_inv parts.0 parts.1 e (rw found at h) in
      rw e' (
        full,
        (
          scheme,
          rest,
          split_once_sound (codes "://") raw scheme rest found,
          split_path-Splits rest,
        ),
      )
]

-- A text is accepted with these parts where it is a scheme without `:`, which may be any and also empty,
-- `://`, a nonempty authority without `/`, and nothing more or a path that begins with `/`.
pub parse_complete :
    (scheme authority tail : Text)
    → Free b':' scheme
    → authority ≢ []
    → Free b'/' authority
    → (parse (scheme ++ (codes "://" ++ (authority ++ b'/' ∷ tail)))
        ≡ ok (record { authority = authority; path = b'/' ∷ tail }))
      × (parse (scheme ++ (codes "://" ++ authority))
          ≡ ok (record { authority = authority; path = b'/' ∷ [] }))
unfolding parse
parse_complete scheme authority tail hs ha hf = (
  rw (
    split_once_first b':' (codes "//") scheme (authority ++ b'/' ∷ tail) hs,
    find_byte_first b'/' authority tail hf,
    take-length-append authority (b'/' ∷ tail),
    drop-length-append authority (b'/' ∷ tail),
    is_empty-false authority ha,
  ),
  rw (
    split_once_first b':' (codes "//") scheme authority hs,
    find_byte-Free b'/' authority hf,
    is_empty-false authority ha,
  ),
)
