-- ===== src/Rules/Lookup.antt =====
-- `match_target` of src/rules.rs decides by the first rule that serves the request.
use zeromasque.Prelude.{
  ◌≡◌, ◌↔◌, refl, List, ◌∷◌, ◌++◌, none, some, true, false, arith, All, find, Bool-cases,
  Option-cases, inl, inr, bytes_beq_sound, bytes_beq_refl, &&-true,
}
use zeromasque.Prelude.Members.{find-IsFirst, IsFirst-find, find-none, find-All-false, All-map}
use zeromasque.Text.{Text}
use zeromasque.Endpoint.{path_only, matches}
use zeromasque.Rules.{Rule, RuleTable, RuleMatch, serves, decision, match_target}

-- A rule is for a request with its authority and, up to the query, its path.
abbrev pub Serves : Text → Text → Rule → Type 0
Serves authority path r =
    (r.endpoint.authority ≡ authority) × (path_only path ≡ path_only r.endpoint.path)

pub serves_sound : (a p : Text) (r : Rule) → serves a p r ≡ true → Serves a p r
unfolding matches
serves_sound a p r h = let (x, y) = &&-true _ _ h in (bytes_beq_sound _ _ x, bytes_beq_sound _ _ y)

pub serves_complete : (a p : Text) (r : Rule) → Serves a p r → serves a p r ≡ true
unfolding matches
serves_complete a p r (e, f) =
    rw (e, f, bytes_beq_refl a) (bytes_beq_refl (path_only r.endpoint.path))

serves-false : (a p : Text) (r : Rule) → serves a p r ≡ false → ¬ Serves a p r
serves-false a p r e s = cc (serves_complete a p r s)

not-Serves-false : (a p : Text) (r : Rule) → ¬ Serves a p r → serves a p r ≡ false
not-Serves-false a p r h = elim (Bool-cases (serves a p r)) [
  | inl e ↦ absurd (h (serves_sound a p r e))
  | inr e ↦ e
]

-- The rule that decides, with the rules in front of it, none of which serves the request.
abbrev pub First : Text → Text → List Rule → Rule → Type 0
First a p rs r =
    (before : List Rule) × (after : List Rule) × (rs ≡ before ++ r ∷ after)
    × All (λ q. ¬ Serves a p q) before
    × Serves a p r

find-First :
    (a p : Text) (rs : List Rule) (r : Rule) → find (serves a p) rs ≡ some r → First a p rs r
find-First a p rs r h =
    let (before, after, split, others, this) = find-IsFirst (serves a p) rs r h in
    (before, after, split, All-map (serves-false a p) before others, serves_sound a p r this)

pub First-find :
    (a p : Text) (rs : List Rule) (r : Rule) → First a p rs r → find (serves a p) rs ≡ some r
First-find a p rs r (before, after, split, others, this) =
    IsFirst-find (serves a p) rs r (
      before,
      after,
      split,
      All-map (not-Serves-false a p) before others,
      serves_complete a p r this,
    )

-- `match_target` answers with the decision of the first rule whose authority is the request's and
-- whose path is the request's up to the query, and with nothing exactly when there is no such rule.
pub match_target_lem :
    (t : RuleTable) (a p : Text)
    → ((m : RuleMatch)
        → (match_target t a p ≡ some m) ↔ ((r : Rule) × First a p t.rules r × (m ≡ decision r)))
      × ((match_target t a p ≡ none) ↔ All (λ r. ¬ Serves a p r) t.rules)
unfolding match_target
match_target_lem t a p = (
  λ m. (
    λ h. elim (Option-cases (find (serves a p) t.rules)) [
      | inl e ↦ absurd (ground (arith, e))
      | inr (r, e) ↦ (r, find-First a p t.rules r e, ground (arith, e))
    ],
    λ w. rw (First-find a p t.rules w.0 w.1, w.2) refl,
  ),
  (
    λ h. All-map (serves-false a p) t.rules (find-none (serves a p) t.rules (ground arith)),
    λ h. rw (find-All-false (serves a p) t.rules (All-map (not-Serves-false a p) t.rules h)) refl,
  ),
)
