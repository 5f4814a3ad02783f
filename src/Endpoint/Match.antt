-- ===== src/Endpoint/Match.antt =====
-- `Endpoint::matches` of src/endpoint.rs: paths are compared up to the query.
use zeromasque.Prelude.{
  ◌≡◌, ◌↔◌, ◌∙◌, sym, ap, [], ◌∷◌, ◌++◌, true, bytes_beq, bytes_beq_sound, bytes_beq_refl,
}
use zeromasque.Text.{Text}
use zeromasque.Text.Split.{Free, split_once_first, split_once-Free'}
use zeromasque.Endpoint.{Endpoint, path_only, matches}

path_only_query : (p q : Text) → Free b'?' p → path_only (p ++ b'?' ∷ q) ≡ p
unfolding path_only
path_only_query p q h = rw (split_once_first b'?' [] p q h)

pub path_only-Free : (p : Text) → Free b'?' p → path_only p ≡ p
unfolding path_only
path_only-Free p h = rw (split_once-Free' b'?' [] p h)

-- `matches` compares the path components alone: a query on the request, or on the configured
-- endpoint, changes nothing, and a path without a query matches exactly the endpoint with that path.
pub matches_ignores_query :
    (e : Endpoint) (p q : Text)
    → Free b'?' p
    → (matches e (p ++ b'?' ∷ q) ≡ matches e p)
      × (matches (record e { path = p ++ b'?' ∷ q }) p ≡ true)
      × ((matches e p ≡ true) ↔ (path_only e.path ≡ p))
unfolding matches
matches_ignores_query e p q h = (
  ap (λ t. bytes_beq t (path_only e.path)) (path_only_query p q h ∙ sym (path_only-Free p h)),
  rw (path_only-Free p h, path_only_query p q h) (bytes_beq_refl p),
  (
    λ t. sym (bytes_beq_sound p (path_only e.path) (rw (← path_only-Free p h) t)),
    λ t. rw (path_only-Free p h, t) (bytes_beq_refl p),
  ),
)
