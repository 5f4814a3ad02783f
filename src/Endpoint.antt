-- ===== src/Endpoint.antt =====
-- src/endpoint.rs: the endpoint URI that the client requests and a rule of the server names.
pub mod Parse
pub mod Match
use zeromasque.Prelude.{ℕ, Bool, List, [], ◌∷◌, Option, none, some, take, drop, bytes_beq}
use zeromasque.Prelude.Result.{Result, ok, err, ◌>>=◌, ◌>>◌, bail_if, ok_or}
use zeromasque.Text.{Text, codes, split_once, find_byte, is_empty}
use mathlib.Core.Option

abbrev path_part : Text → Option (Text × Text) → Text
path_part p none = p
path_part p (some (path, _)) = path

-- What stands before `?`.
unfoldable pub path_only : Text → Text
path_only p = path_part p (split_once (codes "?") p)

pub record Endpoint : Type 0 where
  pub authority : Text
  pub path : Text

-- The texts of the errors are left out.
pub data Error : Type 0 where
  not_absolute no_authority : Error

-- `match after_scheme.find('/')`
abbrev pub split_path : Text → Option ℕ → Text × Text
split_path after_scheme (some idx) = (take idx after_scheme, drop idx after_scheme)
split_path after_scheme none = (after_scheme, codes "/")

unfoldable pub parse : Text → Result Error Endpoint
parse raw = do
  after_scheme ← ok_or (Option.map (λ s. s.1) (split_once (codes "://") raw)) not_absolute
  let parts = split_path after_scheme (find_byte b'/' after_scheme)
  bail_if (is_empty parts.0) no_authority
  ok (record { authority = parts.0; path = parts.1 })

unfoldable pub matches : Endpoint → Text → Bool
unfolding path_only
matches e path = bytes_beq (path_only path) (path_only e.path)
