-- ===== src/Map.antt =====
-- `HashMap` of Rust's std::collections, as a list of entries with distinct keys whose order means
-- nothing: the operations that the program calls.
pub mod Laws
pub mod Distinct
use zeromasque.Prelude.{
  List, [], ◌∷◌, map, Option, none, some, Bool, true, false, not, filter, if◌then◌else◌, Eq,
}

abbrev pub is_some {ℓ} : {A : Type ℓ} → Option A → Bool
is_some none = false
is_some (some a) = true

abbrev pub Map : Type 0 → Type 0 → Type 0
Map K V = List (K × V)

module _ {K V : Type 0} where
  abbrev pub keys : Map K V → List K
  keys = map (λ e. e.0)

  -- `retain`: keeps the entries that pass.
  abbrev pub retain : (K → V → Bool) → Map K V → Map K V
  retain p = filter (λ e. p e.0 e.1)

  -- `values_mut`, with what is done to each value.
  abbrev pub map_values : {U : Type 0} → (V → U) → Map K V → Map K U
  map_values f = map (λ e. (e.0, f e.1))

module _ {K V : Type 0} ⦃key : Eq K⦄ where
  unfoldable pub get : K → Map K V → Option V
  get k [] = none
  get k (e ∷ m) = if key.beq k e.0 then some e.1 else get k m

  abbrev pub contains_key : K → Map K V → Bool
  contains_key k m = is_some (get k m)

  unfoldable pub remove : K → Map K V → Map K V
  remove k m = filter (λ e. not (key.beq k e.0)) m

  unfoldable pub insert : K → V → Map K V → Map K V
  unfolding remove
  insert k v m = (k, v) ∷ remove k m

  -- `get_mut`, with what is done to the value.
  unfoldable pub update : K → (V → V) → Map K V → Map K V
  update k f [] = []
  update k f (e ∷ m) = if key.beq k e.0 then (e.0, f e.1) ∷ m else e ∷ update k f m
