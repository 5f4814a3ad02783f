-- ===== src/Ech/Key.antt =====
-- ECH key bundles of src/ech/key.rs: `EchKeyPair`, `EchKeySet`, `parse_pem_bundle`, `encode_pair_pem`.
pub mod RoundTrip
pub mod Files
pub mod Bundles
pub mod Loading
pub mod Order
use zeromasque.Prelude.{
  ℕ, List, [], ◌∷◌, ◌++◌, map, Option, none, some, Bool, true, false, not, ◌&&◌, ◌||◌, ◌==◌, ltb,
  if◌then◌else◌, any, filter, bytes_beq,
}
use zeromasque.Prelude.Maybe as Maybe
use zeromasque.Prelude.Result.{Result, ok, err, ◌>>=◌, ◌>>◌, bail_if, ok_or}
use zeromasque.Text.{Text, codes}
use zeromasque.Text.Utf8.{is_utf8}
use zeromasque.Ech.Reader as Reader
use zeromasque.Ech.Config.{EchConfig, encode, encode_list, decode}
use zeromasque.Ech.Pem.{Base64, PemBlock, PemError, parse_pem_blocks, write_pem_block}

abbrev pub pem_label_key : Text
pem_label_key = codes "ECH PRIVATE KEY"

abbrev pub pem_label_config : Text
pem_label_config = codes "ECH CONFIG"

pub record EchKeyPair : Type 0 where
  pub private_key : List ℕ
  pub config : EchConfig

pub record EchKeySet : Type 0 where
  pub pairs : List EchKeyPair

pub data BundleError : Type 0 where
  bad_pem : PemError → BundleError
  config_first missing_config : BundleError
  unexpected_label expected_config : Text → BundleError
  bad_config : Reader.Error → BundleError

abbrev blocks_of : Result PemError (List PemBlock) → Result BundleError (List PemBlock)
blocks_of (ok bs) = ok bs
blocks_of (err e) = err (bad_pem e)

abbrev config_of : Result Reader.Error EchConfig → Result BundleError EchConfig
config_of (ok c) = ok c
config_of (err e) = err (bad_config e)

abbrev pub expect_key : PemBlock → Result BundleError (Unit {0})
expect_key first =
    if bytes_beq first.label pem_label_key
    then ok tt
    else if bytes_beq first.label pem_label_config
    then err config_first
    else err (unexpected_label first.label)

-- The loop over the blocks.
unfoldable pub pair_blocks : List PemBlock → Result BundleError (List EchKeyPair)
pair_blocks [] = ok []
pair_blocks (first ∷ []) = do expect_key first; err missing_config
pair_blocks (first ∷ second ∷ blocks) = do
  expect_key first
  bail_if (not (bytes_beq second.label pem_label_config)) (expected_config second.label)
  config ← config_of (decode second.body)
  pairs ← pair_blocks blocks
  ok (record { private_key = first.body; config = config } ∷ pairs)

abbrev pub is_nil {ℓ} : {A : Type ℓ} → List A → Bool
is_nil [] = true
is_nil (x ∷ xs) = false

-- What the loading asks of the file system: whether a path is there and is a directory, the names of
-- a directory's entries (`none` for one that cannot be read), whether a path is a file, its bytes.
pub record FileSystem : Type 0 where
  pub is_dir : Text → Option Bool
  pub read_dir : Text → Option (List (Option Text))
  pub join : Text → Text → Text
  pub is_file : Text → Bool
  pub read : Text → Option (List ℕ)

pub data KeyError : Type 0 where
  stat_failed read_dir_failed empty_dir : KeyError
  read_failed no_pairs : Text → KeyError
  bad_bundle : Text → BundleError → KeyError
  duplicate_id : ℕ → KeyError

-- The order of the names of entries, by bytes.
abbrev pub name_leb : Text → Text → Bool
name_leb [] t = true
name_leb (a ∷ s) [] = false
name_leb (a ∷ s) (b ∷ t) = ltb a b || (a == b && name_leb s t)

unfoldable pub insert_name : Text → List Text → List Text
insert_name n [] = n ∷ []
insert_name n (m ∷ ms) = if name_leb n m then n ∷ m ∷ ms else m ∷ insert_name n ms

-- `entries.sort()`
unfoldable pub sort : List Text → List Text
sort [] = []
sort (n ∷ ns) = insert_name n (sort ns)

abbrev pub starts_with_dot : Text → Bool
starts_with_dot [] = false
starts_with_dot (c ∷ s) = c == b'.'

-- `to_str` answers, and the name is not hidden.
abbrev pub is_visible : Text → Bool
is_visible name = is_utf8 name && not (starts_with_dot name)

abbrev pub readable : List (Option Text) → List Text
readable [] = []
readable (none ∷ es) = readable es
readable (some name ∷ es) = name ∷ readable es

unfoldable pub visible_names : List (Option Text) → List Text
visible_names es = filter is_visible (readable es)

abbrev same_id : EchKeyPair → EchKeyPair → Bool
same_id p q = p.config.config_id == q.config.config_id

-- The check for collisions: the first id that two pairs have.
unfoldable pub duplicate : List EchKeyPair → Option ℕ
duplicate [] = none
duplicate (p ∷ ps) = if any (same_id p) ps then some p.config.config_id else duplicate ps

abbrev reject_duplicate : Option ℕ → Result KeyError (Unit {0})
reject_duplicate none = ok tt
reject_duplicate (some id) = err (duplicate_id id)

module _ (base64 : Base64) where
  unfoldable pub parse_pem_bundle : List ℕ → Result BundleError (List EchKeyPair)
  parse_pem_bundle bytes = do blocks ← blocks_of (parse_pem_blocks base64 bytes); pair_blocks blocks

  -- `none` is the panic of `EchConfig::encode`.
  unfoldable pub encode_pair_pem : List ℕ → EchConfig → Option Text
  encode_pair_pem private_key config = Maybe.◌>>=◌ (encode config) λ bytes. some (
      write_pem_block base64 pem_label_key private_key
      ++ write_pem_block base64 pem_label_config bytes)

  abbrev pub bundle_of :
      Text → Result BundleError (List EchKeyPair) → Result KeyError (List EchKeyPair)
  bundle_of origin (ok pairs) = ok pairs
  bundle_of origin (err e) = err (bad_bundle origin e)

  -- The loop over the bundles.
  unfoldable pub all_pairs : List (Text × List ℕ) → Result KeyError (List EchKeyPair)
  all_pairs [] = ok []
  all_pairs ((origin, bytes) ∷ bundles) = do
    file_pairs ← bundle_of origin (parse_pem_bundle bytes)
    bail_if (is_nil file_pairs) (no_pairs origin)
    pairs ← all_pairs bundles
    ok (file_pairs ++ pairs)

  module _ (fs : FileSystem) where
    abbrev pub read_file : Text → Result KeyError (Text × List ℕ)
    read_file path = do bytes ← ok_or (fs.read path) (read_failed path); ok (path, bytes)

    unfoldable pub read_entries : Text → List Text → Result KeyError (List (Text × List ℕ))
    read_entries dir [] = ok []
    read_entries dir (name ∷ names) =
        let more = read_entries dir names in
        if fs.is_file (fs.join dir name)
        then (do bundle ← read_file (fs.join dir name); bundles ← more; ok (bundle ∷ bundles))
        else more

    abbrev pub from_entries : Text → List (Option Text) → Result KeyError (List (Text × List ℕ))
    from_entries path entries = do
      bundles ← read_entries path (sort (visible_names entries))
      bail_if (is_nil bundles) empty_dir
      ok bundles

    abbrev pub dir_bundles : Text → Result KeyError (List (Text × List ℕ))
    dir_bundles path = do
      entries ← ok_or (fs.read_dir path) read_dir_failed
      from_entries path entries

    abbrev pub file_bundles : Text → Result KeyError (List (Text × List ℕ))
    file_bundles path = do bundle ← read_file path; ok (bundle ∷ [])

    -- The files at the path, with their bytes.
    unfoldable pub bundles_at : Text → Result KeyError (List (Text × List ℕ))
    bundles_at path = do
      dir ← ok_or (fs.is_dir path) stat_failed
      if dir then dir_bundles path else file_bundles path

    unfoldable pub load : Text → Result KeyError EchKeySet
    load path = do
      bundles ← bundles_at path
      pairs ← all_pairs bundles
      reject_duplicate (duplicate pairs)
      ok (record { pairs = pairs })

unfoldable pub config_list_bytes : EchKeySet → Option (List ℕ)
config_list_bytes set = encode_list (map (λ p. p.config) set.pairs)
