-- ===== src/Ech/Key/Loading.antt =====
-- `EchKeySet::load` of src/ech/key.rs: what a loaded set holds.
use zeromasque.Prelude.{
  ℕ, ◌≡◌, ◌≢◌, ◌↔◌, inl, inr, refl, List, [], ◌∷◌, ◌++◌, map, none, false, any, arith, Bool-cases,
  Option-cases, ◌==◌,
}
use zeromasque.Prelude.Result.{Result, ok, err, ◌>>=◌, bail_if, ok_or, >>=-eq-ok}
use zeromasque.Prelude.Members.{In, Distinct}
use zeromasque.Text.{Text}
use zeromasque.Ech.Pem.{Base64}
use zeromasque.Ech.Key.Bundles.{FilesAt, bundles_at-FilesAt}
use zeromasque.Ech.Key.{
  EchKeyPair, EchKeySet, BundleError, KeyError, FileSystem, no_pairs, is_nil, duplicate,
  parse_pem_bundle, bundle_of, all_pairs, bundles_at, load, reject_duplicate, empty_dir,
  stat_failed, read_dir_failed, dir_bundles, file_bundles, read_file, read_entries, sort,
  visible_names,
}

abbrev pub ids : List EchKeyPair → List ℕ
ids = map (λ p. p.config.config_id)

not_in-ids :
    (p : EchKeyPair) (ps : List EchKeyPair)
    → any (λ q. p.config.config_id == q.config.config_id) ps ≡ false
    → ¬ In p.config.config_id (ids ps)
not_in-ids p [] h i = i
not_in-ids p (q ∷ ps) h (inl e) = ground (arith, e)
not_in-ids p (q ∷ ps) h (inr i) = not_in-ids p ps (ground arith) i

not_in-any :
    (p : EchKeyPair) (ps : List EchKeyPair)
    → ¬ In p.config.config_id (ids ps)
    → any (λ q. p.config.config_id == q.config.config_id) ps ≡ false
not_in-any p [] h = refl
not_in-any p (q ∷ ps) h = ground (
  arith,
  not_in-any p ps (λ i. h (inr i)),
  λ (e : p.config.config_id ≡ q.config.config_id). h (inl e),
)

duplicate-none : (ps : List EchKeyPair) → (duplicate ps ≡ none) ↔ Distinct (ids ps)
unfolding duplicate
duplicate-none [] = (λ h. tt, λ h. refl)
duplicate-none (p ∷ ps) =
    elim (Bool-cases (any (λ q. p.config.config_id == q.config.config_id) ps)) [
      | inl e ↦ (λ h. absurd (ground (arith, e)), λ d. absurd (cc (e, not_in-any p ps d.0)))
      | inr e ↦ (
        λ h. (not_in-ids p ps e, (duplicate-none ps).0 (ground (arith, e))),
        λ d. rw e ((duplicate-none ps).1 d.1),
      )
    ]

not_nil : (ps : List EchKeyPair) → ps ≢ [] → is_nil ps ≡ false
not_nil [] h = absurd (h refl)
not_nil (p ∷ ps) h = refl

not_nil_of :
    (origin : Text) (ps : List EchKeyPair) {u : Unit {0}}
    → bail_if (is_nil ps) (no_pairs origin) ≡ ok u
    → ps ≢ []
not_nil_of origin [] h = cc
not_nil_of origin (p ∷ ps) h = λ e. cc

no_duplicate :
    (ps : List EchKeyPair) {u : Unit {0}}
    → reject_duplicate (duplicate ps) ≡ ok u
    → duplicate ps ≡ none
no_duplicate ps h = elim (Option-cases (duplicate ps)) [
  | inl e ↦ e
  | inr (id, e) ↦ absurd (ground (arith, e))
]

same_pairs :
    (ps : List EchKeyPair) (set : EchKeySet)
    → ◌≡◌ {A = Result KeyError EchKeySet} (ok (record { pairs = ps })) (ok set)
    → ps ≡ set.pairs
same_pairs ps set h = cc

module _ (base64 : Base64) where
  -- Each file holds pairs, and the pairs are those of the files, in their order.
  abbrev pub Holds : List (Text × List ℕ) → List EchKeyPair → Type 0
  Holds [] pairs = pairs ≡ []
  Holds (f ∷ fs) pairs =
      (first : List EchKeyPair) × (rest : List EchKeyPair) × (parse_pem_bundle base64 f.1
        ≡ ok first)
      × (first ≢ [])
      × Holds fs rest
      × (pairs ≡ first ++ rest)

  bundle_of-ok :
      (origin : Text) (r : Result BundleError (List EchKeyPair)) (ps : List EchKeyPair)
      → bundle_of base64 origin r ≡ ok ps
      → r ≡ ok ps
  bundle_of-ok origin (ok qs) ps h = cc
  bundle_of-ok origin (err e) ps h = cc

  all_pairs-Holds :
      (fs : List (Text × List ℕ)) (pairs : List EchKeyPair)
      → all_pairs base64 fs ≡ ok pairs
      → Holds fs pairs
  unfolding all_pairs
  all_pairs-Holds [] pairs h = ground arith
  all_pairs-Holds ((origin, bytes) ∷ fs) pairs h =
      let (first, e, h1) =
        >>=-eq-ok (bundle_of base64 origin (parse_pem_bundle base64 bytes)) _ h in
      let (_, pass, h2) = >>=-eq-ok (bail_if (is_nil first) (no_pairs origin)) _ h1 in
      let (rest, more, h3) = >>=-eq-ok (all_pairs base64 fs) _ h2 in
      (
        first,
        rest,
        bundle_of-ok origin (parse_pem_bundle base64 bytes) first e,
        not_nil_of origin first pass,
        all_pairs-Holds fs rest more,
        ground (arith, h3),
      )

  Holds-all_pairs :
      (fs : List (Text × List ℕ)) (pairs : List EchKeyPair)
      → Holds fs pairs
      → all_pairs base64 fs ≡ ok pairs
  unfolding all_pairs
  Holds-all_pairs [] pairs h = rw h refl
  Holds-all_pairs ((origin, bytes) ∷ fs) pairs (first, rest, e, some_pair, h, split) =
      rw (e, not_nil first some_pair, Holds-all_pairs fs rest h, split) refl

  Holds-some :
      (fs : List (Text × List ℕ)) (pairs : List EchKeyPair) → fs ≢ [] → Holds fs pairs → pairs ≢ []
  Holds-some [] pairs some_file h = absurd (some_file refl)
  Holds-some (f ∷ fs) pairs some_file ([], rest, e, some_pair, h, split) = absurd (some_pair refl)
  Holds-some (f ∷ fs) pairs some_file (p ∷ first, rest, e, some_pair, h, split) = λ none_left. cc

  module _ (fs : FileSystem) where
    -- What a set that is loaded from a path is.
    abbrev pub Loads : Text → EchKeySet → Type 0
    Loads path set =
        (bundles : List (Text × List ℕ)) × FilesAt base64 fs path bundles
        × Holds bundles set.pairs
        × (set.pairs ≢ [])
        × Distinct (ids set.pairs)

    some_entry :
        (bs bundles : List (Text × List ℕ))
        → (bail_if (is_nil bs) empty_dir >>= λ _. ok bs) ≡ ok bundles
        → bundles ≢ []
    some_entry [] bundles h = cc
    some_entry (b ∷ bs) bundles h = λ e. cc

    dir_bundles-some :
        (path : Text) (bundles : List (Text × List ℕ))
        → dir_bundles base64 fs path ≡ ok bundles
        → bundles ≢ []
    dir_bundles-some path bundles h =
        let (entries, e, h1) = >>=-eq-ok (ok_or (fs.read_dir path) read_dir_failed) _ h in
        let (bs, e', h2) =
          >>=-eq-ok (read_entries base64 fs path (sort (visible_names entries))) _ h1 in
        some_entry bs bundles h2

    file_bundles-some :
        (path : Text) (bundles : List (Text × List ℕ))
        → file_bundles base64 fs path ≡ ok bundles
        → bundles ≢ []
    file_bundles-some path bundles h =
        let (b, e, h1) = >>=-eq-ok (read_file base64 fs path) _ h in λ e'. cc

    bundles_at-some :
        (path : Text) (bundles : List (Text × List ℕ))
        → bundles_at base64 fs path ≡ ok bundles
        → bundles ≢ []
    unfolding bundles_at
    bundles_at-some path bundles h =
        let (dir, e, h1) = >>=-eq-ok (ok_or (fs.is_dir path) stat_failed) _ h in
        elim (Bool-cases dir) [
          | inl d ↦ dir_bundles-some path bundles (ground (arith, d, h1))
          | inr d ↦ file_bundles-some path bundles (ground (arith, d, h1))
        ]

    load-Loads : (path : Text) (set : EchKeySet) → load base64 fs path ≡ ok set → Loads path set
    unfolding load
    load-Loads path set h =
        let (bundles, e, h1) = >>=-eq-ok (bundles_at base64 fs path) _ h in
        let (pairs, e1, h2) = >>=-eq-ok (all_pairs base64 bundles) _ h1 in
        let (_, e2, h3) = >>=-eq-ok (reject_duplicate (duplicate pairs)) _ h2 in
        let holds = all_pairs-Holds bundles pairs e1 in
        rw (← same_pairs pairs set h3) (
          bundles,
          (bundles_at-FilesAt base64 fs path bundles).0 e,
          holds,
          Holds-some bundles pairs (bundles_at-some path bundles e) holds,
          (duplicate-none pairs).0 (no_duplicate pairs e2),
        )

    -- A path loads as a set exactly when it is a file that can be read, or a directory with at least one
    -- file of a shown name, all of which can be read, and each of these files holds pairs, the pairs of
    -- the set are those of the files in the order of the bytes of their names, and no two of them have one
    -- `config_id`. A shown name is a text that does not begin with a dot. So a loaded set is not empty, and
    -- its ids tell its pairs apart.
    pub load_iff-Loads :
        (path : Text) (set : EchKeySet) → (load base64 fs path ≡ ok set) ↔ Loads path set
    unfolding load
    load_iff-Loads path set = (
      load-Loads path set,
      λ h.
          rw
            (
              (bundles_at-FilesAt base64 fs path h.0).1 h.1,
              Holds-all_pairs h.0 set.pairs h.2,
              (duplicate-none set.pairs).1 h.4,
            )
            refl,
    )
