-- ===== src/Ech/Key/Bundles.antt =====
-- What `EchKeySet::load` of src/ech/key.rs reads at a path.
use zeromasque.Prelude.{
  ◌≡◌, ◌≢◌, ◌↔◌, ◌⊎◌, inl, inr, refl, sym, ap, ◌∙◌, subst, List, [], ◌∷◌, Option, some, true, false,
  Bool-cases, Option-cases, ℕ,
}
use zeromasque.Prelude.Result.{Result, ok, ◌>>=◌, >>=-eq-ok, bail_if}
use zeromasque.Text.{Text}
use zeromasque.Ech.Pem.{Base64}
use zeromasque.Ech.Key.{
  FileSystem, KeyError, sort, visible_names, bundles_at, read_entries, read_file, empty_dir,
  dir_bundles, file_bundles, is_nil,
}
use zeromasque.Ech.Key.Files.{Listing, listing_lem}

same_bundles :
    {a b : List (Text × List ℕ)}
    → ◌≡◌ {A = Result KeyError (List (Text × List ℕ))} (ok a) (ok b)
    → a ≡ b
same_bundles q = cc

module _ (base64 : Base64) (fs : FileSystem) where
  -- The files among the entries of a directory, with their bytes.
  abbrev pub Reads : Text → List Text → List (Text × List ℕ) → Type 0
  Reads dir [] bundles = bundles ≡ []
  Reads dir (n ∷ ns) bundles =
      ((fs.is_file (fs.join dir n) ≡ true)
        × ((bytes : List ℕ) × (rest : List (Text × List ℕ)) × (fs.read (fs.join dir n) ≡ some bytes)
            × (bundles ≡ (fs.join dir n, bytes) ∷ rest)
            × Reads dir ns rest))
      ⊎ ((fs.is_file (fs.join dir n) ≡ false) × Reads dir ns bundles)

  -- The files at a path, with their bytes: the file that it is; or, of the directory that it is, the files
  -- with shown names, in the order of their names, at least one.
  abbrev pub FilesAt : Text → List (Text × List ℕ) → Type 0
  FilesAt path bundles =
      ((fs.is_dir path ≡ some false)
        × ((bytes : List ℕ) × (fs.read path ≡ some bytes) × (bundles ≡ (path, bytes) ∷ [])))
      ⊎ ((fs.is_dir path ≡ some true)
          × ((entries : List (Option Text)) × (names : List Text) × (fs.read_dir path
                ≡ some entries)
              × Listing entries names
              × Reads path names bundles
              × (bundles ≢ [])))

  read_file-some :
      (path : Text) (bundle : Text × List ℕ)
      → read_file base64 fs path ≡ ok bundle
      → (bytes : List ℕ) × (fs.read path ≡ some bytes) × (bundle ≡ (path, bytes))
  read_file-some path bundle h = elim (Option-cases (fs.read path)) [
    | inl e ↦ cc (rw e at h)
    | inr (bytes, e) ↦ (bytes, e, cc (rw e at h))
  ]

  read_entries-Reads :
      (dir : Text) (names : List Text) (bundles : List (Text × List ℕ))
      → read_entries base64 fs dir names ≡ ok bundles
      → Reads dir names bundles
  unfolding read_entries
  read_entries-Reads dir [] bundles h = cc
  read_entries-Reads dir (n ∷ ns) bundles h = elim (Bool-cases (fs.is_file (fs.join dir n))) [
    | inr e ↦ inr (e, read_entries-Reads dir ns bundles (rw e at h))
    | inl e ↦
        let (bundle, e1, h1) = >>=-eq-ok (read_file base64 fs (fs.join dir n)) _ (rw e at h) in
        let (rest, e2, h2) = >>=-eq-ok (read_entries base64 fs dir ns) _ h1 in
        let (bytes, found, is) = read_file-some (fs.join dir n) bundle e1 in
        inl (
          e,
          (
            bytes,
            rest,
            found,
            sym (same h2) ∙ ap (λ b. b ∷ rest) is,
            read_entries-Reads dir ns rest e2,
          ),
        )
  ]
    where
      same :
          {a b : List (Text × List ℕ)}
          → ◌≡◌ {A = Result KeyError (List (Text × List ℕ))} (ok a) (ok b)
          → a ≡ b
      same q = cc

  Reads-read_entries :
      (dir : Text) (names : List Text) (bundles : List (Text × List ℕ))
      → Reads dir names bundles
      → read_entries base64 fs dir names ≡ ok bundles
  unfolding read_entries
  Reads-read_entries dir [] bundles h = rw h refl
  Reads-read_entries dir (n ∷ ns) bundles (inr (e, h)) = rw e (Reads-read_entries dir ns bundles h)
  Reads-read_entries dir (n ∷ ns) bundles (inl (e, (bytes, rest, found, split, h))) =
      rw (e, found, Reads-read_entries dir ns rest h, split) refl

  file_bundles-FilesAt :
      (path : Text) (bundles : List (Text × List ℕ))
      → file_bundles base64 fs path ≡ ok bundles
      → (bytes : List ℕ) × (fs.read path ≡ some bytes) × (bundles ≡ (path, bytes) ∷ [])
  file_bundles-FilesAt path bundles h =
      let (b, e, h1) = >>=-eq-ok (read_file base64 fs path) _ h in
      let (bytes, found, is) = read_file-some path b e in
      (bytes, found, sym (same_bundles h1) ∙ ap (λ x. x ∷ []) is)

  not_nil : (bundles : List (Text × List ℕ)) → bundles ≢ [] → is_nil bundles ≡ false
  not_nil [] h = absurd (h refl)
  not_nil (b ∷ bs) h = refl

  some_bundle :
      (bs bundles : List (Text × List ℕ))
      → (bail_if (is_nil bs) empty_dir >>= λ _. ok bs) ≡ ok bundles
      → (bs ≡ bundles) × (bundles ≢ [])
  some_bundle [] bundles h = cc
  some_bundle (b ∷ bs) bundles h = (same_bundles h, λ e. cc)

  dir_bundles-FilesAt :
      (path : Text) (bundles : List (Text × List ℕ))
      → dir_bundles base64 fs path ≡ ok bundles
      → (entries : List (Option Text)) × (names : List Text) × (fs.read_dir path ≡ some entries)
        × Listing entries names
        × Reads path names bundles
        × (bundles ≢ [])
  dir_bundles-FilesAt path bundles h = elim (Option-cases (fs.read_dir path)) [
    | inl e ↦ cc (rw e at h)
    | inr (entries, e) ↦
        let names = sort (visible_names entries) in
        let (bs, e2, h2) = >>=-eq-ok (read_entries base64 fs path names) _ (rw e at h) in
        let (is, some_file) = some_bundle bs bundles h2 in
        (
          entries,
          names,
          e,
          (listing_lem entries names).0 refl,
          subst (Reads path names) is (read_entries-Reads path names bs e2),
          some_file,
        )
  ]

  -- What the code reads at a path are its files.
  pub bundles_at-FilesAt :
      (path : Text) (bundles : List (Text × List ℕ))
      → (bundles_at base64 fs path ≡ ok bundles) ↔ FilesAt path bundles
  unfolding bundles_at
  bundles_at-FilesAt path bundles = (
    λ h. elim (Option-cases (fs.is_dir path)) [
      | inl e ↦ cc (rw e at h)
      | inr (true, e) ↦ inr (e, dir_bundles-FilesAt path bundles (rw e at h))
      | inr (false, e) ↦ inl (e, file_bundles-FilesAt path bundles (rw e at h))
    ],
    λ h. elim h [
      | inl (e, (bytes, found, is)) ↦ rw (e, found, is) refl
      | inr (e, (entries, names, found, listing, reads, some_file)) ↦
          rw
            (
              e,
              found,
              ← (listing_lem entries names).1 listing,
              Reads-read_entries path names bundles reads,
              not_nil bundles some_file,
            )
            refl
    ],
  )
