-- ===== src/Ech/Keygen/Pair.antt =====
-- `generate_hpke_x25519_keypair` of src/ech/keygen.rs: the calls of BoringSSL, and the guard that frees
-- the key.
use zeromasque.Prelude.{ℕ, suc, ◌≡◌, refl, ◌∙◌, List, Option, none, some, Bool, true, false, take}
use zeromasque.Prelude.Result.{Result, ok, err}

-- The calls, on the state of the library; `none` is a call that does not answer 1. What the two last
-- ones write are the buffer and the length.
pub record Hpke (W K : Type 0) : Type 0 where
  pub key_new : W → Option K × W
  pub key_generate : K → W → Bool × W
  pub public_key : K → W → Option (List ℕ × ℕ) × W
  pub private_key : K → W → Option (List ℕ × ℕ) × W
  pub key_free : K → W → W

pub data HpkeError : Type 0 where
  new_failed generate_failed public_failed private_failed : HpkeError

module _ {W K : Type 0} (b : Hpke W K) where
  abbrev pub Pair : Type 0
  Pair = Result HpkeError (List ℕ × List ℕ) × W

  abbrev pub after_private : List ℕ × ℕ → Option (List ℕ × ℕ) × W → Pair
  after_private (public, n) (none, w) = (err private_failed, w)
  after_private (public, n) (some (private, m), w) = (ok (take n public, take m private), w)

  abbrev pub after_public : K → Option (List ℕ × ℕ) × W → Pair
  after_public k (none, w) = (err public_failed, w)
  after_public k (some r, w) = after_private r (b.private_key k w)

  abbrev pub after_generate : K → Bool × W → Pair
  after_generate k (false, w) = (err generate_failed, w)
  after_generate k (true, w) = after_public k (b.public_key k w)

  -- The drop of `HpkeKeyGuard`.
  abbrev pub guarded : K → Pair → Pair
  guarded k (r, w) = (r, b.key_free k w)

  abbrev pub after_new : Option K × W → Pair
  after_new (none, w) = (err new_failed, w)
  after_new (some k, w) = guarded k (after_generate k (b.key_generate k w))

  unfoldable pub generate_hpke_x25519_keypair : W → Pair
  generate_hpke_x25519_keypair w = after_new (b.key_new w)

-- The keys that are allocated: a new key is one more, a free one less, and nothing else is.
pub record Allocates {W K : Type 0} (b : Hpke W K) : Type 0 where
  pub live : W → ℕ
  pub new_some : (w : W) (k : K) → (b.key_new w).0 ≡ some k → live (b.key_new w).1 ≡ suc (live w)
  pub new_none : (w : W) → (b.key_new w).0 ≡ none → live (b.key_new w).1 ≡ live w
  pub generates : (k : K) (w : W) → live (b.key_generate k w).1 ≡ live w
  pub publics : (k : K) (w : W) → live (b.public_key k w).1 ≡ live w
  pub privates : (k : K) (w : W) → live (b.private_key k w).1 ≡ live w
  pub frees : (k : K) (w : W) (n : ℕ) → live w ≡ suc n → live (b.key_free k w) ≡ n

module _ {W K : Type 0} (b : Hpke W K) (l : Allocates b) where
  after_private-live :
      (p : List ℕ × ℕ) (o : Option (List ℕ × ℕ)) (w : W)
      → l.live (after_private b p (o, w)).1 ≡ l.live w
  after_private-live p none w = refl
  after_private-live p (some q) w = refl

  after_public-live :
      (k : K) (o : Option (List ℕ × ℕ)) (w : W) → l.live (after_public b k (o, w)).1 ≡ l.live w
  after_public-live k none w = refl
  after_public-live k (some p) w =
      after_private-live p (b.private_key k w).0 (b.private_key k w).1 ∙ l.privates k w

  after_generate-live : (k : K) (o : Bool) (w : W) → l.live (after_generate b k (o, w)).1 ≡ l.live w
  after_generate-live k false w = refl
  after_generate-live k true w =
      after_public-live k (b.public_key k w).0 (b.public_key k w).1 ∙ l.publics k w

  after_new-live :
      (o : Option K) (w : W)
      → (b.key_new w).0 ≡ o
      → l.live (after_new b (o, (b.key_new w).1)).1 ≡ l.live w
  after_new-live none w e = l.new_none w e
  after_new-live (some k) w e =
      let v = (b.key_new w).1 in
      l.frees k _ (l.live w) (
        after_generate-live k (b.key_generate k v).0 (b.key_generate k v).1
        ∙ l.generates k v
        ∙ l.new_some w k e)

  -- On every path, the failing ones too, the key that was allocated has been freed, once.
  pub generate_hpke_x25519_keypair_lem :
      (w : W) → l.live (generate_hpke_x25519_keypair b w).1 ≡ l.live w
  unfolding generate_hpke_x25519_keypair
  generate_hpke_x25519_keypair_lem w = after_new-live (b.key_new w).0 w refl
