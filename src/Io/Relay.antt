-- ===== src/Io/Relay.antt =====
-- Tasks of src/io.rs and src/server.rs that read a socket and send what they read into a channel: what
-- they should have read and sent.
use zeromasque.Prelude.{
  ℕ, zero, suc, ◌≡◌, refl, sym, ap, ◌∙◌, List, [], ◌∷◌, ◌++◌, Bool, true, false, take,
  if◌then◌else◌, append_assoc, append-nil,
}

module _ {A : Type 0} where
  -- The messages that get through, where `fits` says of each send to come whether there is room for it.
  abbrev pub survivors : (ℕ → Bool) → List A → List A
  survivors fits [] = []
  survivors fits (x ∷ xs) =
      let rest = survivors (λ n. fits (suc n)) xs in if fits zero then x ∷ rest else rest

  -- What `fits` says behind these sends.
  abbrev pub behind : List A → (ℕ → Bool) → ℕ → Bool
  behind [] fits = fits
  behind (x ∷ xs) fits = behind xs (λ n. fits (suc n))

  -- The first `n`, up to the first that stops, which is the last of them.
  abbrev up_to : (A → Bool) → List A → List A
  up_to stops [] = []
  up_to stops (x ∷ xs) = if stops x then x ∷ [] else x ∷ up_to stops xs

  abbrev pub turn : (A → Bool) → ℕ → List A → List A
  turn stops n xs = up_to stops (take n xs)

  pub turn-more :
      (stops : A → Bool) (n : ℕ) (x : A) (xs : List A)
      → stops x ≡ false
      → turn stops (suc n) (x ∷ xs) ≡ x ∷ turn stops n xs
  turn-more stops n x xs e = rw e refl

  pub turn-last :
      (stops : A → Bool) (n : ℕ) (x : A) (xs : List A)
      → stops x ≡ true
      → turn stops (suc n) (x ∷ xs) ≡ x ∷ []
  turn-last stops n x xs e = rw e refl

  one_kept :
      (b : Bool) (xs : List A) (x : A)
      → (if b then xs ++ x ∷ [] else xs) ≡ xs ++ (if b then x ∷ [] else [])
  one_kept true xs x = refl
  one_kept false xs x = sym (append-nil xs)

  kept_or :
      (b : Bool) (x : A) (xs ys : List A)
      → (if b then x ∷ xs else xs) ++ ys ≡ (if b then x ∷ (xs ++ ys) else xs ++ ys)
  kept_or true x xs ys = refl
  kept_or false x xs ys = refl

  pub survivors-append :
      (fits : ℕ → Bool) (xs ys : List A)
      → survivors fits (xs ++ ys) ≡ survivors fits xs ++ survivors (behind xs fits) ys
  survivors-append fits [] ys = refl
  survivors-append fits (x ∷ xs) ys =
      ap (λ t. if fits zero then x ∷ t else t) (survivors-append (λ n. fits (suc n)) xs ys)
      ∙ sym (kept_or (fits zero) x (survivors (λ n. fits (suc n)) xs) _)

  pub behind-append :
      (fits : ℕ → Bool) (xs ys : List A) → behind (xs ++ ys) fits ≡ behind ys (behind xs fits)
  behind-append fits [] ys = refl
  behind-append fits (x ∷ xs) ys = behind-append (λ n. fits (suc n)) xs ys

-- A place that messages are sent to: what has got there, and which of the sends to come get there.
module _ {W M : Type 0} (outbox : W → List M) (fits : W → ℕ → Bool) where
  -- From one state to another: these messages are sent, each once and in order, and those get there for
  -- which there is room.
  abbrev pub Sends : List M → W → W → Type 0
  Sends ms w v = (outbox v ≡ outbox w ++ survivors (fits w) ms) × (fits v ≡ behind ms (fits w))

  pub Sends-none : (w v : W) → outbox v ≡ outbox w → fits v ≡ fits w → Sends [] w v
  Sends-none w v o f = (o ∙ sym (append-nil (outbox w)), f)

  pub Sends-one :
      (m : M) (w v : W)
      → outbox v ≡ (if fits w zero then outbox w ++ m ∷ [] else outbox w)
      → fits v ≡ (λ n. fits w (suc n))
      → Sends (m ∷ []) w v
  Sends-one m w v o f = (o ∙ one_kept (fits w zero) (outbox w) m, f)

  pub Sends-trans :
      (ms ns : List M) (u v w : W) → Sends ms u v → Sends ns v w → Sends (ms ++ ns) u w
  Sends-trans ms ns u v w (o, f) (p, g) = (
    p
        ∙ ap (λ t. t ++ survivors (fits v) ns) o
        ∙ append_assoc (outbox u) (survivors (fits u) ms) (survivors (fits v) ns)
        ∙ ap (λ t. outbox u ++ (survivors (fits u) ms ++ survivors t ns)) f
        ∙ ap (λ t. outbox u ++ t) (sym (survivors-append (fits u) ms ns)),
    g ∙ ap (behind ns) f ∙ sym (behind-append (fits u) ms ns),
  )

-- The messages of some reads.
abbrev pub all_messages : {R M : Type 0} → (R → List M) → List R → List M
all_messages messages [] = []
all_messages messages (r ∷ rs) = messages r ++ all_messages messages rs

pub all_messages-append :
    {R M : Type 0}
    → (messages : R → List M) (xs ys : List R)
    → all_messages messages (xs ++ ys) ≡ all_messages messages xs ++ all_messages messages ys
all_messages-append messages [] ys = refl
all_messages-append messages (x ∷ xs) ys =
    ap (λ t. messages x ++ t) (all_messages-append messages xs ys)
    ∙ sym (append_assoc (messages x) (all_messages messages xs) (all_messages messages ys))

-- What is still to be read, and where the messages of a read are sent.
module _ {W R M : Type 0} (inbox : W → List R) (outbox : W → List M) (fits : W → ℕ → Bool)
    (messages : R → List M) where
  -- From one state to another: exactly these reads are taken, and their messages are sent.
  abbrev pub Relays : List R → W → W → Type 0
  Relays taken w v =
      (inbox w ≡ taken ++ inbox v) × Sends outbox fits (all_messages messages taken) w v

  pub Relays-same :
      (w v : W) → inbox v ≡ inbox w → outbox v ≡ outbox w → fits v ≡ fits w → Relays [] w v
  Relays-same w v i o f = (sym i, Sends-none outbox fits w v o f)

  pub Relays-trans :
      (xs ys : List R) (u v w : W) → Relays xs u v → Relays ys v w → Relays (xs ++ ys) u w
  Relays-trans xs ys u v w (i, s) (j, t) =
      let (o, f) =
        Sends-trans outbox fits (all_messages messages xs) (all_messages messages ys) u v w s t in
      (
        i ∙ ap (λ x. xs ++ x) j ∙ sym (append_assoc xs ys (inbox w)),
        rw (all_messages-append messages xs ys) (o, f),
      )
