-- ===== src/Io/Batch.antt =====
-- The batch of src/io.rs: segments of one size to one address, the last of which may be shorter.
use zeromasque.Prelude.{
  ℕ, ◌≤◌, ◌<◌, ◌≡◌, ◌⊎◌, ◌∙◌, refl, ap, List, [], ◌∷◌, ◌++◌, map, Option, none, some, true, false,
  arith, length, All, last?, Bool-cases, inl, inr, if◌then◌else◌,
}
use mathlib.Core.List.{map-append}
use zeromasque.Net.{SocketAddr, addr_beq_sound}
use zeromasque.Io.{
  Packet, SendBatch, push_first, try_push, compatible, is_to, no_packets, shorter_than,
  ends_with_short_segment,
}
use zeromasque.Io.Chunks.{Fits, IsSegmented}

abbrev pub Sent : Type 0
Sent = List (Packet × SocketAddr)

abbrev pub to_all : SocketAddr → List Packet → Sent
to_all a = map (λ p. (p, a))

-- What a batch still owes, in order.
abbrev pub owed : Option SocketAddr → List Packet → Sent
owed none ps = []
owed (some a) ps = to_all a ps

abbrev pub pending : SendBatch → Sent
pending b = owed b.to b.packets

-- An empty batch, or one of nonempty packets to one address whose sizes are as `P` says.
abbrev Holds : (ℕ → List Packet → Type 0) → SendBatch → Type 0
Holds P b =
    ((b.to ≡ none) × (b.packets ≡ []))
    ⊎ ((a : SocketAddr) × (p : Packet) × (ps : List Packet) × (b.to ≡ some a)
        × (b.packets ≡ p ∷ ps)
        × Fits b.segment_size
        × P b.segment_size (p ∷ ps))

-- May be sent in one call.
abbrev pub IsBatch : SendBatch → Type 0
IsBatch = Holds IsSegmented

-- May also take another packet: no segment is short yet.
abbrev pub IsOpen : SendBatch → Type 0
IsOpen = Holds (λ n. All (λ p. length p ≡ n))

equal-IsSegmented_snoc :
    (n : ℕ) (ps : List Packet) (q : Packet)
    → All (λ p. length p ≡ n) ps
    → 0 < length q
    → length q ≤ n
    → IsSegmented n (ps ++ q ∷ [])
equal-IsSegmented_snoc n [] q h pos small = (pos, small)
equal-IsSegmented_snoc n (p ∷ []) q h pos small = (h.0, (pos, small))
equal-IsSegmented_snoc n (p ∷ r ∷ ps) q h pos small =
    (h.0, equal-IsSegmented_snoc n (r ∷ ps) q h.1 pos small)

IsSegmented-equal :
    (n : ℕ) (p : Packet) (ps : List Packet)
    → IsSegmented n (p ∷ ps)
    → shorter_than n (last? (p ∷ ps)) ≡ false
    → All (λ q. length q ≡ n) (p ∷ ps)
IsSegmented-equal n p [] h long = (ground arith, tt)
IsSegmented-equal n p (q ∷ ps) h long = (h.0, IsSegmented-equal n q ps h.1 long)

-- A batch that does not end in a short segment is open.
pub IsBatch-IsOpen : (b : SendBatch) → IsBatch b → ends_with_short_segment b ≡ false → IsOpen b
unfolding ends_with_short_segment
IsBatch-IsOpen b (inl e) h = inl e
IsBatch-IsOpen b (inr (a, p, ps, to, packets, pos, sizes)) h =
    inr (a, p, ps, to, packets, pos, IsSegmented-equal _ p ps sizes (rw packets at h))

equal-IsSegmented :
    (n : ℕ) (p : Packet) (ps : List Packet)
    → 0 < n
    → All (λ q. length q ≡ n) (p ∷ ps)
    → IsSegmented n (p ∷ ps)
equal-IsSegmented n p [] pos h = (omega arith, omega arith)
equal-IsSegmented n p (q ∷ ps) pos h = (h.0, equal-IsSegmented n q ps pos h.1)

pub IsOpen-IsBatch : (b : SendBatch) → IsOpen b → IsBatch b
IsOpen-IsBatch b (inl e) = inl e
IsOpen-IsBatch b (inr (a, p, ps, to, packets, pos, sizes)) =
    inr (a, p, ps, to, packets, pos, equal-IsSegmented _ p ps pos.0 sizes)

-- The first packet of a batch.
pub push_first_lem :
    (b : SendBatch) (packet : Packet) (to : SocketAddr)
    → b.packets ≡ []
    → Fits (length packet)
    → IsBatch (push_first b packet to) × (pending (push_first b packet to) ≡ (packet, to) ∷ [])
unfolding push_first
push_first_lem b packet to e pos =
    (inr (to, packet, [], refl, rw e refl, pos, (pos.0, omega arith)), rw e refl)

push_first-empty :
    (b : SendBatch) (packet : Packet) (to : SocketAddr)
    → b.packets ≡ []
    → try_push b packet to ≡ (push_first b packet to, none)
unfolding try_push
push_first-empty b packet to e = rw e refl

abbrev added : SendBatch → Packet → SendBatch
added b packet = record b { packets = b.packets ++ packet ∷ [] }

try_push-nonempty :
    (b : SendBatch) (packet : Packet) (to : SocketAddr) (p : Packet) (ps : List Packet)
    → b.packets ≡ p ∷ ps
    → try_push b packet to
      ≡ (if compatible b packet to then (added b packet, none) else (b, some packet))
unfolding try_push
try_push-nonempty b packet to p ps e =
    let full : no_packets b.packets ≡ false = ap no_packets e in rw full refl

same_address : (o : Option SocketAddr) (a : SocketAddr) → is_to o a ≡ true → o ≡ some a
same_address none a h = cc
same_address (some b) a h = ap some (addr_beq_sound b a h)

-- A compatible packet joins the batch behind the others.
added_lem :
    (b : SendBatch) (packet : Packet) (to a : SocketAddr) (p : Packet) (ps : List Packet)
    → b.to ≡ some a
    → b.packets ≡ p ∷ ps
    → Fits b.segment_size
    → All (λ q. length q ≡ b.segment_size) (p ∷ ps)
    → Fits (length packet)
    → compatible b packet to ≡ true
    → IsBatch (added b packet) × (pending (added b packet) ≡ pending b ++ (packet, to) ∷ [])
added_lem b packet to a p ps eto packets big sizes pos fits = (
  inr (
    a,
    p,
    ps ++ packet ∷ [],
    eto,
    ap (λ t. t ++ packet ∷ []) packets,
    big,
    equal-IsSegmented_snoc b.segment_size (p ∷ ps) packet sizes pos.0 (ground (arith, fits)),
  ),
  rw here (map-append (λ q. (q, to)) b.packets (packet ∷ [])),
)
  where
    here : b.to ≡ some to
    here = same_address b.to to (ground (arith, fits))

-- An open batch takes a packet behind the others, or hands it back and stays as it was.
pub try_push_lem :
    (b : SendBatch) (packet : Packet) (to : SocketAddr)
    → IsOpen b
    → Fits (length packet)
    → ((b' : SendBatch) × (try_push b packet to ≡ (b', none))
        × IsBatch b'
        × (pending b' ≡ pending b ++ (packet, to) ∷ []))
      ⊎ (try_push b packet to ≡ (b, some packet))
try_push_lem b packet to (inl (e, f)) pos =
    let (batch, owes) = push_first_lem b packet to f pos in
    inl (push_first b packet to, push_first-empty b packet to f, batch, owes ∙ rw e refl)
try_push_lem b packet to (inr (a, p, ps, eto, packets, big, sizes)) pos =
    elim (Bool-cases (compatible b packet to)) [
      | inr e ↦ inr (try_push-nonempty b packet to p ps packets ∙ rw e refl)
      | inl e ↦
          let (batch, owes) = added_lem b packet to a p ps eto packets big sizes pos e in
          inl (added b packet, try_push-nonempty b packet to p ps packets ∙ rw e refl, batch, owes)
    ]
