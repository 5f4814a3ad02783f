-- ===== src/Io.antt =====
-- src/io.rs: batches of outgoing packets for segmentation offload, the flush of a connection, and
-- the splitting of a coalesced read. The system calls are parameters.
pub mod Batch
pub mod Chunks
pub mod Flush
pub mod Connection
pub mod Send
pub mod Relay
pub mod Raw
pub mod Recv
use zeromasque.Prelude.{
  ℕ, zero, suc, ◌+◌, ◌-◌, List, [], ◌∷◌, ◌++◌, map, Option, none, some, Bool, true, false, not,
  ◌&&◌, ◌||◌, length, take, drop, last?, ltb, leb, ◌==◌, if◌then◌else◌,
}
use zeromasque.Prelude.Result.{Result, ok, err}
use zeromasque.Net.{SocketAddr, addr_beq}

abbrev pub Packet : Type 0
Packet = List ℕ

abbrev pub send_batch_size : ℕ
send_batch_size = 32

pub record SendBatch : Type 0 where
  pub to : Option SocketAddr
  pub segment_size : ℕ
  pub packets : List Packet

abbrev pub new : SendBatch
new = record { to = none; segment_size = 0; packets = [] }

abbrev pub no_packets : List Packet → Bool
no_packets [] = true
no_packets (p ∷ ps) = false

unfoldable pub push_first : SendBatch → Packet → SocketAddr → SendBatch
push_first b packet to = record {
  to = some to;
  segment_size = length packet;
  packets = b.packets ++ packet ∷ [];
}

abbrev pub is_to : Option SocketAddr → SocketAddr → Bool
is_to none a = false
is_to (some b) a = addr_beq b a

abbrev pub compatible : SendBatch → Packet → SocketAddr → Bool
compatible b packet to =
    is_to b.to to
    && (leb (length packet) b.segment_size
        && (length packet == b.segment_size || ltb (length b.packets) send_batch_size))

-- The packet comes back where it does not fit the batch.
unfoldable pub try_push : SendBatch → Packet → SocketAddr → SendBatch × Option Packet
unfolding push_first
try_push b packet to =
    if no_packets b.packets
    then (push_first b packet to, none)
    else if compatible b packet to
    then (record b { packets = b.packets ++ packet ∷ [] }, none)
    else (b, some packet)

abbrev pub shorter_than : ℕ → Option Packet → Bool
shorter_than n none = false
shorter_than n (some p) = ltb (length p) n

unfoldable pub ends_with_short_segment : SendBatch → Bool
ends_with_short_segment b = shorter_than b.segment_size (last? b.packets)

-- What `take` gives, and the batch that it leaves.
unfoldable pub take_batch : SendBatch → Option (SocketAddr × ℕ × List Packet) × SendBatch
take_batch b = elim b.to [
  | none ↦ (none, b)
  | some to ↦
      (some (to, b.segment_size, b.packets), record { to = none; segment_size = 0; packets = [] })
]

unfoldable pub concat : List Packet → List ℕ
concat [] = []
concat (p ∷ ps) = p ++ concat ps

-- `buf.chunks(n)` for a positive `n`, on fuel: each chunk takes a byte at least.
unfoldable pub chunks_from : ℕ → ℕ → List ℕ → List Packet
chunks_from fuel n [] = []
chunks_from zero n (x ∷ xs) = []
chunks_from (suc fuel) n (x ∷ xs) = take n (x ∷ xs) ∷ chunks_from fuel n (drop n (x ∷ xs))

unfoldable pub chunks : ℕ → List ℕ → List Packet
unfolding chunks_from
chunks n xs = chunks_from (length xs) n xs

-- The end of `recv_udp_segments`: a read of `buf` from `from`, with the segment size that the kernel
-- reports for coalesced packets.
unfoldable pub split_segments : List ℕ → SocketAddr → Option ℕ → List (Packet × SocketAddr)
split_segments buf from none = (buf, from) ∷ []
split_segments buf from (some gro_size) =
    if ltb 0 gro_size && ltb gro_size (length buf)
    then map (λ p. (p, from)) (chunks gro_size buf)
    else (buf, from) ∷ []

-- Failures of a send: the ones that `is_gso_unsupported` takes for missing offload, and the others.
pub data SendError : Type 0 where
  gso_unsupported failed : SendError

-- What `conn.send` says after its last packet.
pub data Outcome : Type 0 where
  done transport_error : Outcome

pub data FlushError : Type 0 where
  socket : SendError → FlushError
  transport : FlushError

-- `send_payload` waits until the socket takes the payload or fails: what it does is the system's.
-- `linux` is `cfg!(target_os = "linux")`.
module _ {W : Type 0} (linux : Bool)
    (send_payload : SocketAddr → List ℕ → Option ℕ → W → Result SendError (Unit {0}) × W) where
  abbrev pub and_then :
      Result SendError (Unit {0}) × W
      → (W → Result SendError (Unit {0}) × W)
      → Result SendError (Unit {0}) × W
  and_then (ok u, w) f = f w
  and_then (err e, w) f = (err e, w)

  unfoldable pub send_each : SocketAddr → List Packet → W → Result SendError (Unit {0}) × W
  send_each to [] w = (ok tt, w)
  send_each to (p ∷ ps) w = and_then (send_payload to p none w) (send_each to ps)

  abbrev pub or_each :
      Bool
      → SocketAddr
      → List Packet
      → Result SendError (Unit {0}) × W
      → Result SendError (Unit {0}) × W
  or_each true to packets (err gso_unsupported, w) = send_each to packets w
  or_each true to packets (err failed, w) = (err failed, w)
  or_each true to packets (ok u, w) = (ok u, w)
  or_each false to packets r = r

  unfoldable pub send_packets : SocketAddr → ℕ → List Packet → W → Result SendError (Unit {0}) × W
  send_packets to segment_size packets w =
      let use_gso = linux && ltb 1 (length packets) in
      if not use_gso && ltb 1 (length packets)
      then send_each to packets w
      else or_each use_gso to packets
          (send_payload to (concat packets) (if use_gso then some segment_size else none) w)

  -- `send_batch`: the batch is empty afterwards.
  abbrev pub send_taken :
      Option (SocketAddr × ℕ × List Packet) → W → Result SendError (Unit {0}) × W
  send_taken none w = (ok tt, w)
  send_taken (some (to, segment_size, packets)) w = send_packets to segment_size packets w

  unfoldable pub send_batch : SendBatch → W → (Result SendError (Unit {0}) × W) × SendBatch
  send_batch b w = (send_taken (take_batch b).0 w, (take_batch b).1)

  unfoldable pub send_udp : Packet → SocketAddr → W → Result SendError (Unit {0}) × W
  unfolding push_first send_batch take_batch
  send_udp buf to w = (send_batch (push_first new buf to) w).0

  -- A step of the flush: a failure ends it, with the batch as it is then.
  abbrev pub Step : Type 0
  Step = (Result SendError (Unit {0}) × W) × SendBatch

  abbrev pub step_then : Step → (W → SendBatch → Step) → Step
  step_then ((ok u, w), b) f = f w b
  step_then ((err e, w), b) f = ((err e, w), b)

  abbrev pub after_push : SendBatch × Option Packet → SocketAddr → W → Step
  after_push (b, none) to w = ((ok tt, w), b)
  after_push (b, some pending) to w =
      step_then (send_batch b w) (λ w' b'. ((ok tt, w'), push_first b' pending to))

  -- The `Ok` arm of the loop in `flush_connection`.
  unfoldable pub push_outgoing : SendBatch → Packet → SocketAddr → W → Step
  push_outgoing b packet to w =
      step_then (after_push (try_push b packet to) to w)
        (λ w' b'. if ends_with_short_segment b' then send_batch b' w' else ((ok tt, w'), b'))

  -- `rounds` is what is left of the inner loop; at its end the batch is sent and the loop restarts.
  abbrev pub end_of_round : ℕ → Step → Step
  end_of_round rounds s =
      step_then s (λ w b. if rounds == 1 then send_batch b w else ((ok tt, w), b))

  abbrev pub next_rounds : ℕ → ℕ
  next_rounds rounds = if rounds == 1 then send_batch_size else rounds - 1

  abbrev pub flush_on :
      Step → (W → SendBatch → Result FlushError (Unit {0}) × W) → Result FlushError (Unit {0}) × W
  flush_on ((ok u, w), b) f = f w b
  flush_on ((err e, w), b) f = (err (socket e), w)

  -- What the flush does with the packets `outs` that a connection hands out until it stops.
  unfoldable pub flush_loop :
      ℕ → List (Packet × SocketAddr) → Outcome → SendBatch → W → Result FlushError (Unit {0}) × W
  flush_loop rounds [] done b w = flush_on (send_batch b w) (λ w' b'. (ok tt, w'))
  flush_loop rounds [] transport_error b w = (err transport, w)
  flush_loop rounds ((packet, to) ∷ outs) out b w =
      flush_on (end_of_round rounds (push_outgoing b packet to w))
        (λ w' b'. flush_loop (next_rounds rounds) outs out b' w')
