-- ===== src/Io/Recv/Handled.antt =====
-- The socket and the channel of the receive task of src/io.rs, as queues, and the reads that the task
-- should take.
use zeromasque.Prelude.{
  ℕ, zero, suc, ◌≡◌, List, [], ◌∷◌, ◌++◌, Bool, true, false, any, drop, length, if◌then◌else◌,
}
use zeromasque.Io.Relay.{turn}
use zeromasque.Net.{SocketAddr}
use zeromasque.Io.{Packet}
use zeromasque.Io.Recv.{
  Read, got, would_block, interrupted, failed, Receiver, Ready, readable, not_ready, cancelled,
}

-- What the system does: a read takes the first entry of what is there, and a message goes to the end of
-- the channel where there is room for it. `fits` says of each message to come whether there is.
pub record Queues {W : Type 0} (os : Receiver W) : Type 0 where
  pub inbox : W → List Read
  pub outbox : W → List (Packet × SocketAddr)
  pub fits : W → ℕ → Bool
  pub read_next :
      (w : W) (r : Read) (rs : List Read)
      → inbox w ≡ r ∷ rs
      → ((os.recvmsg w).0 ≡ r) × (inbox (os.recvmsg w).1 ≡ rs)
  pub read_none :
      (w : W) → inbox w ≡ [] → ((os.recvmsg w).0 ≡ would_block) × (inbox (os.recvmsg w).1 ≡ [])
  pub read_only : (w : W) → (outbox (os.recvmsg w).1 ≡ outbox w) × (fits (os.recvmsg w).1 ≡ fits w)
  pub send_only : (p : Packet × SocketAddr) (w : W) → inbox (os.try_send p w) ≡ inbox w
  pub send_fits :
      (p : Packet × SocketAddr) (w : W)
      → (outbox (os.try_send p w) ≡ (if fits w zero then outbox w ++ p ∷ [] else outbox w))
        × (fits (os.try_send p w) ≡ (λ n. fits w (suc n)))

-- The reads behind which a round ends, and those behind which the task does.
abbrev pub stops : Read → Bool
stops (got bytes from gro) = false
stops would_block = true
stops interrupted = false
stops failed = true

abbrev pub fails : Read → Bool
fails (got bytes from gro) = false
fails would_block = false
fails interrupted = false
fails failed = true

-- The reads that a task should take of those that are there: each time that the socket is readable the
-- first 32, up to the first that would block or fails, and no more where that one fails or a wait is
-- cancelled or fails.
abbrev pub handled : List Ready → List Read → List Read
handled [] rs = []
handled (cancelled ∷ es) rs = []
handled (not_ready ∷ es) rs = []
handled (readable ∷ es) rs =
    let taken = turn stops 32 rs in
    let more = handled es (drop (length taken) rs) in
    taken ++ (if any fails taken then [] else more)
