-- ===== src/Server/Target/Queues.antt =====
-- The socket and the channel of `target_task` of src/server.rs, as queues, and what the task should read
-- and send.
use zeromasque.Prelude.{
  ℕ, zero, suc, ◌≡◌, List, [], ◌∷◌, ◌++◌, none, some, Bool, true, false, not, ◌||◌, any, take, drop,
  length, ◌==◌, if◌then◌else◌,
}
use zeromasque.Prelude.Result.{ok, err}
use zeromasque.Io.{Packet}
use zeromasque.Io.Relay.{turn}
use zeromasque.Io.Raw.{Kernel, IoError, wrote, errno, Reading, datagram, no_datagram}
use zeromasque.Server.Session.{Scid}
use zeromasque.Server.Routing.{ToClient}
use zeromasque.Server.Target.{ToMain, TargetEvent, from_client, readable, tagged, recv_buf}

-- What the kernel and the channel do: `inbox` are the answers of the reads to come, `outbox` what the
-- main loop has been sent, and `sent` what the target has. Of the messages to come, `fits` says whether
-- the channel has room for them, and of the payloads to come, `lands` whether their send succeeds: a send
-- that would block has not settled this, one that wrote has, and any other error, of the send or of the
-- wait behind it, has. The main loop is there.
pub record TargetQueues {W : Type 0} (k : Kernel W) (q : ToMain W) : Type 0 where
  pub inbox : W → List Reading
  pub outbox : W → List ToClient
  pub fits : W → ℕ → Bool
  pub sent : W → List Packet
  pub lands : W → ℕ → Bool
  pub recv_next :
      (w : W) (r : Reading) (rs : List Reading)
      → inbox w ≡ r ∷ rs
      → ((k.recvmsg w).0 ≡ r) × (inbox (k.recvmsg w).1 ≡ rs)
  pub recv_none :
      (w : W) → inbox w ≡ [] → ((k.recvmsg w).0 ≡ no_datagram 11) × (inbox (k.recvmsg w).1 ≡ [])
  pub recv_only :
      (w : W)
      → (outbox (k.recvmsg w).1 ≡ outbox w)
        × (fits (k.recvmsg w).1 ≡ fits w)
        × (sent (k.recvmsg w).1 ≡ sent w)
        × (lands (k.recvmsg w).1 ≡ lands w)
  pub push_fits :
      (m : ToClient) (w : W)
      → ((q.try_send m w).0 ≡ fits w zero)
        × (outbox (q.try_send m w).1 ≡ (if fits w zero then outbox w ++ m ∷ [] else outbox w))
        × (fits (q.try_send m w).1 ≡ (λ n. fits w (suc n)))
  pub push_only :
      (m : ToClient) (w : W)
      → (inbox (q.try_send m w).1 ≡ inbox w)
        × (sent (q.try_send m w).1 ≡ sent w)
        × (lands (q.try_send m w).1 ≡ lands w)
  pub is_there : (w : W) → q.is_closed w ≡ false
  pub send_wrote :
      (p : Packet) (n : ℕ) (w : W)
      → (k.sendmsg none p none w).0 ≡ wrote n
      → (lands w zero ≡ true)
        × (sent (k.sendmsg none p none w).1 ≡ sent w ++ p ∷ [])
        × (lands (k.sendmsg none p none w).1 ≡ (λ n. lands w (suc n)))
  pub send_blocked :
      (p : Packet) (n : ℕ) (w : W)
      → (k.sendmsg none p none w).0 ≡ errno n
      → (n == 11) ≡ true
      → (sent (k.sendmsg none p none w).1 ≡ sent w) × (lands (k.sendmsg none p none w).1 ≡ lands w)
  pub send_failed :
      (p : Packet) (n : ℕ) (w : W)
      → (k.sendmsg none p none w).0 ≡ errno n
      → (n == 11) ≡ false
      → (lands w zero ≡ false)
        × (sent (k.sendmsg none p none w).1 ≡ sent w)
        × (lands (k.sendmsg none p none w).1 ≡ (λ n. lands w (suc n)))
  pub send_only :
      (p : Packet) (w : W)
      → (inbox (k.sendmsg none p none w).1 ≡ inbox w)
        × (outbox (k.sendmsg none p none w).1 ≡ outbox w)
        × (fits (k.sendmsg none p none w).1 ≡ fits w)
  pub wait_ok :
      (w : W)
      → (k.writable w).0 ≡ ok tt
      → (sent (k.writable w).1 ≡ sent w) × (lands (k.writable w).1 ≡ lands w)
  pub wait_failed :
      (w : W) (e : IoError)
      → (k.writable w).0 ≡ err e
      → (lands w zero ≡ false)
        × (sent (k.writable w).1 ≡ sent w)
        × (lands (k.writable w).1 ≡ (λ n. lands w (suc n)))
  pub wait_only :
      (w : W)
      → (inbox (k.writable w).1 ≡ inbox w)
        × (outbox (k.writable w).1 ≡ outbox w)
        × (fits (k.writable w).1 ≡ fits w)

-- The reads behind which a round ends, `WouldBlock` and every error but `Interrupted`, and those behind
-- which the task does.
abbrev pub stops : Reading → Bool
stops (datagram bytes) = false
stops (no_datagram n) = (n == 11) || not (n == 4)

abbrev pub fails : Reading → Bool
fails (datagram bytes) = false
fails (no_datagram n) = not ((n == 11) || (n == 4))

-- The reads that the task should take of those that are there, and the payloads that it should send: at
-- each time that the socket is readable the first 32 reads, up to the first that stops, and every
-- payload that the client hands in; nothing more behind a read that fails, a failed wait or the end of
-- the flow.
abbrev pub reads_of : List TargetEvent → List Reading → List Reading
reads_of [] rs = []
reads_of (from_client none ∷ es) rs = []
reads_of (from_client (some p) ∷ es) rs = reads_of es rs
reads_of (readable (err e) ∷ es) rs = []
reads_of (readable (ok u) ∷ es) rs =
    let taken = turn stops 32 rs in
    let more = reads_of es (drop (length taken) rs) in
    taken ++ (if any fails taken then [] else more)

abbrev pub payloads_of : List TargetEvent → List Reading → List Packet
payloads_of [] rs = []
payloads_of (from_client none ∷ es) rs = []
payloads_of (from_client (some p) ∷ es) rs = p ∷ payloads_of es rs
payloads_of (readable (err e) ∷ es) rs = []
payloads_of (readable (ok u) ∷ es) rs =
    let taken = turn stops 32 rs in
    let more = payloads_of es (drop (length taken) rs) in if any fails taken then [] else more

-- What the main loop is sent of a read.
abbrev pub messages : {W : Type 0} → Kernel W → ToMain W → Scid → ℕ → Reading → List ToClient
messages k q conn_id flow_id (datagram bytes) =
    tagged k q conn_id flow_id (take recv_buf bytes) ∷ []
messages k q conn_id flow_id (no_datagram n) = []
