-- ===== src/Server/Target.antt =====
-- `target_task` of src/server.rs: it owns the socket of a flow and relays payloads both ways.
pub mod Queues
pub mod Relaying
pub mod Sending
pub mod Task
use zeromasque.Prelude.{ℕ, zero, suc, List, [], ◌∷◌, Option, none, some, Bool, true, false}
use zeromasque.Prelude.Result.{Result, ok, err}
use zeromasque.Prelude.Maybe
use zeromasque.Io.Recv.{recv_batch_size}
use zeromasque.Io.Raw.{
  Kernel, IoError, is_would_block, is_interrupted, send_udp_connected, recv_udp_connected,
}
use zeromasque.Server.Session.{Scid}
use zeromasque.Server.Routing.{ToClient}

abbrev pub recv_buf : ℕ
recv_buf = 65535

-- What the task wakes up for: a payload of the client or the end of the flow, and the readiness of the
-- socket, which may fail.
pub data TargetEvent : Type 0 where
  from_client : Option (List ℕ) → TargetEvent
  readable : Result IoError (Unit {0}) → TargetEvent

-- The channel to the main loop: whether it took the message, and whether it is closed.
pub record ToMain (W : Type 0) : Type 0 where
  pub try_send : ToClient → W → Bool × W
  pub is_closed : W → Bool

-- Whether the task goes on behind a turn.
pub data Verdict : Type 0 where
  goes_on returns : Verdict

module _ {W : Type 0} (k : Kernel W) (q : ToMain W) (conn_id : Scid) (flow_id : ℕ) where
  abbrev pub tagged : List ℕ → ToClient
  tagged buf = record { conn_id = conn_id; flow_id = flow_id; payload = buf }

  -- Where the main loop is backed up, the message is dropped, and where it is gone, the task ends;
  -- `rest` are the reads that are left.
  abbrev pub on_full : (W → Verdict × W) → Bool → W → Verdict × W
  on_full rest true w = (returns, w)
  on_full rest false w = rest w

  unfoldable pub after_send : (W → Verdict × W) → Bool × W → Verdict × W
  after_send rest (true, w) = rest w
  after_send rest (false, w) = on_full rest (q.is_closed w) w

  -- Whether the error is `WouldBlock`, and whether it is `Interrupted`.
  abbrev pub after_error : (W → Verdict × W) → Bool → Bool → W → Verdict × W
  after_error rest true interrupted w = (goes_on, w)
  after_error rest false true w = rest w
  after_error rest false false w = (returns, w)

  unfoldable pub after_recv : (W → Verdict × W) → Result IoError (List ℕ) × W → Verdict × W
  after_recv rest (ok buf, w) = after_send rest (q.try_send (tagged buf) w)
  after_recv rest (err e, w) = after_error rest (is_would_block e) (is_interrupted e) w

  unfoldable pub recv_rounds : ℕ → W → Verdict × W
  recv_rounds zero w = (goes_on, w)
  recv_rounds (suc n) w = after_recv (λ v. recv_rounds n v) (recv_udp_connected k recv_buf w)

  abbrev pub go_on : (W → Option W) → Verdict × W → Option W
  go_on rest (goes_on, w) = rest w
  go_on rest (returns, w) = some w

  -- The loop; `none` where a send has used up its fuel. A send that fails is only logged.
  unfoldable pub target_task : ℕ → List TargetEvent → W → Option W
  target_task fuel [] w = some w
  target_task fuel (from_client none ∷ es) w = some w
  target_task fuel (from_client (some payload) ∷ es) w =
      Maybe.◌>>=◌ (send_udp_connected k fuel payload w) λ r. target_task fuel es r.1
  target_task fuel (readable (err e) ∷ es) w = some w
  target_task fuel (readable (ok u) ∷ es) w =
      go_on (λ v. target_task fuel es v) (recv_rounds recv_batch_size w)
