-- ===== src/Io/Recv.antt =====
-- Receiving in src/io.rs: `recv_udp_segments` and the task of `spawn_udp_recv`.
pub mod Handled
pub mod Order
use zeromasque.Prelude.{
  ℕ, zero, suc, ◌*◌, List, [], ◌∷◌, ◌++◌, Option, none, some, Bool, true, false, min, max, take,
}
use zeromasque.Net.{SocketAddr}
use zeromasque.Io.{Packet, split_segments}

abbrev pub recv_batch_size : ℕ
recv_batch_size = 32

-- What a read of the socket answers: the bytes that the kernel has, which may be several packets of one
-- size, who sent them and that size. An address of another family is a failure.
pub data Read : Type 0 where
  got : Packet → SocketAddr → Option ℕ → Read
  would_block interrupted failed : Read

-- The buffer of `recv_udp_segments`.
unfoldable pub recv_capacity : ℕ → ℕ
recv_capacity segment_size = max (min (segment_size * recv_batch_size) 65535) segment_size

-- What is done with a read: the bytes that the buffer cannot hold are lost.
unfoldable pub segments_of : ℕ → Read → List (Packet × SocketAddr)
segments_of segment_size (got bytes from gro) =
    split_segments (take (recv_capacity segment_size) bytes) from gro
segments_of segment_size would_block = []
segments_of segment_size interrupted = []
segments_of segment_size failed = []

-- The socket, and the channel that the task sends into: a message is dropped where the channel is full.
pub record Receiver (W : Type 0) : Type 0 where
  pub recvmsg : W → Read × W
  pub try_send : Packet × SocketAddr → W → W

-- How the wait for the socket ends.
pub data Ready : Type 0 where
  readable not_ready cancelled : Ready

module _ {W : Type 0} (os : Receiver W) (buf_size : ℕ) where
  unfoldable pub forward : List (Packet × SocketAddr) → W → W
  forward [] w = w
  forward (p ∷ ps) w = forward ps (os.try_send p w)

  -- What a read leads to, where `rest` are the rounds that are left; whether the task goes on.
  unfoldable pub after_read : (W → Bool × W) → Read → W → Bool × W
  after_read rest (got bytes from gro) w =
      rest (forward (segments_of buf_size (got bytes from gro)) w)
  after_read rest would_block w = (true, w)
  after_read rest interrupted w = rest w
  after_read rest failed w = (false, w)

  -- `for _ in 0..RECV_BATCH`.
  unfoldable pub recv_rounds : ℕ → W → Bool × W
  recv_rounds zero w = (true, w)
  recv_rounds (suc n) w = let r = os.recvmsg w in after_read (λ v. recv_rounds n v) r.0 r.1

  unfoldable pub after_rounds : (W → W) → Bool → W → W
  after_rounds rest true w = rest w
  after_rounds rest false w = w

  -- The loop of the task.
  unfoldable pub recv_task : List Ready → W → W
  recv_task [] w = w
  recv_task (cancelled ∷ rs) w = w
  recv_task (not_ready ∷ rs) w = w
  recv_task (readable ∷ rs) w =
      let r = recv_rounds recv_batch_size w in after_rounds (λ v. recv_task rs v) r.0 r.1
