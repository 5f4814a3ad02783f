-- ===== src/Io/Raw.antt =====
-- The calls of src/io.rs on a socket: `sendmsg_udp`, `sendmsg_udp_connected`, `send_payload`,
-- `send_udp_connected`, `recv_udp_connected` and what they make of the kernel's answers.
pub mod Waiting
pub mod Kernels
pub mod Flushing
use zeromasque.Prelude.{
  ℕ, zero, suc, ◌*◌, ◌%◌, ◌^◌, List, [], ◌∷◌, Option, none, some, Bool, true, false, ◌||◌, length,
  take, ◌==◌, if◌then◌else◌,
}
use mathlib.Core.Option
use zeromasque.Prelude.Result.{Result, ok, err}
use zeromasque.Net.{SocketAddr}
use zeromasque.Io.{Packet, SendError, gso_unsupported, failed}

-- `std::io::Error`: an error number of Linux, or an error that the code makes.
pub data IoError : Type 0 where
  raw_os : ℕ → IoError
  write_zero : ℕ → ℕ → IoError
  invalid_data : ℕ → IoError

-- `EAGAIN`, `EINTR`.
abbrev pub is_would_block : IoError → Bool
is_would_block (raw_os n) = n == 11
is_would_block (write_zero n m) = false
is_would_block (invalid_data n) = false

abbrev pub is_interrupted : IoError → Bool
is_interrupted (raw_os n) = n == 4
is_interrupted (write_zero n m) = false
is_interrupted (invalid_data n) = false

-- `EINVAL`, `EIO`, `ENOTSUP`.
unfoldable pub is_gso_unsupported : IoError → Bool
is_gso_unsupported (raw_os n) = n == 22 || (n == 5 || n == 95)
is_gso_unsupported (write_zero n m) = false
is_gso_unsupported (invalid_data n) = false

-- The answer of a call of the kernel: a number that is not negative, or the error number.
pub data Answer : Type 0 where
  wrote : ℕ → Answer
  errno : ℕ → Answer

-- The answer of `recvmsg`: the datagram that is there, or the error number.
pub data Reading : Type 0 where
  datagram : List ℕ → Reading
  no_datagram : ℕ → Reading

-- The kernel. A send has an address where the socket is not connected, and where the control message
-- UDP_SEGMENT is there, its segment size.
pub record Kernel (W : Type 0) : Type 0 where
  pub sendmsg : Option SocketAddr → List ℕ → Option ℕ → W → Answer × W
  pub recvmsg : W → Reading × W
  pub writable : W → Result IoError (Unit {0}) × W

-- Both sends: an error, or a number of bytes that has to be all of them.
unfoldable pub all_of : ℕ → Answer → Result IoError (Unit {0})
all_of len (wrote n) = if n == len then ok tt else err (write_zero n len)
all_of len (errno n) = err (raw_os n)

module _ {W : Type 0} (k : Kernel W) where
  -- `segment_size as u16`.
  unfoldable pub sendmsg_udp : SocketAddr → List ℕ → Option ℕ → W → Result IoError (Unit {0}) × W
  sendmsg_udp to payload gso w =
      let r = k.sendmsg (some to) payload (Option.map (λ n. n % 2 ^ 16) gso) w in
      (all_of (length payload) r.0, r.1)

  unfoldable pub sendmsg_udp_connected : List ℕ → W → Result IoError (Unit {0}) × W
  sendmsg_udp_connected payload w =
      let r = k.sendmsg none payload none w in (all_of (length payload) r.0, r.1)

  -- What comes after an attempt, where `again` is the loop; `none` where the fuel is used up.
  abbrev pub after_wait :
      (W → Option (Result IoError (Unit {0}) × W))
      → Result IoError (Unit {0}) × W
      → Option (Result IoError (Unit {0}) × W)
  after_wait again (ok u, w) = again w
  after_wait again (err e, w) = some (err e, w)

  abbrev pub by_kind :
      (W → Option (Result IoError (Unit {0}) × W))
      → IoError
      → Bool
      → W
      → Option (Result IoError (Unit {0}) × W)
  by_kind again e true w = after_wait again (k.writable w)
  by_kind again e false w = some (err e, w)

  abbrev pub after_attempt :
      (W → Option (Result IoError (Unit {0}) × W))
      → Result IoError (Unit {0}) × W
      → Option (Result IoError (Unit {0}) × W)
  after_attempt again (ok u, w) = some (ok tt, w)
  after_attempt again (err e, w) = by_kind again e (is_would_block e) w

  -- The loop of both sends, on fuel.
  unfoldable pub until_sent :
      (W → Result IoError (Unit {0}) × W) → ℕ → W → Option (Result IoError (Unit {0}) × W)
  until_sent attempt zero w = none
  until_sent attempt (suc fuel) w = after_attempt (λ v. until_sent attempt fuel v) (attempt w)

  unfoldable pub send_payload :
      ℕ → SocketAddr → List ℕ → Option ℕ → W → Option (Result IoError (Unit {0}) × W)
  send_payload fuel to payload gso = until_sent (sendmsg_udp to payload gso) fuel

  unfoldable pub send_udp_connected : ℕ → List ℕ → W → Option (Result IoError (Unit {0}) × W)
  send_udp_connected fuel buf = until_sent (sendmsg_udp_connected buf) fuel

  -- A buffer of `buf_size` bytes: what the datagram has beyond them is lost.
  abbrev pub received : ℕ → Reading → Result IoError (List ℕ)
  received buf_size (datagram bytes) = ok (take buf_size bytes)
  received buf_size (no_datagram n) = err (raw_os n)

  unfoldable pub recv_udp_connected : ℕ → W → Result IoError (List ℕ) × W
  recv_udp_connected buf_size w = let r = k.recvmsg w in (received buf_size r.0, r.1)
