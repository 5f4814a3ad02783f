-- ===== src/Io/Raw/Kernels.antt =====
-- `send_payload` of src/io.rs on a kernel that sends datagrams whole: it is the socket that a flush of
-- batches needs.
use zeromasque.Prelude.{
  ℕ, zero, suc, ◌%◌, ◌^◌, ◌≡◌, ◌==◌, ◌∙◌, refl, ap, ◌++◌, Option, none, some, Bool, true, false,
  arith, length, Bool-cases, inl, inr,
}
use mathlib.Core.Option
use zeromasque.Prelude.Result.{Result, ok, err}
use zeromasque.Net.{SocketAddr}
use zeromasque.Io.{Packet, SendError, gso_unsupported, failed}
use zeromasque.Io.Batch.{Sent, to_all}
use zeromasque.Io.Send.{FitsOption, segments}
use zeromasque.Io.Raw.{
  Kernel, IoError, Answer, wrote, errno, raw_os, is_gso_unsupported, all_of, after_wait,
  after_attempt, by_kind, until_sent, sendmsg_udp, send_payload,
}

-- The kernel, with what has left the socket: a send takes the datagram whole, cut into segments as it was
-- told, or answers an error and takes nothing of it; a wait sends nothing.
pub record SendsWhole {W : Type 0} (k : Kernel W) : Type 0 where
  pub delivered : W → Sent
  pub whole :
      (to : SocketAddr) (p : Packet) (n : Option ℕ) (w : W) (m : ℕ)
      → (k.sendmsg (some to) p n w).0 ≡ wrote m
      → (m ≡ length p)
        × (delivered (k.sendmsg (some to) p n w).1 ≡ delivered w ++ to_all to (segments p n))
  pub refused :
      (to : SocketAddr) (p : Packet) (n : Option ℕ) (w : W) (m : ℕ)
      → (k.sendmsg (some to) p n w).0 ≡ errno m
      → delivered (k.sendmsg (some to) p n w).1 ≡ delivered w
  pub waiting : (w : W) → delivered (k.writable w).1 ≡ delivered w

-- The size is told as it is.
told : (n : Option ℕ) → FitsOption n → Option.map (λ x. x % 2 ^ 16) n ≡ n
told none h = refl
told (some n) h = ap some (omega arith)

-- What a caller tells apart of an error.
abbrev pub kind_of : Bool → SendError
kind_of true = gso_unsupported
kind_of false = failed

abbrev pub classify : {W : Type 0} → Result IoError (Unit {0}) × W → Result SendError (Unit {0}) × W
classify (ok u, w) = (ok tt, w)
classify (err e, w) = (err (kind_of (is_gso_unsupported e)), w)

module _ {W : Type 0} (k : Kernel W) (l : SendsWhole k) (to : SocketAddr) (p : Packet)
    (n : Option ℕ) (fits : FitsOption n) where
  -- How a send may end: the datagram has left, or it has failed and nothing has.
  abbrev pub Sends : Sent → Result IoError (Unit {0}) × W → Type 0
  Sends before (ok u, w) = l.delivered w ≡ before ++ to_all to (segments p n)
  Sends before (err e, w) = l.delivered w ≡ before

  abbrev pub MaySend : Sent → Option (Result IoError (Unit {0}) × W) → Type 0
  MaySend before none = Unit {0}
  MaySend before (some r) = Sends before r

  abbrev Retries : Sent → (W → Option (Result IoError (Unit {0}) × W)) → Type 0
  Retries before again = (v : W) → l.delivered v ≡ before → MaySend before (again v)

  after_wait-MaySend :
      (again : W → Option (Result IoError (Unit {0}) × W)) (r : Result IoError (Unit {0}))
      (before : Sent) (v : W)
      → Retries before again
      → l.delivered v ≡ before
      → MaySend before (after_wait k again (r, v))
  after_wait-MaySend again (ok u) before v h e = h v e
  after_wait-MaySend again (err x) before v h e = e

  by_kind-MaySend :
      (again : W → Option (Result IoError (Unit {0}) × W)) (x : IoError) (b : Bool) (before : Sent)
      (v : W)
      → Retries before again
      → l.delivered v ≡ before
      → MaySend before (by_kind k again x b v)
  by_kind-MaySend again x true before v h e =
      after_wait-MaySend again (k.writable v).0 before (k.writable v).1 h (l.waiting v ∙ e)
  by_kind-MaySend again x false before v h e = e

  all_of_whole : (m : ℕ) → m ≡ length p → all_of (length p) (wrote m) ≡ ok tt
  unfolding all_of
  all_of_whole m e = elim (Bool-cases (m == length p)) [
    | inl all ↦ rw all refl
    | inr short ↦ absurd (ground (arith, e, short))
  ]

  attempt-MaySend :
      (again : W → Option (Result IoError (Unit {0}) × W)) (a : Answer) (before : Sent) (w : W)
      → (k.sendmsg (some to) p n w).0 ≡ a
      → Retries before again
      → l.delivered w ≡ before
      → MaySend before (after_attempt k again (all_of (length p) a, (k.sendmsg (some to) p n w).1))
  unfolding all_of
  attempt-MaySend again (wrote m) before w e h s =
      let (size, out) = l.whole to p n w m e in
      rw (all_of_whole m size) (out ∙ ap (λ t. t ++ to_all to (segments p n)) s)
  attempt-MaySend again (errno m) before w e h s =
      by_kind-MaySend again (raw_os m) (m == 11) before _ h (l.refused to p n w m e ∙ s)

  until_sent-MaySend :
      (fuel : ℕ) (before : Sent) → Retries before (until_sent k (sendmsg_udp k to p n) fuel)
  unfolding until_sent sendmsg_udp
  until_sent-MaySend zero before w s = tt
  until_sent-MaySend (suc fuel) before w s = rw (told n fits) (
      attempt-MaySend (λ v. until_sent k (sendmsg_udp k to p n) fuel v) _ before w refl
        (until_sent-MaySend fuel before) s)

  -- On a kernel that sends datagrams whole, a send of `send_payload` that ends with success has sent the
  -- payload, cut into the segments that were asked for, and one that ends with a failure has sent nothing,
  -- however often it had to wait; the size of the segments has to fit 16 bits.
  pub send_payload_lem : (fuel : ℕ) (w : W) → MaySend (l.delivered w) (send_payload k fuel to p n w)
  unfolding send_payload
  send_payload_lem fuel w = until_sent-MaySend fuel (l.delivered w) w refl
