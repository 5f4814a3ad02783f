-- ===== src/Examples/Kernels.antt =====
-- Examples of the sends, on a kernel that blocks once between two sends.
use zeromasque.Prelude.{
  ℕ, ◌≡◌, refl, List, [], ◌∷◌, ◌++◌, Option, none, some, Bool, true, false, length, arith,
  nat_beq_refl, ◌%◌, ◌^◌,
}
use mathlib.Core.Option
use zeromasque.Prelude.Result.{Result, ok, err}
use zeromasque.Net.{SocketAddr, v4}
use zeromasque.Io.{Packet, done, FlushError}
use zeromasque.Io.Batch.{Sent, to_all}
use zeromasque.Io.Flush.{Flushes}
use zeromasque.Io.Send.{segments}
use zeromasque.Io.Connection.{Sending, packet, stopped, flush_connection}
use zeromasque.Io.Raw.{
  Kernel, IoError, Answer, wrote, errno, raw_os, Reading, datagram, no_datagram,
  sendmsg_udp_connected, all_of, until_sent, send_payload, sendmsg_udp, after_attempt,
}
use zeromasque.Io.Raw.Kernels.{SendsWhole, MaySend, send_payload_lem}
use zeromasque.Io.Raw.Flushing.{IsPatient, total_send, kernel_socket, flush_connection-kernel}
use zeromasque.Server.Routing.{ToClient}

pub record Net : Type 0 where
  pub blocked : Bool
  pub arriving : List Reading
  pub out : Sent
  pub direct : List Packet
  pub told : List ToClient
  pub room : ℕ

abbrev pub send_on : Option SocketAddr → List ℕ → Option ℕ → Bool → Net → Answer × Net
send_on to p n true w = (errno 11, w)
send_on none p n false w =
    (wrote (length p), record w { blocked = true; direct = w.direct ++ p ∷ [] })
send_on (some to) p n false w =
    (wrote (length p), record w { blocked = true; out = w.out ++ to_all to (segments p n) })

abbrev pub read_on : List Reading → Net → Reading × Net
read_on [] w = (no_datagram 11, record w { arriving = [] })
read_on (r ∷ rs) w = (r, record w { arriving = rs })

abbrev pub kernel : Kernel Net
kernel = record {
  sendmsg = λ to p n w. send_on to p n w.blocked w;
  recvmsg = λ w. read_on w.arriving w;
  writable = λ w. (ok tt, record w { blocked = false });
}

whole :
    (b : Bool) (to : SocketAddr) (p : Packet) (n : Option ℕ) (w : Net) (m : ℕ)
    → (send_on (some to) p n b w).0 ≡ wrote m
    → (m ≡ length p) × ((send_on (some to) p n b w).1.out ≡ w.out ++ to_all to (segments p n))
whole true to p n w m h = cc
whole false to p n w m h = (cc, refl)

refused :
    (b : Bool) (to : SocketAddr) (p : Packet) (n : Option ℕ) (w : Net) (m : ℕ)
    → (send_on (some to) p n b w).0 ≡ errno m
    → (send_on (some to) p n b w).1.out ≡ w.out
refused true to p n w m h = refl
refused false to p n w m h = cc

abbrev whole_sends : SendsWhole kernel
whole_sends = record {
  delivered = λ w. w.out;
  whole = λ to p n w m h. whole w.blocked to p n w m h;
  refused = λ to p n w m h. refused w.blocked to p n w m h;
  waiting = λ w. refl;
}

pub all_sent : (n : ℕ) → all_of n (wrote n) ≡ ok tt
unfolding all_of
all_sent n = rw (nat_beq_refl n) refl

sends_both :
    (b : Bool) (to : SocketAddr) (p : Packet) (n : Option ℕ) (w : Net)
    → (r : Result IoError (Unit {0}) × Net) × (after_attempt kernel
          (λ v. until_sent kernel (sendmsg_udp kernel to p n) 2 v)
          (
            all_of (length p) (send_on (some to) p (Option.map (λ x. x % 2 ^ 16) n) b w).0,
            (send_on (some to) p (Option.map (λ x. x % 2 ^ 16) n) b w).1,
          )
        ≡ some r)
unfolding until_sent sendmsg_udp all_of
sends_both true to p n w = rw (all_sent (length p)) (_, refl)
sends_both false to p n w = rw (all_sent (length p)) (_, refl)

patient : IsPatient kernel whole_sends 3
unfolding send_payload until_sent sendmsg_udp
patient to p n w = sends_both w.blocked to p n w

abbrev peer : SocketAddr
peer = record { ip = v4 1; port = 7 }

abbrev pub idle : Net
idle = record {
  blocked = true;
  arriving = datagram (5 ∷ []) ∷ no_datagram 4 ∷ datagram (6 ∷ []) ∷ [];
  out = [];
  direct = [];
  told = [];
  room = 1;
}

abbrev unblocked : Net
unblocked = record idle { blocked = false }

abbrev gone : Net
gone = record idle { direct = (1 ∷ []) ∷ [] }

sent_now : sendmsg_udp_connected kernel (1 ∷ []) unblocked ≡ (ok tt, gone)
unfolding sendmsg_udp_connected all_of
sent_now = refl

blocked_now : sendmsg_udp_connected kernel (1 ∷ []) idle ≡ (err (raw_os 11), idle)
unfolding sendmsg_udp_connected all_of
blocked_now = refl

send_payload_lem_example :
    MaySend kernel whole_sends peer
      (1 ∷ 2 ∷ 3 ∷ [])
      (some 2)
      (omega arith, omega arith)
      []
      (send_payload kernel 3 peer (1 ∷ 2 ∷ 3 ∷ []) (some 2) idle)
send_payload_lem_example =
    send_payload_lem kernel whole_sends peer (1 ∷ 2 ∷ 3 ∷ []) (some 2) (omega arith, omega arith) 3
      idle

abbrev send_from : List (Packet × SocketAddr) → Sending × List (Packet × SocketAddr)
send_from [] = (stopped done, [])
send_from ((p, to) ∷ ps) = (packet p to, ps)

abbrev outs : List (Packet × SocketAddr)
outs = (1 ∷ 2 ∷ [], peer) ∷ (3 ∷ 4 ∷ [], peer) ∷ (5 ∷ [], peer) ∷ []

flush_connection-kernel_example :
    (r : Result FlushError (Unit {0}) × Net) × (c : List (Packet × SocketAddr)) × (flush_connection
        true
        (total_send kernel whole_sends 3 patient)
        send_from
        4
        outs
        idle
      ≡ some (r, c))
    × Flushes true (kernel_socket kernel whole_sends 3 patient) done outs r
flush_connection-kernel_example =
    flush_connection-kernel kernel whole_sends 3 patient true send_from 4 outs done outs [] idle
      (_, refl, (_, refl, (_, refl, refl)))
      ((omega arith, omega arith), ((omega arith, omega arith), ((omega arith, omega arith), tt)))
      (omega arith)
