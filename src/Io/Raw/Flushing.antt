-- ===== src/Io/Raw/Flushing.antt =====
-- `flush_connection` of src/io.rs down to the calls of the kernel.
use zeromasque.Prelude.{ℕ, ◌<◌, ◌≡◌, subst, List, ◌++◌, Option, some, Bool, length, All}
use zeromasque.Prelude.Result.{Result, ok, err}
use zeromasque.Net.{SocketAddr}
use zeromasque.Io.{Packet, SendError, Outcome, FlushError}
use zeromasque.Io.Chunks.{Fits}
use zeromasque.Io.Flush.{Flushes}
use zeromasque.Io.Connection.{Sending, HandsOut, flush_connection, flush_connection_lem}
use zeromasque.Io.Batch.{Sent, to_all}
use zeromasque.Io.Send.{Socket, FitsOption, segments}
use zeromasque.Io.Raw.{Kernel, IoError, send_payload}
use zeromasque.Io.Raw.Kernels.{SendsWhole, Sends, MaySend, classify, send_payload_lem}

module _ {W : Type 0} (k : Kernel W) (l : SendsWhole k) (fuel : ℕ) where
  -- Every send ends, with this fuel.
  abbrev pub IsPatient : Type 0
  IsPatient =
      (to : SocketAddr) (p : Packet) (n : Option ℕ) (w : W)
      → (r : Result IoError (Unit {0}) × W) × (send_payload k fuel to p n w ≡ some r)

  pub classified-all :
      (to : SocketAddr) (p : Packet) (n : Option ℕ) (f : FitsOption n) (before : Sent)
      (r : Result IoError (Unit {0}) × W)
      → Sends k l to p n f before r
      → (classify r).0 ≡ ok tt
      → l.delivered (classify r).1 ≡ before ++ to_all to (segments p n)
  classified-all to p n f before (ok u, w) s h = s
  classified-all to p n f before (err e, w) s h = cc

  pub classified-nothing :
      (to : SocketAddr) (p : Packet) (n : Option ℕ) (f : FitsOption n) (before : Sent)
      (r : Result IoError (Unit {0}) × W) (e : SendError)
      → Sends k l to p n f before r
      → (classify r).0 ≡ err e
      → l.delivered (classify r).1 ≡ before
  classified-nothing to p n f before (ok u, w) e s h = cc
  classified-nothing to p n f before (err x, w) e s h = s

  module _ (patient : IsPatient) where
    -- `send_payload`, as its callers see it.
    abbrev pub total_send : SocketAddr → List ℕ → Option ℕ → W → Result SendError (Unit {0}) × W
    total_send to p n w = classify (patient to p n w).0

    pub ended :
        (to : SocketAddr) (p : Packet) (n : Option ℕ) (w : W) (f : FitsOption n)
        → Sends k l to p n f (l.delivered w) (patient to p n w).0
    ended to p n w f =
        subst (MaySend k l to p n f (l.delivered w)) (patient to p n w).1
          (send_payload_lem k l to p n f fuel w)

    -- The kernel as the socket that a flush needs.
    abbrev pub kernel_socket : Socket W
    kernel_socket = record {
      send_payload = total_send;
      delivered = l.delivered;
      sends_all = λ to p n w f h. classified-all to p n f (l.delivered w) _ (ended to p n w f) h;
      or_nothing =
          λ to p n w f e h. classified-nothing to p n f (l.delivered w) _ e (ended to p n w f) h;
    }

    -- On a kernel that sends datagrams whole and on which every send ends, a flush of a connection that
    -- hands out packets of 1 to 65535 bytes ends, where the fuel is more than their number. If it succeeds,
    -- all of them have left the socket, once and in their order, behind what had left it before, with
    -- offload or without; if it fails, a part of them from the front has.
    pub flush_connection-kernel :
        {C : Type 0}
        → (linux : Bool) (send : C → Sending × C) (steps : ℕ) (outs : Sent) (out : Outcome)
          (c c' : C) (w : W)
        → HandsOut linux total_send send c outs out c'
        → All (λ o. Fits (length o.0)) outs
        → length outs < steps
        → (r : Result FlushError (Unit {0}) × W) × (c'' : C) × (flush_connection linux total_send
              send steps c w
            ≡ some (r, c''))
          × Flushes linux kernel_socket out (l.delivered w ++ outs) r
    flush_connection-kernel linux send steps outs out c c' w h sizes enough =
        flush_connection_lem linux kernel_socket send steps outs out c c' w h sizes enough
