-- ===== src/Io/Connection.antt =====
-- `flush_connection` of src/io.rs: every packet that the connection has, once and in order.
use zeromasque.Prelude.{
  ℕ, zero, suc, ◌<◌, ◌≡◌, refl, List, [], ◌∷◌, ◌++◌, Option, none, some, Bool, arith, length, All,
  inl, append-nil,
}
use zeromasque.Prelude.Result.{Result, ok, err}
use zeromasque.Net.{SocketAddr}
use zeromasque.Io.{
  Packet, SendBatch, SendError, send_batch_size, new, Outcome, done, transport_error, FlushError,
  socket, transport, Step, send_batch, push_outgoing, end_of_round, next_rounds, flush_on,
  flush_loop,
}
use zeromasque.Io.Chunks.{Fits}
use zeromasque.Io.Send.{Socket}
use zeromasque.Io.Flush.{Flushes, flush_loop-Flushes}

-- What `conn.send` answers.
pub data Sending : Type 0 where
  packet : Packet → SocketAddr → Sending
  stopped : Outcome → Sending

module _ {C W : Type 0} (linux : Bool)
    (send_payload : SocketAddr → List ℕ → Option ℕ → W → Result SendError (Unit {0}) × W)
    (send : C → Sending × C) where
  abbrev pub Flushed : Type 0
  Flushed = (Result FlushError (Unit {0}) × W) × C

  abbrev conn_on : Step linux send_payload → C → (W → SendBatch → Option Flushed) → Option Flushed
  conn_on ((ok u, w), b) c f = f w b
  conn_on ((err e, w), b) c f = some ((err (socket e), w), c)

  abbrev stop_flush : Outcome → SendBatch → W → Result FlushError (Unit {0}) × W
  stop_flush done b w =
      flush_on linux send_payload (send_batch linux send_payload b w) (λ w' b'. (ok tt, w'))
  stop_flush transport_error b w = (err transport, w)

  -- One round of the inner loop, with what follows it.
  abbrev on_sending :
      ℕ → SendBatch → W → (C → W → SendBatch → Option Flushed) → Sending × C → Option Flushed
  on_sending rounds b w go (stopped out, c) = some (stop_flush out b w, c)
  on_sending rounds b w go (packet out to, c) =
      conn_on (end_of_round linux send_payload rounds (push_outgoing linux send_payload b out to w))
        c (go c)

  -- The two loops, on fuel: `rounds` is what is left of the inner one.
  unfoldable pub flush_from : ℕ → ℕ → C → SendBatch → W → Option Flushed
  flush_from zero rounds c b w = none
  flush_from (suc fuel) rounds c b w =
      on_sending rounds b w
        (λ c' w' b'. flush_from fuel (next_rounds linux send_payload rounds) c' b' w') (send c)

  unfoldable pub flush_connection : ℕ → C → W → Option Flushed
  unfolding flush_from
  flush_connection fuel c w = flush_from fuel send_batch_size c new w

  -- The connection hands out these packets, in this order, and then stops.
  abbrev pub HandsOut : C → List (Packet × SocketAddr) → Outcome → C → Type 0
  HandsOut c [] out c' = send c ≡ (stopped out, c')
  HandsOut c ((p, to) ∷ outs) out c' =
      (next : C) × (send c ≡ (packet p to, next)) × HandsOut next outs out c'

  abbrev Agrees : Result FlushError (Unit {0}) × W → Option Flushed → Type 0
  Agrees r o = (c : C) × (o ≡ some (r, c))

  conn_on-Agrees :
      (s : Step linux send_payload) (c : C) (f : W → SendBatch → Result FlushError (Unit {0}) × W)
      (g : W → SendBatch → Option Flushed)
      → ((w : W) (b : SendBatch) → Agrees (f w b) (g w b))
      → Agrees (flush_on linux send_payload s f) (conn_on s c g)
  conn_on-Agrees ((ok u, w), b) c f g h = h w b
  conn_on-Agrees ((err e, w), b) c f g h = (c, refl)

  flush_from-Agrees :
      (fuel rounds : ℕ) (outs : List (Packet × SocketAddr)) (out : Outcome) (c c' : C)
      (b : SendBatch) (w : W)
      → HandsOut c outs out c'
      → length outs < fuel
      → Agrees (flush_loop linux send_payload rounds outs out b w) (flush_from fuel rounds c b w)
  unfolding flush_from flush_loop
  flush_from-Agrees zero rounds outs out c c' b w h e = absurd (omega arith)
  flush_from-Agrees (suc fuel) rounds [] done c c' b w h e = rw (flush_from, h) (c', refl)
  flush_from-Agrees (suc fuel) rounds [] transport_error c c' b w h e =
      rw (flush_from, h) (c', refl)
  flush_from-Agrees (suc fuel) rounds ((p, to) ∷ outs) out c c' b w (next, h, rest) e =
      rw (flush_from, h)
        (conn_on-Agrees _ next _ _ (λ w' b'.
          flush_from-Agrees fuel (next_rounds linux send_payload rounds) outs out next c' b' w' rest
            (omega arith)))

module _ {C W : Type 0} (linux : Bool) (s : Socket W) (send : C → Sending × C) where
  -- A flush of a connection that hands out packets of 1 to 65535 bytes ends, where the fuel is more than their
  -- number. If it succeeds, it has delivered all of them, once and in their order, behind what was
  -- delivered before, and the connection had no more to send; if it fails, it has delivered a part of
  -- them from the front.
  pub flush_connection_lem :
      (fuel : ℕ) (outs : List (Packet × SocketAddr)) (out : Outcome) (c c' : C) (w : W)
      → HandsOut linux s.send_payload send c outs out c'
      → All (λ o. Fits (length o.0)) outs
      → length outs < fuel
      → (r : Result FlushError (Unit {0}) × W) × (c'' : C) × (flush_connection linux s.send_payload
            send fuel c w
          ≡ some (r, c''))
        × Flushes linux s out (s.delivered w ++ outs) r
  unfolding flush_connection
  flush_connection_lem fuel outs out c c' w h pos enough =
      let (c'', e) =
        flush_from-Agrees linux s.send_payload send fuel send_batch_size outs out c c' new w h
          enough in
      (
        _,
        c'',
        e,
        flush_loop-Flushes linux s send_batch_size outs out new w (s.delivered w) (inl (refl, refl))
            pos (append-nil _),
      )
