-- ===== src/Transport.antt =====
-- The QUIC connection and its HTTP/3 layer as src/server.rs and src/client.rs call them. Both are the
-- quiche crate's: the operations are fields of a record, and `C` and `H` are their states.
use zeromasque.Prelude.{ℕ, ◌<◌, ◌≤◌, ◌≡◌, ◌⊎◌, inl, inr, refl, List, Option, some, Bool}
use zeromasque.Prelude.Result.{Result}
use zeromasque.Net.{SocketAddr}

pub record Header : Type 0 where
  pub name : List ℕ
  pub value : List ℕ

pub data Event : Type 0 where
  headers : List Header → Event
  body finished reset other : Event

-- What `poll` answers: an event of a stream, or that there is none (`Error::Done` or a failure).
pub data Polled : Type 0 where
  event : ℕ → Event → Polled
  no_more : Polled

pub Polled-cases : (p : Polled) → (p ≡ no_more) ⊎ ((s : ℕ) × (e : Event) × (p ≡ event s e))
Polled-cases no_more = inl refl
Polled-cases (event s e) = inr (s, e, refl)

pub data RequestError : Type 0 where
  stream_blocked stream_limit request_failed : RequestError

-- What `dgram_send` answers: all that the callers do with it is to log it.
pub data Queued : Type 0 where
  queued queue_full too_short not_sent : Queued

pub data Direction : Type 0 where
  read write : Direction

pub record Transport (C H : Type 0) : Type 0 where
  pub is_established : C → Bool
  pub is_in_early_data : C → Bool
  pub is_closed : C → Bool
  pub timeout : C → Option ℕ
  pub on_timeout : C → C
  pub send_ack_eliciting : C → C
  -- The packet, the local address and the peer's; whether it was processed.
  pub recv : List ℕ → SocketAddr → SocketAddr → C → Bool × C
  -- `h3::Connection::with_transport`: nothing where it fails.
  pub with_transport : C → Option H × C
  pub poll : H → C → Polled × H × C
  pub recv_body : ℕ → H → C → Option ℕ × H × C
  -- The stream, the headers and `fin`; whether it was sent.
  pub send_response : ℕ → List Header → Bool → H → C → Bool × H × C
  pub send_request : List Header → Bool → H → C → Result RequestError ℕ × H × C
  pub dgram_recv : C → Option (List ℕ) × C
  pub dgram_send : List ℕ → C → Queued × C
  pub stream_shutdown : ℕ → Direction → ℕ → C → C

-- Between two packets a connection has finitely many events, body bytes and datagrams to give, and
-- what is sent meanwhile adds none.
pub record Drains {C H : Type 0} (t : Transport C H) : Type 0 where
  pub events : H → C → ℕ
  pub body_bytes : H → C → ℕ
  pub datagrams : C → ℕ
  pub poll_takes :
      (h : H) (c : C) (stream : ℕ) (e : Event)
      → (t.poll h c).0 ≡ event stream e
      → events (t.poll h c).1 (t.poll h c).2 < events h c
  pub recv_body_takes :
      (stream : ℕ) (h : H) (c : C) (n : ℕ)
      → (t.recv_body stream h c).0 ≡ some n
      → 0 < n
      → body_bytes (t.recv_body stream h c).1 (t.recv_body stream h c).2 < body_bytes h c
  pub recv_body_keeps :
      (stream : ℕ) (h : H) (c : C)
      → events (t.recv_body stream h c).1 (t.recv_body stream h c).2 ≤ events h c
  pub send_response_keeps :
      (stream : ℕ) (hs : List Header) (fin : Bool) (h : H) (c : C)
      → events (t.send_response stream hs fin h c).1 (t.send_response stream hs fin h c).2
        ≤ events h c
  pub dgram_send_keeps : (d : List ℕ) (h : H) (c : C) → events h (t.dgram_send d c).1 ≤ events h c
  pub dgram_recv_takes :
      (c : C) (d : List ℕ)
      → (t.dgram_recv c).0 ≡ some d
      → datagrams (t.dgram_recv c).1 < datagrams c
