-- ===== src/Examples/Toy.antt =====
-- A scripted transport, system and socket, on which the server and the client run in the examples.
use zeromasque.Prelude.{
  ℕ, suc, ◌+◌, ◌<◌, ◌≡◌, refl, List, [], ◌∷◌, ◌++◌, Option, none, some, Bool, true, false, arith,
  length, ltb, ◌==◌,
}
use zeromasque.Prelude.Result.{Result, ok, err}
use zeromasque.Net.{v4, SocketAddr}
use zeromasque.Text.{codes}
use zeromasque.Rules.{Rule, RuleTable}
use zeromasque.Transport.{Event, Polled, event, no_more, Transport, Drains, queued}
use zeromasque.Server.Bind.{Sockets}
use zeromasque.Server.Session.{System}
use zeromasque.Server.Routing.{PacketHeader, Quic}
use zeromasque.Io.{Packet, SendError}
use zeromasque.Io.Batch.{Sent, to_all}
use zeromasque.Io.Send.{Socket, segments}
use zeromasque.Io.Connection.{Sending, packet, stopped}
use zeromasque.Io.{done}

-- What the connection still has to give, and what it was given.
pub record Conn : Type 0 where
  pub events : List (ℕ × Event)
  pub datagrams : List (List ℕ)
  pub sent : List (List ℕ)
  pub closed : Bool
  pub next_stream : ℕ

abbrev pub idle : Conn
idle = record { events = []; datagrams = []; sent = []; closed = false; next_stream = 0 }

abbrev pub poll : List (ℕ × Event) → Conn → Polled × Unit {0} × Conn
poll [] c = (no_more, tt, c)
poll ((s, e) ∷ es) c = (event s e, tt, record c { events = es })

abbrev pub take_datagram : List (List ℕ) → Conn → Option (List ℕ) × Conn
take_datagram [] c = (none, c)
take_datagram (d ∷ ds) c = (some d, record c { datagrams = ds })

abbrev pub toy : Transport Conn (Unit {0})
toy = record {
  is_established = λ c. true;
  is_in_early_data = λ c. false;
  is_closed = λ c. c.closed;
  timeout = λ c. none;
  on_timeout = λ c. record c { closed = true };
  send_ack_eliciting = λ c. c;
  recv = λ pkt to from c. (true, c);
  with_transport = λ c. (some tt, c);
  poll = λ h c. poll c.events c;
  recv_body = λ s h c. (none, h, c);
  send_response = λ s hs fin h c. (true, h, c);
  send_request = λ hs fin h c. (ok c.next_stream, h, record c { next_stream = c.next_stream + 4 });
  dgram_recv = λ c. take_datagram c.datagrams c;
  dgram_send = λ d c. (queued, record c { sent = c.sent ++ d ∷ [] });
  stream_shutdown = λ s d code c. c;
}

poll_takes :
    (es : List (ℕ × Event)) (c : Conn) (s : ℕ) (e : Event)
    → (poll es c).0 ≡ event s e
    → length (poll es c).2.events < length es
poll_takes [] c s e h = cc
poll_takes (x ∷ es) c s e h = omega arith

datagram_takes :
    (ds : List (List ℕ)) (c : Conn) (d : List ℕ)
    → (take_datagram ds c).0 ≡ some d
    → length (take_datagram ds c).1.datagrams < length ds
datagram_takes [] c d h = cc
datagram_takes (x ∷ ds) c d h = omega arith

pub toy_drains : Drains toy
toy_drains = record {
  events = λ h c. length c.events;
  body_bytes = λ h c. 0;
  datagrams = λ c. length c.datagrams;
  poll_takes = λ h c s e x. poll_takes c.events c s e x;
  recv_body_takes = λ s h c n x y. cc x;
  recv_body_keeps = λ s h c. omega arith;
  send_response_keeps = λ s hs fin h c. omega arith;
  dgram_send_keeps = λ d h c. omega arith;
  dgram_recv_takes = λ c d x. datagram_takes c.datagrams c d x;
}

abbrev pub calm : Sockets ℕ ℕ
calm = record {
  bind_udp = λ a w. (ok w, w);
  new_socket = λ d w. (ok w, w);
  enlarge_udp_buffers = λ s w. w;
  set_option = λ s o n w. (ok tt, w);
  set_reuse_address = λ s w. (ok tt, w);
  bind = λ s a w. (ok tt, w);
  connect = λ s a w. (ok tt, w);
  set_nonblocking = λ s w. (ok tt, w);
  from_std = λ s w. (ok s, w);
}

-- The state of the system is its clock.
abbrev pub system : System ℕ ℕ
system = record {
  now = λ w. w;
  linux = true;
  sockets = calm;
  spawn = λ s id f w. suc w;
  has_room = λ flow_id now q. ltb (length q) 2;
}

abbrev header_of : List ℕ → Option PacketHeader
header_of [] = none
header_of (b ∷ bs) = some (record { is_initial = true; version = 1; scid = []; dcid = b ∷ bs })

abbrev pub sixteen : ℕ → List ℕ
sixteen n = n ∷ 0 ∷ 0 ∷ 0 ∷ 0 ∷ 0 ∷ 0 ∷ 0 ∷ 0 ∷ 0 ∷ 0 ∷ 0 ∷ 0 ∷ 0 ∷ 0 ∷ 0 ∷ []

-- Every connection begins with the same events and datagrams.
abbrev pub quic : Conn → Quic Conn ℕ
quic c = record {
  from_slice = λ pkt n. header_of pkt;
  version_is_supported = λ v. v == 1;
  negotiate_version = λ s d. none;
  random_scid = λ w. (sixteen w, suc w);
  accept = λ id l p w. (some c, w);
  send_udp = λ d a w. w;
  flush = λ c w. (c, w);
}

abbrev pub localhost : ℕ → SocketAddr
localhost p = record { ip = v4 2130706433; port = p }

pub never : {E : SendError} → ◌≡◌ {A = Result SendError (Unit {0})} (ok tt) (err E) → ⊥
never h = cc h

-- A socket that delivers all that it is given; its state is what it has delivered.
abbrev pub perfect : Socket Sent
perfect = record {
  send_payload = λ to p n w. (ok tt, w ++ to_all to (segments p n));
  delivered = λ w. w;
  sends_all = λ to p n w f h. refl;
  or_nothing = λ to p n w f e h. absurd (never h);
}

-- A connection that hands out the packets of a list.
abbrev pub send_from : List (Packet × SocketAddr) → Sending × List (Packet × SocketAddr)
send_from [] = (stopped done, [])
send_from ((p, to) ∷ ps) = (packet p to, ps)

abbrev pub rule : Rule
rule = record {
  endpoint = record { authority = codes "A:1"; path = codes "/p" };
  target = localhost 53;
  transparent = false;
  fwmark = none;
  idle_timeout = some 35;
}

abbrev pub table : RuleTable
table = record { rules = rule ∷ [] }
