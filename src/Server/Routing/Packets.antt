-- ===== src/Server/Routing/Packets.antt =====
-- `on_packet` of src/server.rs ends without a panic, and the routes stay good.
use zeromasque.Prelude.{
  ℕ, ◌≡◌, refl, List, Option, none, some, Bool, true, false, Bool-cases, inl, inr, bytes_eq,
}
use zeromasque.Prelude.Result.{Result, ok}
use zeromasque.Net.{SocketAddr}
use zeromasque.Map.{update, contains_key}
use zeromasque.Map.Laws.{contains-get, contains-insert_same}
use zeromasque.Transport.{Transport, Drains}
use zeromasque.Rules.{RuleTable}
use zeromasque.Server.Session.{Scid, Client, Stop, System}
use zeromasque.Server.Session.Ends.{Ends, EndsFor}
use zeromasque.Server.Session.Total.{process_client-Ends}
use zeromasque.Server.Routing.{
  PacketHeader, Quic, Server, local_conn_id_len, accept, accept_result, accepted_as, route, stored,
  received, deliver, after_accept, to_route, with_header, on_packet, send_version_negotiation,
}
use zeromasque.Server.Routing.Invariant.{IsRouted, accepted-IsRouted, update-IsRouted, route-found}

module _ {C H W S : Type 0} (t : Transport C H) (sys : System W S) (q : Quic C W) (d : Drains t)
    (rules : RuleTable) where
  -- It ends, and the routes of the server that it gives lead to clients.
  abbrev pub Handles : (ℕ → Result Stop (Server C H × W)) → Type 0
  Handles f = (r : Server C H × W) × Ends f r × IsRouted r.0

  at_once : (s : Server C H) (w : W) → IsRouted s → Handles (λ fuel. ok (s, w))
  at_once s w h = ((s, w), (0, λ fuel le. refl), h)

  stored-Handles :
      (s : Server C H) (k : Scid) (f : ℕ → Result Stop (Client C H × W))
      → IsRouted s
      → EndsFor f
      → Handles (λ fuel. stored t sys q s k (f fuel))
  stored-Handles s k f h ((client, w), (enough, e)) = (
    (record s { clients = update k (λ c. client) s.clients }, w),
    (enough, λ fuel le. rw (e fuel le) refl),
    update-IsRouted t sys q s k (λ c. client) h,
  )

  received-Handles :
      (s : Server C H) (k : Scid) (client : Client C H) (w : W) (r : Bool × C)
      → IsRouted s
      → Handles (λ fuel. received t sys q rules fuel s k client w r)
  received-Handles s k client w (true, c) h =
      stored-Handles s k _ h (process_client-Ends t sys d rules k (record client { conn = c }) w)
  received-Handles s k client w (false, c) h =
      stored-Handles s k (λ fuel. ok (record client { conn = c }, w)) h (_, (0, λ fuel le. refl))

  deliver-Handles :
      (s : Server C H) (k : Scid) (pkt : List ℕ) (from : SocketAddr) (w : W)
      → IsRouted s
      → contains_key k s.clients ≡ true
      → Handles (λ fuel. deliver t sys q rules fuel s k pkt from w)
  unfolding deliver
  deliver-Handles s k pkt from w h there =
      let (client, e) = contains-get k s.clients there in
      rw e (
        received-Handles s k (record client { peer = from }) w
          (t.recv pkt s.local_addr from client.conn) h)

  accept-Handles :
      (s : Server C H) (scid : Scid) (dcid pkt : List ℕ) (from : SocketAddr) (r : Option C × W)
      → IsRouted s
      → Handles (λ fuel.
        after_accept t sys q rules fuel pkt from (accept_result t sys q s scid dcid from r))
  accept-Handles s scid dcid pkt from (none, w) h = at_once s w h
  accept-Handles s scid dcid pkt from (some conn, w) h =
      deliver-Handles (accepted_as t sys q s scid dcid from conn) scid pkt from w
        (accepted-IsRouted t sys q s scid dcid from conn h) (contains-insert_same scid _ s.clients)

  to_route-Handles :
      (s : Server C H) (pkt : List ℕ) (from : SocketAddr) (hdr : PacketHeader) (w : W)
      (o : Option Scid)
      → IsRouted s
      → ((scid : Scid) → o ≡ some scid → contains_key scid s.clients ≡ true)
      → Handles (λ fuel. to_route t sys q rules fuel s pkt from hdr w o)
  unfolding accept send_version_negotiation
  to_route-Handles s pkt from hdr w (some scid) h there =
      deliver-Handles s scid pkt from w h (there scid refl)
  to_route-Handles s pkt from hdr w none h there = elim (Bool-cases hdr.is_initial) [
    | inr e ↦ rw e (at_once s w h)
    | inl e ↦ elim (Bool-cases (q.version_is_supported hdr.version)) [
      | inr v ↦ rw (e, v) (at_once s (send_version_negotiation t sys q hdr from w) h)
      | inl v ↦
          rw (e, v)
            (accept-Handles s (q.random_scid w).0 hdr.dcid pkt from
              (q.accept (q.random_scid w).0 s.local_addr from (q.random_scid w).1) h)
    ]
  ]

  with_header-Handles :
      (s : Server C H) (pkt : List ℕ) (from : SocketAddr) (w : W) (o : Option PacketHeader)
      → IsRouted s
      → Handles (λ fuel. with_header t sys q rules fuel s pkt from w o)
  with_header-Handles s pkt from w none h = at_once s w h
  with_header-Handles s pkt from w (some hdr) h =
      to_route-Handles s pkt from hdr w (route t sys q s hdr.dcid) h
        (λ scid. route-found t sys q s hdr.dcid scid h)

  -- For a server whose routes all lead to clients, and a transport that has finitely much to give
  -- between two packets, the handling of any packet ends without a panic: with an answer that is the same
  -- for every fuel that is enough, and in which again all routes lead to clients.
  pub on_packet-Handles :
      (s : Server C H) (pkt : List ℕ) (from : SocketAddr) (w : W)
      → IsRouted s
      → Handles (λ fuel. on_packet t sys q rules fuel s pkt from w)
  unfolding on_packet
  on_packet-Handles s pkt from w h =
      with_header-Handles s pkt from w (q.from_slice pkt local_conn_id_len) h
