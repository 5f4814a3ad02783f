-- ===== src/Server/Routing/Invariant.antt =====
-- Every route of src/server.rs leads to a connection, so that `on_packet` finds the client that it unwraps.
use zeromasque.Prelude.{
  ℕ, ◌≡◌, ◌∙◌, refl, sym, ap, List, [], ◌∷◌, some, true, not, arith, ◌==◌, All, ◌&&◌, &&-true,
  length, bytes_eq, bytes_beq, Bool-cases, inl, inr,
}
use zeromasque.Prelude.Members.{All-map}
use zeromasque.Net.{SocketAddr}
use zeromasque.Map.{Map, get, insert, remove, update, map_values, contains_key}
use zeromasque.Map.Laws.{
  contains-insert_same, contains-insert, contains-update, contains-map_values, All-get, All-filter,
}
use zeromasque.Transport.{Transport}
use zeromasque.Server.Session.{Scid, Client, System}
use zeromasque.Server.Routing.{
  Quic, Server, ToClient, local_conn_id_len, accepted_as, route, on_target_payload, flush_clients,
  flush_all, reap, reap_closed, sweep_idle_flows, on_timeout,
}

-- The client that a route leads to is there.
abbrev pub Leads : {C H : Type 0} → Map Scid (Client C H) → List ℕ × Scid → Type 0
Leads clients e = contains_key e.1 clients ≡ true

abbrev pub IsRouted : {C H : Type 0} → Server C H → Type 0
IsRouted s = All (Leads s.clients) s.routes

module _ {C H W S : Type 0} (t : Transport C H) (sys : System W S) (q : Quic C W) where
  pub accepted-IsRouted :
      (s : Server C H) (scid : Scid) (dcid : List ℕ) (from : SocketAddr) (conn : C)
      → IsRouted s
      → IsRouted (accepted_as t sys q s scid dcid from conn)
  unfolding insert remove
  accepted-IsRouted s scid dcid from conn h = (
    contains-insert_same scid _ s.clients,
    All-map (λ e l. contains-insert scid e.1 _ s.clients l.0) _
        (All-filter (Leads s.clients) _ s.routes h),
  )

  -- Changes to one client or to all of them keep the routes.
  pub update-IsRouted :
      (s : Server C H) (k : Scid) (f : Client C H → Client C H)
      → IsRouted s
      → IsRouted (record s { clients = update k f s.clients })
  update-IsRouted s k f h = All-map (λ e l. contains-update k e.1 f s.clients ∙ l) s.routes h

  map_values-IsRouted :
      (s : Server C H) (f : Client C H → Client C H)
      → IsRouted s
      → IsRouted (record s { clients = map_values f s.clients })
  map_values-IsRouted s f h = All-map (λ e l. contains-map_values f e.1 s.clients ∙ l) s.routes h

  pub on_target_payload-IsRouted :
      (s : Server C H) (tc : ToClient) (now : ℕ)
      → IsRouted s
      → IsRouted (on_target_payload t sys q s tc now)
  unfolding on_target_payload
  on_target_payload-IsRouted s tc now h = update-IsRouted s tc.conn_id _ h

  pub sweep-IsRouted :
      (s : Server C H) (now : ℕ) → IsRouted s → IsRouted (sweep_idle_flows t sys q s now)
  unfolding sweep_idle_flows
  sweep-IsRouted s now h = map_values-IsRouted s _ h

  pub on_timeout-IsRouted : (s : Server C H) → IsRouted s → IsRouted (on_timeout t sys q s)
  on_timeout-IsRouted s h = map_values-IsRouted s _ h

  contains-flush :
      (k : Scid) (m : Map Scid (Client C H)) (w : W)
      → contains_key k (flush_clients t sys q m w).0 ≡ contains_key k m
  unfolding get
  contains-flush k [] w = refl
  contains-flush k ((scid, client) ∷ m) w = elim (Bool-cases (bytes_beq k scid)) [
    | inl e ↦ rw e refl
    | inr e ↦ rw e (contains-flush k m (q.flush client.conn w).1)
  ]

  pub flush_all-IsRouted :
      (s : Server C H) (w : W) → IsRouted s → IsRouted (flush_all t sys q s w).0
  unfolding flush_all
  flush_all-IsRouted s w h = All-map (λ e l. contains-flush e.1 s.clients w ∙ l) s.routes h

  -- A connection with another id does not hang on the first entry.
  contains_past :
      (y cid : Scid) (client : Client C H) (m : Map Scid (Client C H))
      → not (bytes_beq y cid) ≡ true
      → contains_key y ((cid, client) ∷ m) ≡ true
      → contains_key y m ≡ true
  unfolding get
  contains_past y cid client m ne h = elim (Bool-cases (bytes_beq y cid)) [
    | inl e ↦ absurd (ground (arith, e))
    | inr e ↦ rw e at h
  ]

  contains_under :
      (y cid : Scid) (client : Client C H) (m kept : Map Scid (Client C H))
      → (contains_key y m ≡ true → contains_key y kept ≡ true)
      → contains_key y ((cid, client) ∷ m) ≡ true
      → contains_key y ((cid, client) ∷ kept) ≡ true
  unfolding get
  contains_under y cid client m kept f h = elim (Bool-cases (bytes_beq y cid)) [
    | inl e ↦ rw e refl
    | inr e ↦ rw e (f (rw e at h))
  ]

  -- Routes that are left after the reaping were there, and their clients are not among the reaped.
  reap_lem :
      (m : Map Scid (Client C H)) (P : List ℕ × Scid → Type 0) (routes : Map (List ℕ) Scid)
      → All P routes
      → All (λ e. P e × (Leads m e → Leads (reap t sys q m routes).0 e)) (reap t sys q m routes).1
  reap_lem [] P routes h = All-map (λ e p. (p, λ l. l)) routes h
  reap_lem ((cid, client) ∷ m) P routes h = elim (Bool-cases (t.is_closed client.conn)) [
    | inl closed ↦ rw closed (
        All-map (λ e r. (r.0.0, λ l. r.1 (contains_past e.1 cid client m r.0.1 l))) _
          (reap_lem m (λ e. P e × (not (bytes_beq e.1 cid) ≡ true)) _
            (All-filter P (λ e. not (bytes_beq e.1 cid)) routes h)))
    | inr open' ↦
        rw open'
          (All-map (λ e r. (r.0, contains_under e.1 cid client m _ r.1)) _ (reap_lem m P routes h))
  ]

  pub reap_closed-IsRouted : (s : Server C H) → IsRouted s → IsRouted (reap_closed t sys q s)
  unfolding reap_closed
  reap_closed-IsRouted s h =
      All-map (λ e r. r.1 r.0) _ (reap_lem s.clients (Leads s.clients) s.routes h)

  -- The client that is unwrapped is there.
  pub route-found :
      (s : Server C H) (dcid : List ℕ) (scid : Scid)
      → IsRouted s
      → route t sys q s dcid ≡ some scid
      → contains_key scid s.clients ≡ true
  unfolding route
  route-found s dcid scid h e =
      elim (Bool-cases (length dcid == local_conn_id_len && contains_key dcid s.clients)) [
        | inl own ↦
            let same : dcid ≡ scid = cc (rw own at e) in
            ap (λ k. contains_key k s.clients) (sym same) ∙ (&&-true _ _ own).1
        | inr other ↦ All-get (Leads s.clients) dcid s.routes scid h (rw other at e)
      ]
