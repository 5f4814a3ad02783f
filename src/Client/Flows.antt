-- ===== src/Client/Flows.antt =====
-- The events of src/client.rs keep the local sources and the flows together.
use zeromasque.Prelude.{
  ℕ, ◌/◌, ◌≡◌, ◌∙◌, refl, ap, Option, none, some, false, arith, ltb, leb, All, nat_eq, nat_beq_refl,
  ◌==◌, ◌&&◌, Bool-cases, inl, inr,
}
use zeromasque.Prelude.Members.{All-map}
use zeromasque.Net.{SocketAddr, addr_eq}
use zeromasque.Map.{get, remove, is_some}
use zeromasque.Map.Laws.{All-get}
use zeromasque.Map.Distinct.{All-remove, All-update, Distinct-update, Distinct-remove}
use zeromasque.Client.{
  FlowState, Tunnel, establish, establish_at, establish_for, accept_flow, forget, drop_flow,
  on_status, on_event, status_of,
}
use zeromasque.Client.Sources.{IsState, Linked, IsSound, update-Linked, remove-Linked}
use zeromasque.Transport.{Event, headers, body, finished, reset, other, Transport}

module _ {C H : Type 0} (t : Transport C H) where
  abbrev pub IsSoundTunnel : Tunnel C H → Type 0
  IsSoundTunnel k = IsSound k.by_addr k.flows

  -- The source of a flow that is found has the flow's id.
  link :
      (k : Tunnel C H) (fid : ℕ) (src : SocketAddr)
      → IsSoundTunnel k
      → get fid k.flows ≡ some src
      → Linked k.by_addr (fid, src)
  link k fid src h e = All-get (Linked k.by_addr) fid k.flows src h.1 e

  establish-IsSound :
      (k : Tunnel C H) (fid : ℕ) (src : SocketAddr) (o : Option FlowState)
      → IsSoundTunnel k
      → Linked k.by_addr (fid, src)
      → IsSoundTunnel (establish_at t fid src k o)
  establish-IsSound k fid src none h l = h
  establish-IsSound k fid src (some st) (states, links, distinct) (st0, found, id) = (
    All-update IsState src establish k.by_addr states (λ v e.
        (omega arith, λ x. (refl, ap (λ y. is_some y.flow_id) (the_same v e) ∙ ap is_some id))),
    All-map (λ e. update-Linked k.by_addr src establish e (λ v f i. i)) k.flows links,
    Distinct-update src establish k.by_addr distinct,
  )
    where
      the_same : (v : FlowState) → get src k.by_addr ≡ some v → v ≡ st0
      the_same v e = cc (e, found)

  accept-IsSound :
      (k : Tunnel C H) (fid : ℕ) → IsSoundTunnel k → IsSoundTunnel (accept_flow t fid k)
  unfolding accept_flow
  accept-IsSound k fid h = go (get fid k.flows) refl
    where
      go : (o : Option SocketAddr) → get fid k.flows ≡ o → IsSoundTunnel (establish_for t fid k o)
      go none e = h
      go (some src) e = establish-IsSound k fid src (get src k.by_addr) h (link k fid src h e)

  drop-IsSound : (k : Tunnel C H) (fid : ℕ) → IsSoundTunnel k → IsSoundTunnel (drop_flow t fid k)
  unfolding drop_flow
  drop-IsSound k fid h = go (get fid k.flows) refl
    where
      left : All (λ e. Linked k.by_addr e × (fid == e.0) ≡ false) (remove fid k.flows)
      left = All-remove (Linked k.by_addr) fid k.flows h.1

      go :
          (o : Option SocketAddr)
          → get fid k.flows ≡ o
          → IsSoundTunnel (forget t (record k { flows = remove fid k.flows }) o)
      go none e = (h.0, All-map (λ x r. r.0) _ left, h.2)
      go (some src) e =
          let (st0, found, id) = link k fid src h e in
          (
            All-map (λ x r. r.0) _ (All-remove (λ x. IsState x.1) src k.by_addr h.0),
            All-map
                (λ x r.
                  remove-Linked k.by_addr src x
                    (λ v f i. cc (f, found, id, i, r.1, nat_beq_refl fid)) r.0)
                _ left,
            Distinct-remove src k.by_addr h.2,
          )

  on_status-IsSound :
      (k : Tunnel C H) (fid : ℕ) (o : Option ℕ)
      → IsSoundTunnel k
      → IsSoundTunnel (on_status t fid k o)
  on_status-IsSound k fid none h = h
  on_status-IsSound k fid (some s) h = elim (Bool-cases (leb 200 s && ltb s 300)) [
    | inl e ↦ rw e (accept-IsSound k fid h)
    | inr e ↦ rw e (drop-IsSound k fid h)
  ]

  pub on_event-IsSound :
      (stream_id : ℕ) (e : Event) (k : Tunnel C H)
      → IsSoundTunnel k
      → IsSoundTunnel (on_event t stream_id e k)
  unfolding on_event
  on_event-IsSound stream_id (headers list) k h =
      on_status-IsSound k (stream_id / 4) (status_of list) h
  on_event-IsSound stream_id finished k h = drop-IsSound k (stream_id / 4) h
  on_event-IsSound stream_id reset k h = drop-IsSound k (stream_id / 4) h
  on_event-IsSound stream_id body k h = h
  on_event-IsSound stream_id other k h = h
