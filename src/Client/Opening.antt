-- ===== src/Client/Opening.antt =====
-- `open_pending_flows` of src/client.rs keeps the local sources and the flows together.
use zeromasque.Prelude.{
  ℕ, ◌/◌, ◌≡◌, ◌∙◌, refl, sym, ap, List, [], ◌∷◌, Option, none, some, false, All, nat_eq,
  Bool-cases, inl, inr,
}
use zeromasque.Prelude.Result.{Result, ok, err}
use zeromasque.Prelude.Members.{In, Distinct, All-map}
use zeromasque.Text.{Text}
use zeromasque.Net.{SocketAddr, addr_eq}
use zeromasque.Map.{Map, keys, get, insert, remove, is_some}
use zeromasque.Map.Laws.{get-remove_same, get-remove_ne, get-update_same, get-update_ne, All-get}
use zeromasque.Map.Distinct.{All-remove, All-update, Distinct-update, Distinct-remove}
use zeromasque.Client.{
  FlowState, Tunnel, set_flow_id, on_request, open_one, open_each, remove_all, open_pending_flows,
  connect_headers,
}
use zeromasque.Client.Sources.{
  IsState, Linked, IsSound, Unlinked, addr-cases, update-Linked, remove-Linked,
}
use zeromasque.Transport.{
  Header, RequestError, stream_blocked, stream_limit, request_failed, Transport,
}
use mathlib.Core.Option
use zeromasque.Client.Flows.{IsSoundTunnel}

All-both :
    {A : Type 0} (P Q : A → Type 0) (xs : List A) → All P xs → All Q xs → All (λ x. P x × Q x) xs
All-both P Q [] h k = tt
All-both P Q (x ∷ xs) h k = ((h.0, k.0), All-both P Q xs h.1 k.1)

is_some-none : (o : Option ℕ) → is_some o ≡ false → o ≡ none
is_some-none none h = refl
is_some-none (some x) h = cc

idle-none :
    (st : FlowState) → is_some st.flow_id ≡ false → (v : FlowState) → v ≡ st → v.flow_id ≡ none
idle-none st idle v e = ap (λ x. x.flow_id) e ∙ is_some-none st.flow_id idle

remove-Unlinked :
    (by_addr : Map SocketAddr FlowState) (d x : SocketAddr)
    → Unlinked by_addr x
    → Unlinked (remove d by_addr) x
remove-Unlinked by_addr d x u v f = elim (addr-cases x d) [
  | inl e ↦ cc (f, ap (λ k. get k (remove d by_addr)) e, get-remove_same d by_addr)
  | inr ne ↦ u v (sym (get-remove_ne d x by_addr ne) ∙ f)
]

remove_all-IsSound :
    (ds : List SocketAddr) (by_addr : Map SocketAddr FlowState) (flows : Map ℕ SocketAddr)
    → IsSound by_addr flows
    → All (Unlinked by_addr) ds
    → IsSound (remove_all ds by_addr) flows
unfolding remove_all
remove_all-IsSound [] by_addr flows h u = h
remove_all-IsSound (d ∷ ds) by_addr flows (states, links, distinct) u =
    remove_all-IsSound ds (remove d by_addr) flows
      (
        All-map (λ x r. r.0) _ (All-remove (λ x. IsState x.1) d by_addr states),
        All-map (λ e. remove-Linked by_addr d e (λ v f i. cc (u.0 v f, i))) flows links,
        Distinct-remove d by_addr distinct,
      )
      (All-map (λ x. remove-Unlinked by_addr d x) ds u.1)

module _ {C H : Type 0} (t : Transport C H) where
  -- Requests. The sources to drop have no flow, and are not asked for again.
  abbrev Opening : List SocketAddr → Tunnel C H × List SocketAddr → Type 0
  Opening later (k, dropped) =
      IsSoundTunnel t k × All (Unlinked k.by_addr) dropped × All (λ d. ¬ In d later) dropped

  request-Opening :
      (src : SocketAddr) (later : List SocketAddr) (k : Tunnel C H) (dropped : List SocketAddr)
      (st : FlowState) (r : Result RequestError ℕ × H × C)
      → get src k.by_addr ≡ some st
      → is_some st.flow_id ≡ false
      → ¬ In src later
      → Opening (src ∷ later) (k, dropped)
      → Opening later (on_request t src k dropped r)
  unfolding insert
  request-Opening src later k dropped st (err stream_blocked, h, c) found idle apart (s, u, n) =
      (s, u, All-map (λ d x i. x (inr i)) dropped n)
  request-Opening src later k dropped st (err stream_limit, h, c) found idle apart (s, u, n) =
      (s, ((λ v f. none_of v f), u), (apart, All-map (λ d x i. x (inr i)) dropped n))
    where
      none_of : (v : FlowState) → get src k.by_addr ≡ some v → v.flow_id ≡ none
      none_of v f = idle-none st idle v (cc (f, found))
  request-Opening src later k dropped st (err request_failed, h, c) found idle apart (s, u, n) =
      (s, ((λ v f. none_of v f), u), (apart, All-map (λ d x i. x (inr i)) dropped n))
    where
      none_of : (v : FlowState) → get src k.by_addr ≡ some v → v.flow_id ≡ none
      none_of v f = idle-none st idle v (cc (f, found))
  request-Opening src later k dropped st (ok stream_id, h, c) found idle apart
        ((states, links, distinct), u, n) =
      (
        (
          All-update IsState src (set_flow_id (stream_id / 4)) k.by_addr states (λ v f.
              let was : IsState v = All-get (λ e. IsState e.1) src k.by_addr v states f in
              (was.0, λ x. ((was.1 x).0, refl))),
          (
            (
              set_flow_id (stream_id / 4) st,
              get-update_same src (set_flow_id (stream_id / 4)) k.by_addr
                  ∙ ap (Option.map (set_flow_id (stream_id / 4))) found,
              refl,
            ),
            All-map
                (λ e r.
                  update-Linked k.by_addr src (set_flow_id (stream_id / 4)) e
                    (λ v f i. absurd (cc (i, idle-none st idle v (cc (f, found))))) r.0)
                _ (All-remove (Linked k.by_addr) (stream_id / 4) k.flows links),
          ),
          Distinct-update src (set_flow_id (stream_id / 4)) k.by_addr distinct,
        ),
        All-map
            (λ d r v f. r.0 v (
              sym (get-update_ne src d (set_flow_id (stream_id / 4)) k.by_addr (λ e. r.1 (inl e)))
              ∙ f))
            dropped (All-both (Unlinked k.by_addr) (λ d. ¬ In d (src ∷ later)) dropped u n),
        All-map (λ d x i. x (inr i)) dropped n,
      )

  one-Opening :
      (hs : List Header) (src : SocketAddr) (later : List SocketAddr) (k : Tunnel C H)
      (dropped : List SocketAddr) (o : Option FlowState)
      → get src k.by_addr ≡ o
      → ¬ In src later
      → Opening (src ∷ later) (k, dropped)
      → Opening later (open_one t hs src k dropped o)
  one-Opening hs src later k dropped none e apart (s, u, n) =
      (s, u, All-map (λ d x i. x (inr i)) dropped n)
  one-Opening hs src later k dropped (some st) e apart (s, u, n) =
      elim (Bool-cases (is_some st.flow_id)) [
        | inl x ↦ rw x (s, u, All-map (λ d y i. y (inr i)) dropped n)
        | inr x ↦ rw x (
            request-Opening src later k dropped st (t.send_request hs false k.http3 k.conn) e x
              apart (s, u, n))
      ]

  each-Opening :
      (hs : List Header) (srcs : List SocketAddr) (k : Tunnel C H) (dropped : List SocketAddr)
      → Distinct srcs
      → Opening srcs (k, dropped)
      → Opening [] (open_each t hs srcs k dropped)
  unfolding open_each
  each-Opening hs [] k dropped d h = h
  each-Opening hs (src ∷ srcs) k dropped d h =
      each-Opening hs srcs (open_one t hs src k dropped (get src k.by_addr)).0
        (open_one t hs src k dropped (get src k.by_addr)).1 d.1
        (one-Opening hs src srcs k dropped (get src k.by_addr) refl d.0 h)

  pub open_pending_flows-IsSound :
      (authority path : Text) (k : Tunnel C H)
      → IsSoundTunnel t k
      → IsSoundTunnel t (open_pending_flows t authority path k)
  unfolding open_pending_flows
  open_pending_flows-IsSound authority path k h =
      let (s, u, n) =
        each-Opening (connect_headers authority path) (keys k.by_addr) k [] h.2 (h, tt, tt) in
      remove_all-IsSound _ _ _ s u
