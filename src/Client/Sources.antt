-- ===== src/Client/Sources.antt =====
-- The local sources and the flows of src/client.rs fit together in every state of a session.
use zeromasque.Prelude.{
  ℕ, ◌≤◌, ◌≡◌, ◌≢◌, ◌⊎◌, ◌∙◌, refl, sym, ap, List, [], ◌∷◌, Option, none, some, Bool, true, false,
  arith, length, length-append, ltb, All, nat_eq, Bool-cases, inl, inr,
}
use zeromasque.Prelude.Members.{Distinct, All-map}
use zeromasque.Net.{SocketAddr, addr_eq, addr_beq, addr_beq_sound, addr_beq_refl}
use zeromasque.Map.{Map, keys, get, insert, remove, update, is_some}
use zeromasque.Map.Laws.{
  get-insert_same, get-insert_ne, get-remove_ne, get-update_same, get-update_ne, All-get,
}
use zeromasque.Map.Distinct.{All-remove, Distinct-insert}
use zeromasque.Client.{FlowState, max_pending, push_pending, local_to, or_fresh, on_local}
use zeromasque.Transport.{Transport}
use mathlib.Core.Option

-- At most 32 datagrams wait; an established flow has its id, and nothing waits.
abbrev pub IsState : FlowState → Type 0
IsState st =
    (length st.pending ≤ max_pending)
    × (st.established ≡ true → (st.pending ≡ []) × (is_some st.flow_id ≡ true))

-- The source of the flow has the flow's id.
abbrev pub Linked : Map SocketAddr FlowState → ℕ × SocketAddr → Type 0
Linked by_addr e = (st : FlowState) × (get e.1 by_addr ≡ some st) × (st.flow_id ≡ some e.0)

abbrev pub IsSound : Map SocketAddr FlowState → Map ℕ SocketAddr → Type 0
IsSound by_addr flows =
    All (λ e. IsState e.1) by_addr × All (Linked by_addr) flows × Distinct (keys by_addr)

-- No flow leads to the source.
abbrev pub Unlinked : Map SocketAddr FlowState → SocketAddr → Type 0
Unlinked by_addr src = (st : FlowState) → get src by_addr ≡ some st → st.flow_id ≡ none

pub addr-cases : (a b : SocketAddr) → (a ≡ b) ⊎ (a ≢ b)
addr-cases a b = elim (Bool-cases (addr_beq a b)) [
  | inl e ↦ inl (addr_beq_sound a b e)
  | inr e ↦ inr (λ p. cc (e, ap (addr_beq a) (sym p), addr_beq_refl a))
]

-- A source gets a state with the flow id that it had.
pub insert-Linked :
    (by_addr : Map SocketAddr FlowState) (src : SocketAddr) (st' : FlowState) (e : ℕ × SocketAddr)
    → ((st : FlowState) → get src by_addr ≡ some st → st'.flow_id ≡ st.flow_id)
    → Linked by_addr e
    → Linked (insert src st' by_addr) e
insert-Linked by_addr src st' e same (st, found, id) = elim (addr-cases e.1 src) [
  | inl p ↦ (
    st',
    ap (λ k. get k (insert src st' by_addr)) p ∙ get-insert_same src st' by_addr,
    same st (ap (λ k. get k by_addr) (sym p) ∙ found) ∙ id,
  )
  | inr ne ↦ (st, get-insert_ne src e.1 st' by_addr ne ∙ found, id)
]

pub update-Linked :
    (by_addr : Map SocketAddr FlowState) (src : SocketAddr) (f : FlowState → FlowState)
    (e : ℕ × SocketAddr)
    → ((st : FlowState)
        → get src by_addr ≡ some st
        → st.flow_id ≡ some e.0
        → (f st).flow_id ≡ some e.0)
    → Linked by_addr e
    → Linked (update src f by_addr) e
update-Linked by_addr src f e same (st, found, id) = elim (addr-cases e.1 src) [
  | inl p ↦
      let here : get src by_addr ≡ some st = ap (λ k. get k by_addr) (sym p) ∙ found in
      (
        f st,
        ap (λ k. get k (update src f by_addr)) p
            ∙ get-update_same src f by_addr
            ∙ ap (Option.map f) here,
        same st here id,
      )
  | inr ne ↦ (st, get-update_ne src e.1 f by_addr ne ∙ found, id)
]

pub remove-Linked :
    (by_addr : Map SocketAddr FlowState) (src : SocketAddr) (e : ℕ × SocketAddr)
    → ((st : FlowState) → get src by_addr ≡ some st → st.flow_id ≢ some e.0)
    → Linked by_addr e
    → Linked (remove src by_addr) e
remove-Linked by_addr src e other (st, found, id) = elim (addr-cases e.1 src) [
  | inl p ↦ absurd (other st (ap (λ k. get k by_addr) (sym p) ∙ found) id)
  | inr ne ↦ (st, get-remove_ne src e.1 by_addr ne ∙ found, id)
]

push-IsState :
    (p : List ℕ) (st : FlowState)
    → IsState st
    → ¬ (st.established ≡ true)
    → IsState (push_pending p st) × ((push_pending p st).flow_id ≡ st.flow_id)
push-IsState p st h waiting = elim (Bool-cases (ltb (length st.pending) max_pending)) [
  | inl e ↦
      rw e ((ground (arith, e, length-append st.pending (p ∷ [])), λ x. absurd (waiting x)), refl)
  | inr e ↦ rw e (h, refl)
]

module _ {C H : Type 0} (t : Transport C H) where
  local_to-IsState :
      (p : List ℕ) (st : FlowState) (b : Bool) (o : Option ℕ) (c : C)
      → st.established ≡ b
      → st.flow_id ≡ o
      → IsState st
      → IsState (local_to t p st b o c).1 × ((local_to t p st b o c).1.flow_id ≡ st.flow_id)
  local_to-IsState p st true (some fid) c e f h = (h, refl)
  local_to-IsState p st true none c e f h = push-IsState p st h (λ x. cc ((h.1 x).1, ap is_some f))
  local_to-IsState p st false o c e f h = push-IsState p st h (λ x. cc (x, e))

  found-IsState :
      (src : SocketAddr) (by_addr : Map SocketAddr FlowState) (o : Option FlowState)
      → get src by_addr ≡ o
      → All (λ e. IsState e.1) by_addr
      → IsState (or_fresh o)
        × ((st : FlowState) → get src by_addr ≡ some st → (or_fresh o).flow_id ≡ st.flow_id)
  found-IsState src by_addr none e h = ((omega arith, λ x. cc x), λ st found. cc (e, found))
  found-IsState src by_addr (some st) e h =
      (All-get (λ x. IsState x.1) src by_addr st h e, λ st' found. cc (e, found))

  -- A local datagram.
  pub on_local-IsSound :
      (p : List ℕ) (src : SocketAddr) (c : C) (by_addr : Map SocketAddr FlowState)
      (flows : Map ℕ SocketAddr)
      → IsSound by_addr flows
      → IsSound (on_local t p src c by_addr).1 flows
  unfolding on_local insert
  on_local-IsSound p src c by_addr flows (states, links, distinct) =
      let (was, same) = found-IsState src by_addr (get src by_addr) refl states in
      let st = or_fresh (get src by_addr) in
      let (now, id) = local_to-IsState p st st.established st.flow_id c refl refl was in
      let st' = (local_to t p st st.established st.flow_id c).1 in
      (
        (now, All-map (λ e r. r.0) _ (All-remove (λ e. IsState e.1) src by_addr states)),
        All-map (λ e. insert-Linked by_addr src st' e (λ st1 found. id ∙ same st1 found)) flows
            links,
        Distinct-insert src st' by_addr distinct,
      )
