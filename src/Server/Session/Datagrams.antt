-- ===== src/Server/Session/Datagrams.antt =====
-- `drain_client_datagrams` of src/server.rs: every flow is given the payloads that are addressed to it.
use zeromasque.Prelude.{
  ℕ, zero, suc, ◌≡◌, ◌⊎◌, ◌∙◌, refl, sym, ap, subst, List, [], ◌∷◌, ◌++◌, Option, none, some, true,
  false, ◌&&◌, arith, ◌==◌, if◌then◌else◌, nat_eq, Bool-cases, Option-cases, inl, inr,
  nat_beq_sound,
}
use zeromasque.Prelude.Result.{Result, ok}
use zeromasque.Map.{Map, get, update}
use zeromasque.Map.Laws.{get-update_same, get-update_ne}
use zeromasque.Transport.{Transport}
use zeromasque.Dgram.{Parsed, context_id_udp, decode}
use zeromasque.Server.Session.{
  Flow, System, Stop, deliver, on_parsed, on_datagram, drain_client_datagrams,
}
use mathlib.Core.Option

-- The payloads of the UDP context for the flow.
abbrev pub for_flow : ℕ → Option Parsed → List (List ℕ)
for_flow f none = []
for_flow f (some p) =
    if p.context_id == context_id_udp && p.flow_id == f then p.payload ∷ [] else []

abbrev pub payloads_for : ℕ → List (List ℕ) → List (List ℕ)
payloads_for f [] = []
payloads_for f (d ∷ ds) = for_flow f (decode d) ++ payloads_for f ds

abbrev pub active : ℕ → List (List ℕ) → ℕ → ℕ
active now [] before = before
active now (p ∷ ps) before = now

module _ {C H W S : Type 0} (t : Transport C H) (sys : System W S) where
  -- The datagrams that the connection gives, until it has no more.
  abbrev pub Receives : C → List (List ℕ) → C → Type 0
  Receives c [] c' = t.dgram_recv c ≡ (none, c')
  Receives c (d ∷ ds) c' = (next : C) × (t.dgram_recv c ≡ (some d, next)) × Receives next ds c'

  -- The channel of the flow, which held `q`, holds `q'` when it has been offered the payloads: each one
  -- that it had room for when its turn came is behind the others, and each one that it had none for is
  -- gone.
  abbrev pub Queued : ℕ → ℕ → List (List ℕ) → List (List ℕ) → List (List ℕ) → Type 0
  Queued id now q [] q' = q' ≡ q
  Queued id now q (p ∷ ps) q' =
      ((sys.has_room id now q ≡ true) × Queued id now (q ++ p ∷ []) ps q')
      ⊎ ((sys.has_room id now q ≡ false) × Queued id now q ps q')

  abbrev pub Given : ℕ → List (List ℕ) → ℕ → Flow → Flow → Type 0
  Given id ps now f f' =
      Queued id now f.to_target ps f'.to_target
      × (f'.last_activity ≡ active now ps f.last_activity)
      × (f'.idle_timeout ≡ f.idle_timeout)

  abbrev pub Relays : ℕ → List (List ℕ) → ℕ → Option Flow → Option Flow → Type 0
  Relays id ps now none none = Unit {0}
  Relays id ps now none (some f') = ⊥
  Relays id ps now (some f) none = ⊥
  Relays id ps now (some f) (some f') = Given id ps now f f'

  Relays-refl : (id now : ℕ) (o : Option Flow) → Relays id [] now o o
  Relays-refl id now none = tt
  Relays-refl id now (some f) = (refl, refl, refl)

  active-append :
      (now : ℕ) (ps qs : List (List ℕ)) (b : ℕ)
      → active now (ps ++ qs) b ≡ active now qs (active now ps b)
  active-append now [] qs b = refl
  active-append now (p ∷ ps) [] b = refl
  active-append now (p ∷ ps) (q ∷ qs) b = refl

  Queued-append :
      (id now : ℕ) (ps qs a b c : List (List ℕ))
      → Queued id now a ps b
      → Queued id now b qs c
      → Queued id now a (ps ++ qs) c
  Queued-append id now [] qs a b c h k = subst (λ x. Queued id now x qs c) h k
  Queued-append id now (p ∷ ps) qs a b c (inl (room, h)) k =
      inl (room, Queued-append id now ps qs (a ++ p ∷ []) b c h k)
  Queued-append id now (p ∷ ps) qs a b c (inr (full, h)) k =
      inr (full, Queued-append id now ps qs a b c h k)

  Given-append :
      (id : ℕ) (ps qs : List (List ℕ)) (now : ℕ) (a b c : Flow)
      → Given id ps now a b
      → Given id qs now b c
      → Given id (ps ++ qs) now a c
  Given-append id ps qs now a b c (x, m, i) (y, m', i') = (
    Queued-append id now ps qs a.to_target b.to_target c.to_target x y,
    m' ∙ ap (active now qs) m ∙ sym (active-append now ps qs a.last_activity),
    i' ∙ i,
  )

  Relays-append :
      (id : ℕ) (ps qs : List (List ℕ)) (now : ℕ) (a b c : Option Flow)
      → Relays id ps now a b
      → Relays id qs now b c
      → Relays id (ps ++ qs) now a c
  Relays-append id ps qs now none none none h k = tt
  Relays-append id ps qs now none none (some c) h k = absurd k
  Relays-append id ps qs now none (some b) c h k = absurd h
  Relays-append id ps qs now (some a) none c h k = absurd h
  Relays-append id ps qs now (some a) (some b) none h k = absurd k
  Relays-append id ps qs now (some a) (some b) (some c) h k = Given-append id ps qs now a b c h k

  deliver-Given :
      (id : ℕ) (p : List ℕ) (now : ℕ) (f : Flow)
      → Given id (p ∷ []) now f (deliver t sys id p now f)
  deliver-Given id p now f = elim (Bool-cases (sys.has_room id now f.to_target)) [
    | inl e ↦ (inl (e, rw e refl), refl, refl)
    | inr e ↦ (inr (e, rw e refl), refl, refl)
  ]

  deliver-Relays :
      (id : ℕ) (p : List ℕ) (now : ℕ) (o : Option Flow)
      → Relays id (p ∷ []) now o (Option.map (deliver t sys id p now) o)
  deliver-Relays id p now none = tt
  deliver-Relays id p now (some f) = deliver-Given id p now f

  -- One datagram, as the flow `f` sees it.
  on_parsed-Relays :
      (f : ℕ) (o : Option Parsed) (now : ℕ) (flows : Map ℕ Flow)
      → Relays f (for_flow f o) now (get f flows) (get f (on_parsed t sys o now flows))
  on_parsed-Relays f none now flows = Relays-refl f now (get f flows)
  on_parsed-Relays f (some p) now flows = elim (Bool-cases (p.context_id == context_id_udp)) [
    | inr other ↦ rw other (Relays-refl f now (get f flows))
    | inl udp ↦ elim (Bool-cases (p.flow_id == f)) [
      | inl same ↦
          let e : p.flow_id ≡ f = nat_beq_sound p.flow_id f same in
          let here : get f (update p.flow_id (deliver t sys p.flow_id p.payload now) flows)
              ≡ Option.map (deliver t sys f p.payload now) (get f flows) =
            ap (λ i. get f (update i (deliver t sys i p.payload now) flows)) e
            ∙ get-update_same f (deliver t sys f p.payload now) flows in
          rw (udp, same, here) (deliver-Relays f p.payload now (get f flows))
      | inr ne ↦
          rw
            (
              udp,
              ne,
              get-update_ne p.flow_id f (deliver t sys p.flow_id p.payload now) flows
                  (λ q. ground (arith, q, ne)),
            )
            (Relays-refl f now (get f flows))
    ]
  ]

  -- Where the datagrams of a client are drained, the connection has handed out some of them, up to the
  -- point where it had no more, and each flow has been given exactly the payloads of those that decode,
  -- carry the UDP context and name it: in their order, each of them exactly if its channel had room for it
  -- when its turn came. Its activity is the moment of the drain if there
  -- was one, its timeout stays, and no flow comes or goes.
  pub drain_client_datagrams_lem :
      (fuel now : ℕ) (c c' : C) (flows flows' : Map ℕ Flow)
      → drain_client_datagrams t sys fuel now c flows ≡ ok (c', flows')
      → (ds : List (List ℕ)) × Receives c ds c'
        × ((f : ℕ) → Relays f (payloads_for f ds) now (get f flows) (get f flows'))
  unfolding drain_client_datagrams on_datagram
  drain_client_datagrams_lem zero now c c' flows flows' h = cc
  drain_client_datagrams_lem (suc fuel) now c c' flows flows' h =
      elim (Option-cases (t.dgram_recv c).0) [
        | inl e ↦
            let h' : ◌≡◌ {A = Result Stop (C × Map ℕ Flow)} (ok ((t.dgram_recv c).1, flows))
                (ok (c', flows')) =
              rw (drain_client_datagrams, e) at h in
            let last : (t.dgram_recv c).1 ≡ c' = cc h' in
            let same : flows ≡ flows' = cc h' in
            (
              [],
              ap (λ o. (o, (t.dgram_recv c).1)) e ∙ ap (λ x. (none, x)) last,
              λ f.
                  subst (λ m. Relays f [] now (get f flows) (get f m)) same
                    (Relays-refl f now (get f flows)),
            )
        | inr (d, e) ↦
            let (ds, receives, relays) =
              drain_client_datagrams_lem fuel now (t.dgram_recv c).1 c'
                (on_datagram t sys d now flows) flows' (rw (drain_client_datagrams, e) at h) in
            (
              d ∷ ds,
              ((t.dgram_recv c).1, ap (λ o. (o, (t.dgram_recv c).1)) e, receives),
              λ f.
                  Relays-append f (for_flow f (decode d)) (payloads_for f ds) now _ _ _
                    (on_parsed-Relays f (decode d) now flows) (relays f),
            )
      ]
