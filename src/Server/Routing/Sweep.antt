-- ===== src/Server/Routing/Sweep.antt =====
-- `sweep_idle_flows` and `reap_closed` of src/server.rs remove what they are meant to, and nothing else.
use zeromasque.Prelude.{
  ℕ, ◌≡◌, ◌≢◌, ◌↔◌, ◌⊎◌, ◌<◌, ◌-◌, ◌*◌, ◌∙◌, refl, sym, ap, subst, List, [], ◌∷◌, Option, none,
  some, Bool, true, false, arith, ◌==◌, if◌then◌else◌, nat_eq, nat_beq_sound, bytes_eq, bytes_beq,
  All, any, Bool-cases, inl, inr,
}
use zeromasque.Prelude.Members.{In, Distinct}
use zeromasque.Map.{Map, keys, get, remove}
use zeromasque.Map.Laws.{get-remove_same, get-remove_ne, get-map_values}
use zeromasque.Map.Distinct.{get-not_In}
use zeromasque.Transport.{Transport}
use zeromasque.Server.Session.{Scid, Flow, Client, System}
use zeromasque.Server.Routing.{
  Quic, Server, is_expired, expired_after, expired_ids, close_flow, close_flows, sweep_client,
  sweep_idle_flows, reap, reap_closed,
}
use mathlib.Core.Option

module _ {C H W S : Type 0} (t : Transport C H) (sys : System W S) (q : Quic C W) where
  -- What a sweep leaves of a flow.
  abbrev unexpired : ℕ → Option Flow → Option Flow
  unexpired now none = none
  unexpired now (some f) = if is_expired t sys q now f then none else some f

  abbrev unless : {A : Type 0} → Bool → Option A → Option A
  unless true o = none
  unless false o = o

  get-close_flows :
      (f : ℕ) (ids : List ℕ) (client : Client C H)
      → get f (close_flows t sys q ids client).flows
        ≡ unless (any (λ i. i == f) ids) (get f client.flows)
  unfolding close_flows
  get-close_flows f [] client = refl
  get-close_flows f (i ∷ ids) client = elim (Bool-cases (i == f)) [
    | inl e ↦
        let gone : get f (remove i client.flows) ≡ none =
          ap (λ k. get f (remove k client.flows)) (nat_beq_sound i f e)
          ∙ get-remove_same f client.flows in
        get-close_flows f ids (close_flow t sys q i client)
        ∙ rw (gone, e) (unless-none (any (λ j. j == f) ids))
    | inr e ↦
        get-close_flows f ids (close_flow t sys q i client)
        ∙ rw (get-remove_ne i f client.flows (λ s. ground (arith, s, e)), e) refl
  ]
    where
      unless-none : (b : Bool) → unless {A = Flow} b none ≡ none
      unless-none true = refl
      unless-none false = refl

  abbrev expired_flow : ℕ → Option Flow → Bool
  expired_flow now none = false
  expired_flow now (some f) = is_expired t sys q now f

  any_head : (i f : ℕ) (ids : List ℕ) → i ≡ f → any (λ j. j == f) (i ∷ ids) ≡ true
  any_head i f ids e = ground (arith, e)

  any_past : (i f : ℕ) (ids : List ℕ) → i ≢ f → any (λ j. j == f) (i ∷ ids) ≡ any (λ j. j == f) ids
  any_past i f ids ne = ground (arith, ne)

  any-expired_ids :
      (now f : ℕ) (flows : Map ℕ Flow)
      → Distinct (keys flows)
      → any (λ i. i == f) (expired_ids t sys q now flows) ≡ expired_flow now (get f flows)
  unfolding expired_ids get
  any-expired_ids now f [] h = refl
  any-expired_ids now f ((i, x) ∷ flows) h = elim (Bool-cases (f == i)) [
    | inl e ↦
        let same : f ≡ i = nat_beq_sound f i e in
        let rest : any (λ j. j == f) (expired_ids t sys q now flows) ≡ false =
          any-expired_ids now f flows h.1
          ∙ ap (expired_flow now)
              (get-not_In f flows (λ m. h.0 (subst (λ k. In k (keys flows)) same m))) in
        elim (Bool-cases (is_expired t sys q now x)) [
          | inl x' ↦ rw (x', e) (any_head i f (expired_ids t sys q now flows) (sym same) ∙ sym x')
          | inr x' ↦ rw (x', e) (rest ∙ sym x')
        ]
    | inr e ↦ elim (Bool-cases (is_expired t sys q now x)) [
      | inl x' ↦
          rw (x', e)
            (any_past i f (expired_ids t sys q now flows) (λ p. ground (arith, e, p))
              ∙ any-expired_ids now f flows h.1)
      | inr x' ↦ rw (x', e) (any-expired_ids now f flows h.1)
    ]
  ]

  sweep_client_lem :
      (now f : ℕ) (client : Client C H)
      → Distinct (keys client.flows)
      → get f (sweep_client t sys q now client).flows ≡ unexpired now (get f client.flows)
  unfolding sweep_client
  sweep_client_lem now f client h =
      get-close_flows f (expired_ids t sys q now client.flows) client
      ∙ ap (λ b. unless b (get f client.flows)) (any-expired_ids now f client.flows h)
      ∙ unless-expired (get f client.flows)
    where
      unless-expired : (o : Option Flow) → unless (expired_flow now o) o ≡ unexpired now o
      unless-expired none = refl
      unless-expired (some x) = elim (Bool-cases (is_expired t sys q now x)) [
        | inl e ↦ rw e refl
        | inr e ↦ rw e refl
      ]

  -- A flow that has not been idle for its timeout, which is in seconds, the clock in nanoseconds.
  abbrev pub Stays : ℕ → Flow → Type 0
  Stays now f =
      (f.idle_timeout ≡ none)
      ⊎ ((d : ℕ) × (f.idle_timeout ≡ some d) × (now - f.last_activity < d * 1_000_000_000))

  expired-Stays :
      (now : ℕ) (f : Flow) (o : Option ℕ)
      → f.idle_timeout ≡ o
      → (expired_after t sys q now f o ≡ false) ↔ Stays now f
  expired-Stays now f none e = (λ h. inl e, λ h. refl)
  expired-Stays now f (some d) e = (
    λ h. inr (d, e, ground (arith, h)),
    λ h. elim h [
      | inl n ↦ cc
      | inr (d', e', lt) ↦ let same : d' ≡ d = cc in ground (arith, same, lt)
    ],
  )

  unexpired-Stays :
      (now : ℕ) (o : Option Flow) (x : Flow)
      → (unexpired now o ≡ some x) ↔ ((o ≡ some x) × Stays now x)
  unexpired-Stays now none x = (λ h. cc, λ h. cc)
  unexpired-Stays now (some f) x = elim (Bool-cases (is_expired t sys q now f)) [
    | inl e ↦ (
      λ h. cc (rw e at h),
      λ (same, stays).
          let here : f ≡ x = cc in
          absurd (
            cc (
              e,
              (expired-Stays now f f.idle_timeout refl).1 (subst (Stays now) (sym here) stays),
            )),
    )
    | inr e ↦ rw e (
      λ h.
          let here : f ≡ x = cc in
          (h, subst (Stays now) here ((expired-Stays now f f.idle_timeout refl).0 e)),
      λ h. h.0,
    )
  ]

  -- A sweep keeps every client. Of the flows of a client, which have different ids, it keeps exactly
  -- those, and as they are, that have no timeout or have been idle for less than their timeout.
  pub sweep_idle_flows_lem :
      (s : Server C H) (now : ℕ) (scid : Scid) (client : Client C H)
      → get scid s.clients ≡ some client
      → Distinct (keys client.flows)
      → (client' : Client C H) × (get scid (sweep_idle_flows t sys q s now).clients ≡ some client')
        × ((f : ℕ) (x : Flow)
            → (get f client'.flows ≡ some x) ↔ ((get f client.flows ≡ some x) × Stays now x))
  unfolding sweep_idle_flows
  sweep_idle_flows_lem s now scid client e h = (
    sweep_client t sys q now client,
    get-map_values (sweep_client t sys q now) scid s.clients
        ∙ ap (Option.map (sweep_client t sys q now)) e,
    λ f x.
        subst (λ o. (o ≡ some x) ↔ ((get f client.flows ≡ some x) × Stays now x))
          (sym (sweep_client_lem now f client h)) (unexpired-Stays now (get f client.flows) x),
  )

  abbrev IsOpen : Scid × Client C H → Type 0
  IsOpen e = t.is_closed e.1.conn ≡ false

  reap-IsOpen :
      (m : Map Scid (Client C H)) (routes : Map (List ℕ) Scid)
      → All IsOpen (reap t sys q m routes).0
  reap-IsOpen [] routes = tt
  reap-IsOpen ((cid, c) ∷ m) routes = elim (Bool-cases (t.is_closed c.conn)) [
    | inl e ↦ rw e (reap-IsOpen m _)
    | inr e ↦ rw e (e, reap-IsOpen m routes)
  ]

  reap-kept :
      (m : Map Scid (Client C H)) (routes : Map (List ℕ) Scid) (scid : Scid) (client : Client C H)
      → get scid m ≡ some client
      → t.is_closed client.conn ≡ false
      → get scid (reap t sys q m routes).0 ≡ some client
  unfolding get
  reap-kept [] routes scid client h open' = cc
  reap-kept ((cid, c) ∷ m) routes scid client h open' = elim (Bool-cases (bytes_beq scid cid)) [
    | inl a ↦
        let same : c ≡ client = cc (rw a at h) in
        let kept : t.is_closed c.conn ≡ false = ap (λ x. t.is_closed x.conn) same ∙ open' in
        rw (kept, a) (ap some same)
    | inr a ↦ elim (Bool-cases (t.is_closed c.conn)) [
      | inl e ↦ rw e (reap-kept m _ scid client (rw a at h) open')
      | inr e ↦ rw (e, a) (reap-kept m routes scid client (rw a at h) open')
    ]
  ]

  -- The reaping leaves no client whose connection is closed, and keeps every other as it is.
  pub reap_closed_lem :
      (s : Server C H)
      → All IsOpen (reap_closed t sys q s).clients
        × ((scid : Scid) (client : Client C H)
            → get scid s.clients ≡ some client
            → t.is_closed client.conn ≡ false
            → get scid (reap_closed t sys q s).clients ≡ some client)
  unfolding reap_closed
  reap_closed_lem s = (reap-IsOpen s.clients s.routes, reap-kept s.clients s.routes)
