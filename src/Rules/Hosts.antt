-- ===== src/Rules/Hosts.antt =====
-- The host names that src/rules.rs allows, and the guard of src/quic.rs that checks them.
use zeromasque.Prelude.{
  ℕ, ◌≡◌, ◌↔◌, ◌⊎◌, ◌∙◌, refl, sym, ap, subst, List, [], ◌∷◌, ◌++◌, none, some, Bool, true, false,
  arith, any, if◌then◌else◌, Bool-cases, inl, inr, bytes_beq, bytes_beq_sound, bytes_beq_refl,
}
use zeromasque.Prelude.Members.{
  In, Distinct, In-append, In-append_left, In-append_right, Distinct-snoc, any-In, In-any,
}
use zeromasque.Text.{Text, to_ascii_lowercase, ascii_lower, eq_ignore_ascii_case}
use zeromasque.Rules.Lookup.{match_target_lem}
use zeromasque.Rules.{
  Rule, RuleTable, RuleMatch, host_of_authority, gather_hosts, allowed_sni_hosts, sni_guard,
  match_target,
}

-- The host of a rule's authority, in lower case.
abbrev pub host : Rule → Text
host r = to_ascii_lowercase (host_of_authority r.endpoint.authority)

listed : (h : Text) (hs : List Text) → any (bytes_beq h) hs ≡ true → In h hs
listed h hs e =
    let (x, i, q) = In-any (bytes_beq h) hs e in
    subst (λ t. In t hs) (sym (bytes_beq_sound h x q)) i

unlisted : (h : Text) (hs : List Text) → any (bytes_beq h) hs ≡ false → ¬ In h hs
unlisted h hs e i = cc (any-In (bytes_beq h) h hs i (bytes_beq_refl h))

-- What the loop makes of a list of hosts: no duplicates, and the hosts of the rules added.
abbrev Gathers : List Text → List Rule → List Text → Type 0
Gathers hs rs out =
    (Distinct hs → Distinct out)
    × ((h : Text) → In h out ↔ (In h hs ⊎ ((r : Rule) × In r rs × (h ≡ host r))))

-- One round: `x` is a member from here on.
abbrev Adds : Text → List Text → List Text → Type 0
Adds x hs hs' = (Distinct hs → Distinct hs') × ((h : Text) → In h hs' ↔ (In h hs ⊎ (h ≡ x)))

add_host-Adds :
    (x : Text) (hs : List Text) → Adds x hs (if any (bytes_beq x) hs then hs else hs ++ x ∷ [])
add_host-Adds x hs = elim (Bool-cases (any (bytes_beq x) hs)) [
  | inl old ↦ rw old (λ d. d, λ h. (λ i. inl i, known old h))
  | inr new ↦ rw new (
    λ d. Distinct-snoc hs x d (unlisted x hs new),
    λ h. (λ i. split h (In-append h hs (x ∷ []) i), join h),
  )
]
  where
    known : any (bytes_beq x) hs ≡ true → (h : Text) → In h hs ⊎ (h ≡ x) → In h hs
    known old h (inl i) = i
    known old h (inr e) = subst (λ t. In t hs) (sym e) (listed x hs old)

    split : (h : Text) → In h hs ⊎ In h (x ∷ []) → In h hs ⊎ (h ≡ x)
    split h (inl i) = inl i
    split h (inr (inl e)) = inr e
    split h (inr (inr b)) = absurd b

    join : (h : Text) → In h hs ⊎ (h ≡ x) → In h (hs ++ x ∷ [])
    join h (inl i) = In-append_left h hs (x ∷ []) i
    join h (inr e) = In-append_right h hs (x ∷ []) (inl e)

Gathers-cons :
    (hs hs' out : List Text) (r : Rule) (rs : List Rule)
    → Adds (host r) hs hs'
    → Gathers hs' rs out
    → Gathers hs (r ∷ rs) out
Gathers-cons hs hs' out r rs (d, adds) (d', gathers) =
    (λ x. d' (d x), λ h. (λ i. there h ((gathers h).0 i), λ w. (gathers h).1 (back h w)))
  where
    there :
        (h : Text)
        → In h hs' ⊎ ((q : Rule) × In q rs × (h ≡ host q))
        → In h hs ⊎ ((q : Rule) × In q (r ∷ rs) × (h ≡ host q))
    there h (inl i) = elim ((adds h).0 i) [ inl j ↦ inl j | inr e ↦ inr (r, inl refl, e) ]
    there h (inr (q, i, e)) = inr (q, inr i, e)

    back :
        (h : Text)
        → In h hs ⊎ ((q : Rule) × In q (r ∷ rs) × (h ≡ host q))
        → In h hs' ⊎ ((q : Rule) × In q rs × (h ≡ host q))
    back h (inl i) = inl ((adds h).1 (inl i))
    back h (inr (q, inl e, f)) = inl ((adds h).1 (inr (f ∙ ap host e)))
    back h (inr (q, inr i, f)) = inr (q, i, f)

gather_hosts-Gathers : (hs : List Text) (rs : List Rule) → Gathers hs rs (gather_hosts hs rs)
unfolding gather_hosts
gather_hosts-Gathers hs [] =
    (λ d. d, λ h. (λ i. inl i, λ w. elim w [ inl i ↦ i | inr x ↦ absurd x.1 ]))
gather_hosts-Gathers hs (r ∷ rs) =
    Gathers-cons hs _ _ r rs (add_host-Adds (host r) hs)
      (gather_hosts-Gathers (if any (bytes_beq (host r)) hs then hs else hs ++ host r ∷ []) rs)

-- The allowed hosts are the lower-case hosts of the rules' authorities, each of them once.
pub allowed_sni_hosts_lem :
    (t : RuleTable)
    → Distinct (allowed_sni_hosts t)
      × ((h : Text) → In h (allowed_sni_hosts t) ↔ ((r : Rule) × In r t.rules × (h ≡ host r)))
unfolding allowed_sni_hosts
allowed_sni_hosts_lem t =
    let (distinct, members) = gather_hosts-Gathers [] t.rules in
    (
      distinct tt,
      λ h. (
        λ i. elim ((members h).0 i) [ inl b ↦ absurd b | inr w ↦ w ],
        λ w. (members h).1 (inr w),
      ),
    )

ascii_lower_idem : (c : ℕ) → ascii_lower (ascii_lower c) ≡ ascii_lower c
ascii_lower_idem c = ground arith

to_ascii_lowercase_idem :
    (s : Text) → to_ascii_lowercase (to_ascii_lowercase s) ≡ to_ascii_lowercase s
unfolding to_ascii_lowercase
to_ascii_lowercase_idem [] = refl
to_ascii_lowercase_idem (c ∷ s) = cc (ascii_lower_idem c, to_ascii_lowercase_idem s)

-- The guard lets a handshake on exactly when its SNI is, up to ASCII case, the host of a rule; one
-- without SNI is refused.
pub sni_guard_lem :
    (t : RuleTable) (sni : Text)
    → ((sni_guard (allowed_sni_hosts t) (some sni) ≡ true)
        ↔ ((r : Rule) × In r t.rules × (to_ascii_lowercase sni ≡ host r)))
      × (sni_guard (allowed_sni_hosts t) none ≡ false)
unfolding sni_guard eq_ignore_ascii_case
sni_guard_lem t sni = ((sound, complete), refl)
  where
    test : Text → Bool
    test h = bytes_beq (to_ascii_lowercase h) (to_ascii_lowercase sni)

    sound :
        any test (allowed_sni_hosts t) ≡ true
        → (r : Rule) × In r t.rules × (to_ascii_lowercase sni ≡ host r)
    sound e =
        let (h, i, q) = In-any test (allowed_sni_hosts t) e in
        let (r, j, f) = ((allowed_sni_hosts_lem t).1 h).0 i in
        (r, j, sym (bytes_beq_sound _ _ q) ∙ ap to_ascii_lowercase f ∙ to_ascii_lowercase_idem _)

    complete :
        ((r : Rule) × In r t.rules × (to_ascii_lowercase sni ≡ host r))
        → any test (allowed_sni_hosts t) ≡ true
    complete (r, j, f) =
        any-In test (host r) (allowed_sni_hosts t)
          (((allowed_sni_hosts_lem t).1 (host r)).1 (r, j, refl))
          (rw (to_ascii_lowercase_idem (host_of_authority r.endpoint.authority), f)
            (bytes_beq_refl (host r)))

-- A request that the table forwards can come over a connection whose SNI is the host of the
-- request's authority: the guard made from the same table accepts it, in any case.
pub match_target-sni_guard :
    (t : RuleTable) (authority path sni : Text) (m : RuleMatch)
    → match_target t authority path ≡ some m
    → to_ascii_lowercase sni ≡ to_ascii_lowercase (host_of_authority authority)
    → sni_guard (allowed_sni_hosts t) (some sni) ≡ true
match_target-sni_guard t authority path sni m h same =
    let (r, first, _) = ((match_target_lem t authority path).0 m).0 h in
    let (before, after, split, _, serving) = first in
    (sni_guard_lem t sni).0.1 (
      r,
      subst (λ rs. In r rs) (sym split) (In-append_right r before (r ∷ after) (inl refl)),
      same ∙ ap (λ a. to_ascii_lowercase (host_of_authority a)) (sym serving.0),
    )
