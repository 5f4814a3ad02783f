-- ===== src/Rules/Load.antt =====
-- `RuleTable::load` of src/rules.rs: which files it accepts, and the table that it makes of them.
use zeromasque.Prelude.{
  ℕ, ◌≡◌, ◌≢◌, ◌↔◌, ◌⊎◌, refl, subst, List, [], ◌∷◌, map, Option, none, some, arith, Option-cases,
  inl, inr,
}
use zeromasque.Prelude.Members.{Both}
use zeromasque.Prelude.Result.{Result, ok, >>=-eq-ok, Result-cases}
use zeromasque.Text.{Text}
use zeromasque.Endpoint
use zeromasque.Net.{SocketAddr}
use zeromasque.Rules.{
  Rule, RuleSpec, RuleJson, RuleTable, LoadError, rule_spec, resolve, load_rule, load_rules, load,
}

-- A timeout of 0 seconds turns it off.
abbrev pub Timeout : ℕ → Option ℕ → Type 0
Timeout secs d = ((secs ≡ 0) × (d ≡ none)) ⊎ ((secs ≢ 0) × (d ≡ some secs))

module _ (to_socket_addrs : Text → Option (List SocketAddr))
    (from_str : Text → Option (List RuleJson)) where
  -- The rule that an entry of the file stands for.
  abbrev pub Loads : RuleSpec → Rule → Type 0
  Loads s r =
      (Endpoint.parse s.endpoint ≡ ok r.endpoint)
      × ((more : List SocketAddr) × (to_socket_addrs s.target ≡ some (r.target ∷ more)))
      × (r.transparent ≡ s.transparent)
      × (r.fwmark ≡ s.fwmark)
      × Timeout s.idle_timeout r.idle_timeout

  load_rule-Loads :
      (s : RuleSpec) (r : Rule) → load_rule to_socket_addrs from_str s ≡ ok r → Loads s r
  unfolding load_rule resolve
  load_rule-Loads s r h = elim (Result-cases (Endpoint.parse s.endpoint)) [
    | inr (x, bad) ↦ absurd (ground (arith, bad))
    | inl (e, parsed) ↦ elim (Option-cases (to_socket_addrs s.target)) [
      | inl gone ↦ absurd (ground (arith, parsed, gone))
      | inr ([], empty) ↦ absurd (ground (arith, parsed, empty))
      | inr (a ∷ more, found) ↦ (
        ground (arith, parsed, found),
        (more, ground (arith, parsed, found)),
        ground (arith, parsed, found),
        ground (arith, parsed, found),
        ground (arith, parsed, found),
      )
    ]
  ]

  Loads-load_rule :
      (s : RuleSpec) (r : Rule) → Loads s r → load_rule to_socket_addrs from_str s ≡ ok r
  unfolding load_rule
  Loads-load_rule s r (parsed, (more, found), transparent, mark, idle) =
      ground (arith, parsed, found, transparent, mark, idle)

  load_rules_sound :
      (specs : List RuleSpec) (rules : List Rule)
      → load_rules to_socket_addrs from_str specs ≡ ok rules
      → Both Loads specs rules
  unfolding load_rules
  load_rules_sound [] [] h = tt
  load_rules_sound [] (r ∷ rules) h = cc
  load_rules_sound (s ∷ specs) rules h =
      let (r, first, more) = >>=-eq-ok (load_rule to_socket_addrs from_str s) _ h in
      let (rs, later, e) = >>=-eq-ok (load_rules to_socket_addrs from_str specs) _ more in
      let joined : r ∷ rs ≡ rules = ground (arith, e) in
      rw (← joined) (load_rule-Loads s r first, load_rules_sound specs rs later)

  load_rules_complete :
      (specs : List RuleSpec) (rules : List Rule)
      → Both Loads specs rules
      → load_rules to_socket_addrs from_str specs ≡ ok rules
  unfolding load_rules
  load_rules_complete [] [] h = refl
  load_rules_complete [] (r ∷ rules) h = absurd h
  load_rules_complete (s ∷ specs) [] h = absurd h
  load_rules_complete (s ∷ specs) (r ∷ rules) h =
      rw (Loads-load_rule s r h.0, load_rules_complete specs rules h.1) refl

  -- `load` accepts a file exactly when it can be read and parsed, has an entry, and every entry has
  -- an endpoint that parses and a target that resolves; the table then has the entries' rules in
  -- their order, with the first address of each target and no timeout for a timeout of 0.
  pub load_lem :
      (file : Option Text) (t : RuleTable)
      → (load to_socket_addrs from_str file ≡ ok t) ↔ (
          (text : Text) × (objects : List RuleJson) × (file ≡ some text)
          × (from_str text ≡ some objects)
          × (objects ≢ [])
          × Both Loads (map rule_spec objects) t.rules)
  unfolding load
  load_lem file t = (sound file, λ w. complete file w.0 w.1 w.2 w.3 w.4 w.5)
    where
      same :
          (rs : List Rule)
          → ◌≡◌ {A = Result LoadError RuleTable} (ok (record { rules = rs })) (ok t)
          → rs ≡ t.rules
      same rs e = ground (arith, e)

      sound :
          (f : Option Text)
          → load to_socket_addrs from_str f ≡ ok t
          → (text : Text) × (objects : List RuleJson) × (f ≡ some text)
            × (from_str text ≡ some objects)
            × (objects ≢ [])
            × Both Loads (map rule_spec objects) t.rules
      sound none h = cc
      sound (some text) h = elim (Option-cases (from_str text)) [
        | inl gone ↦ absurd (ground (arith, gone))
        | inr ([], empty) ↦ absurd (ground (arith, empty))
        | inr (o ∷ os, found) ↦
            let h' = rw found at h in
            let (rs, loaded, e) =
              >>=-eq-ok (load_rules to_socket_addrs from_str (map rule_spec (o ∷ os))) _ h' in
            (
              text,
              o ∷ os,
              refl,
              found,
              λ x. cc,
              subst (Both Loads (map rule_spec (o ∷ os))) (same rs e)
                  (load_rules_sound _ rs loaded),
            )
      ]

      complete :
          (f : Option Text) (text : Text) (objects : List RuleJson)
          → f ≡ some text
          → from_str text ≡ some objects
          → objects ≢ []
          → Both Loads (map rule_spec objects) t.rules
          → load to_socket_addrs from_str f ≡ ok t
      complete f text [] e p ne b = absurd (ne refl)
      complete f text (o ∷ os) e p ne b =
          rw (e, p, load_rules_complete (map rule_spec (o ∷ os)) t.rules b) refl
