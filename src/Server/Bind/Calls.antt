-- ===== src/Server/Bind/Calls.antt =====
-- `bind_target` of src/server.rs: the system calls that it makes, in their order.
use zeromasque.Prelude.{
  ℕ, ◌≡◌, ◌⊎◌, inl, inr, refl, ap, ◌∙◌, [], ◌∷◌, ◌++◌, Option, none, some, Bool, true, false,
  append_assoc, subst, if◌then◌else◌,
}
use zeromasque.Prelude.Result.{Result, ok, err}
use zeromasque.Net.{SocketAddr, IpAddr, ip_is_ipv4, is_ipv4, to_canonical}
use zeromasque.Server.Bind.{
  SystemError, addr_in_use, other_error, BindError, families_differ, so_mark, ip_transparent,
  ipv6_transparent, Domain, Call, give, context, unspecified, domain_of, make,
  bind_target_transparent, bind_target, bind_result, marked, enlarged, or_ephemeral, in_domain,
  bind_plain,
}
use zeromasque.Server.Bind.Record.{
  Sys, udp_bound, opened, buffers, nonblocking, adopted, reuse_address, option, bound, connected,
  Log, answered, log, recorder, Made, Makes, shift-Made, bind-Made, then-Makes, give-Makes,
  context-Makes,
}

-- The calls for a mark.
abbrev pub mark_calls : Option ℕ → Log
mark_calls none = []
mark_calls (some mark) = option so_mark mark ∷ []

-- The calls of one attempt for a transparent socket.
abbrev pub attempt_calls : SocketAddr → Option ℕ → Domain → Bool → SocketAddr → Log
attempt_calls target fwmark domain is_v6 src =
    opened domain
      ∷ buffers
      ∷ option (if is_v6 then ipv6_transparent else ip_transparent) 1
      ∷ mark_calls fwmark
    ++ reuse_address ∷ bound src ∷ connected target ∷ nonblocking ∷ []

module _ (answers : Log → Sys → Option SystemError) where
  log-Made :
      (x : Sys) (o : Option SystemError) (w : Log) → Made (x ∷ []) w (answered o, w ++ x ∷ [])
  log-Made x none w = refl
  log-Made x (some e) w = (x ∷ [], [], refl, refl)

  log-Makes : (x : Sys) → Makes (x ∷ []) (log answers x)
  log-Makes x w = log-Made x (answers w x) w

  enlarged-Makes : (linux : Bool) → Makes (buffers ∷ []) (enlarged linux (recorder answers) tt)
  enlarged-Makes linux w = refl

  marked-Makes :
      (linux : Bool) (fwmark : Option ℕ)
      → Makes (mark_calls fwmark) (marked linux (recorder answers) fwmark tt)
  marked-Makes linux none = give-Makes SystemError tt
  marked-Makes linux (some mark) = log-Makes (option so_mark mark)

  make-Makes :
      (linux : Bool) (target : SocketAddr) (fwmark : Option ℕ) (domain : Domain) (is_v6 : Bool)
      (src : SocketAddr)
      → Makes
          (attempt_calls target fwmark domain is_v6 src)
          (make linux (recorder answers) target fwmark domain is_v6 src)
  unfolding make
  make-Makes linux target fwmark domain is_v6 src =
      then-Makes SystemError (opened domain ∷ []) _ _ _ (log-Makes (opened domain)) λ s.
        then-Makes SystemError (buffers ∷ []) _ (enlarged linux (recorder answers) s) _
          (enlarged-Makes linux)
          λ u.
            then-Makes SystemError
              (option (if is_v6 then ipv6_transparent else ip_transparent) 1 ∷ []) _ _ _
              (log-Makes _)
              λ u2.
                then-Makes SystemError (mark_calls fwmark) _ _ _ (marked-Makes linux fwmark) λ u3.
                  then-Makes SystemError (reuse_address ∷ []) _ _ _ (log-Makes reuse_address) λ u4.
                    then-Makes SystemError (bound src ∷ []) _ _ _ (log-Makes (bound src)) λ u5.
                      then-Makes SystemError (connected target ∷ []) _ _ _
                        (log-Makes (connected target))
                        λ u6.
                          then-Makes SystemError (nonblocking ∷ []) [] _ (λ x. give s)
                            (log-Makes nonblocking) λ u7. give-Makes SystemError tt

  -- The calls of `bind_target` for a rule that is not transparent.
  abbrev pub plain_calls : Bool → SocketAddr → Option ℕ → Log
  plain_calls linux target fwmark =
      udp_bound (unspecified (is_ipv4 target)) ∷ buffers ∷ (if linux then mark_calls fwmark else [])
      ++ connected target ∷ nonblocking ∷ adopted ∷ []

  mark-Makes :
      (linux : Bool) (fwmark : Option ℕ)
      → Makes
          (if linux then mark_calls fwmark else [])
          (if linux then context (marked linux (recorder answers) fwmark tt) else give tt)
  mark-Makes true fwmark = context-Makes _ _ (marked-Makes true fwmark)
  mark-Makes false fwmark = give-Makes BindError tt

  bind_plain-Makes :
      (linux : Bool) (target : SocketAddr) (fwmark : Option ℕ)
      → Makes (plain_calls linux target fwmark) (bind_plain linux (recorder answers) target fwmark)
  bind_plain-Makes linux target fwmark =
      then-Makes BindError (udp_bound _ ∷ []) _ _ _ (context-Makes _ _ (log-Makes (udp_bound _)))
        λ s.
          then-Makes BindError (buffers ∷ []) _ (context (enlarged linux (recorder answers) s)) _
            (context-Makes (buffers ∷ []) (enlarged linux (recorder answers) s)
              (enlarged-Makes linux))
            λ u.
              then-Makes BindError (if linux then mark_calls fwmark else []) _ _ _
                (mark-Makes linux fwmark)
                λ u1.
                  then-Makes BindError (connected target ∷ []) _ _ _
                    (context-Makes _ _ (log-Makes (connected target)))
                    λ u2.
                      then-Makes BindError (nonblocking ∷ []) _ _ _
                        (context-Makes _ _ (log-Makes nonblocking))
                        λ u3. context-Makes (adopted ∷ []) _ (log-Makes adopted)

  -- One attempt for the source address of the client, or, behind the calls of one that failed, a second
  -- one for the same address with a port of the system's choice.
  abbrev pub Attempts :
      SocketAddr
      → Option ℕ
      → Domain
      → Bool
      → IpAddr
      → ℕ
      → Log
      → Log
      → Result BindError (Unit {0}) × Log
      → Type 0
  Attempts target fwmark domain is_v6 ip port more w r =
      Made (attempt_calls target fwmark domain is_v6 (record { ip = ip; port = port }) ++ more) w r
      ⊎ ((pre : Log) × (rest : Log) × (attempt_calls target fwmark domain is_v6
              (record { ip = ip; port = port })
            ≡ pre ++ rest)
          × Made (attempt_calls target fwmark domain is_v6 (record { ip = ip; port = 0 }) ++ more)
              (w ++ pre) r)

  or_ephemeral-Attempts :
      (linux : Bool) (xs ys more w : Log) (again : Call BindError Log (Unit {0}))
      (r : Result SystemError (Unit {0}) × Log)
      → Made xs w r
      → Makes ys again
      → (f : Unit {0} → Call BindError Log (Unit {0})) → ((a : Unit {0}) → Makes more (f a))
      → Made (xs ++ more) w (bind_result f (or_ephemeral linux (recorder answers) again r))
        ⊎ ((pre : Log) × (rest : Log) × (xs ≡ pre ++ rest)
            × Made
                (ys ++ more)
                (w ++ pre)
                (bind_result f (or_ephemeral linux (recorder answers) again r)))
  or_ephemeral-Attempts linux xs ys more w again (ok u, v) h k f g =
      inl (shift-Made xs more w v (f u v) h (g u v))
  or_ephemeral-Attempts linux xs ys more w again (err addr_in_use, v) (pre, rest, e, cut) k f g =
      inr (
        pre,
        rest,
        cut,
        subst (λ t. Made (ys ++ more) t (bind_result f (again v))) e
            (bind-Made ys more v (again v) f (k v) g),
      )
  or_ephemeral-Attempts linux xs ys more w again (err other_error, v) (pre, rest, e, cut) k f g =
      inl (pre, rest ++ more, e, ap (λ t. t ++ more) cut ∙ append_assoc pre rest more)

  -- What `bind_target_transparent` is to do, by the families of the two addresses.
  abbrev pub Transparent :
      SocketAddr
      → Option ℕ
      → IpAddr
      → ℕ
      → Log
      → Option (Domain × Bool)
      → Result BindError (Unit {0}) × Log
      → Type 0
  Transparent target fwmark ip port w none r = r ≡ (err families_differ, w)
  Transparent target fwmark ip port w (some (domain, is_v6)) r =
      Attempts target fwmark domain is_v6 ip port (adopted ∷ []) w r

  in_domain-Transparent :
      (target : SocketAddr) (fwmark : Option ℕ) (ip : IpAddr) (port : ℕ)
      (o : Option (Domain × Bool)) (w : Log)
      → Transparent target fwmark ip port w o
          (in_domain true (recorder answers) target fwmark ip port o w)
  in_domain-Transparent target fwmark ip port none w = refl
  in_domain-Transparent target fwmark ip port (some (domain, is_v6)) w =
      or_ephemeral-Attempts true _ _ (adopted ∷ []) w _ _
        (make-Makes true target fwmark domain is_v6 (record { ip = ip; port = port }) w)
        (context-Makes _ _
          (make-Makes true target fwmark domain is_v6 (record { ip = ip; port = 0 })))
        (λ s. context (log answers adopted))
        (λ s. context-Makes (adopted ∷ []) _ (log-Makes adopted))

  -- On Linux, whatever the system answers: for a rule that is not transparent, the socket is bound to
  -- the unspecified address of the target's family, marked where the rule has a mark, and connected to the
  -- target, in this order; after a failure, the calls up to it were made. For a transparent rule, where
  -- the families of the target and of the client's canonical address differ, no call is made and the
  -- answer is an error; where they agree, the socket is made transparent and marked before it is bound to
  -- the client's canonical address and port, and then connected; if this fails, the same calls may have
  -- been made once more with the port 0, and no others.
  pub bind_target-Makes :
      (target client : SocketAddr) (fwmark : Option ℕ) (w : Log)
      → Made
          (plain_calls true target fwmark)
          w
          (bind_target true (recorder answers) target client false fwmark w)
        × Transparent target fwmark
            (to_canonical client.ip)
            client.port
            w
            (domain_of true
              (recorder answers)
              (ip_is_ipv4 (to_canonical client.ip))
              (is_ipv4 target))
            (bind_target true (recorder answers) target client true fwmark w)
  unfolding bind_target bind_target_transparent
  bind_target-Makes target client fwmark w = (
    bind_plain-Makes true target fwmark w,
    in_domain-Transparent target fwmark (to_canonical client.ip) client.port _ w,
  )
