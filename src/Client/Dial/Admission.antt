-- ===== src/Client/Dial/Admission.antt =====
-- A connection of the client and the server that it is made to.
use zeromasque.Prelude.{◌≡◌, refl, ap, ◌∙◌, Option, none, some, Bool, true, false}
use zeromasque.Prelude.Result.{Result, ok, err}
use zeromasque.Text.{Text, to_ascii_lowercase}
use zeromasque.Text.Utf8.{is_utf8}
use zeromasque.Net.{SocketAddr}
use zeromasque.Quic.{Config, Call, build_client_config}
use zeromasque.Rules.{RuleTable, Rule, decision, match_target, sni_guard, allowed_sni_hosts}
use zeromasque.Rules.Lookup.{First, match_target_lem}
use zeromasque.Rules.Hosts.{match_target-sni_guard}
use zeromasque.Startup.{ConnectParams}
use zeromasque.Server.Session.{Scid}
use zeromasque.Server.Request.{ConnectRequest, parse}
use zeromasque.Client.{connect_headers}
use zeromasque.Client.Agreement.{host_of-host_of_authority, connect_headers-match_target}
use zeromasque.Prelude.Result.{>>=-eq-ok}
use zeromasque.Client.Dial
use zeromasque.Client.Dial.{
  DialError, Dialing, Dialed, Dialer, peer_of, prepared, dialed, dialing, from_local, from_socket,
  from_prepared, dial,
}

same_peer :
    (c d : Config) (a b : SocketAddr)
    → Path (Result DialError (Config × SocketAddr)) (ok (c, a)) (ok (d, b))
    → Path (Result DialError SocketAddr) (ok a) (ok b)
same_peer c d a b h = cc

module _ {W C : Type 0} (succeeds : Config → Call → Bool) (exists : Text → Bool)
    (os : Dialer W C) where
  -- The connection that `dial` returned is one that `quiche::connect` gave for these arguments.
  abbrev pub Dials : ConnectParams → Config → SocketAddr → Dialed C → W → Type 0
  Dials p config proxy_addr d w =
      (local : SocketAddr) × (scid : Scid) × (v : W) × (os.connect
          (dialing succeeds exists os p config proxy_addr local scid) v
        ≡ (some d.conn, w))
      × (d.authority ≡ p.endpoint.authority)
      × (d.path ≡ p.endpoint.path)

  dialed-Dials :
      (p : ConnectParams) (config : Config) (proxy_addr local : SocketAddr) (scid : Scid) (v w : W)
      (r : Option C × W) (d : Dialed C)
      → os.connect (dialing succeeds exists os p config proxy_addr local scid) v ≡ r
      → dialed succeeds exists os p local r ≡ (ok d, w)
      → Dials p config proxy_addr d w
  dialed-Dials p config proxy_addr local scid v w (none, x) d e h = cc
  dialed-Dials p config proxy_addr local scid v w (some c, x) d e h = (local, scid, v, cc, cc, cc)

  from_local-Dials :
      (p : ConnectParams) (config : Config) (proxy_addr : SocketAddr) (o : Option SocketAddr)
      (v w : W) (d : Dialed C)
      → from_local succeeds exists os p config proxy_addr o v ≡ (ok d, w)
      → Dials p config proxy_addr d w
  from_local-Dials p config proxy_addr none v w d h = cc
  from_local-Dials p config proxy_addr (some local) v w d h =
      dialed-Dials p config proxy_addr local (os.random_scid v).0 (os.random_scid v).1 w _ d refl h

  from_socket-Dials :
      (p : ConnectParams) (config : Config) (proxy_addr : SocketAddr) (r : Bool × W) (w : W)
      (d : Dialed C)
      → from_socket succeeds exists os p config proxy_addr r ≡ (ok d, w)
      → Dials p config proxy_addr d w
  from_socket-Dials p config proxy_addr (false, v) w d h = cc
  from_socket-Dials p config proxy_addr (true, v) w d h =
      from_local-Dials p config proxy_addr _ (os.enlarge_udp_buffers v) w d h

  from_prepared-Dials :
      (p : ConnectParams) (r : Result DialError (Config × SocketAddr)) (v w : W) (d : Dialed C)
      → from_prepared succeeds exists os p r v ≡ (ok d, w)
      → (config : Config) × (proxy_addr : SocketAddr) × (r ≡ ok (config, proxy_addr))
        × Dials p config proxy_addr d w
  from_prepared-Dials p (err e) v w d h = cc
  from_prepared-Dials p (ok (config, proxy_addr)) v w d h =
      (config, proxy_addr, refl, from_socket-Dials p config proxy_addr _ w d h)

  prepared-peer :
      (p : ConnectParams) (config : Config) (peer : SocketAddr)
      → prepared succeeds exists os p ≡ ok (config, peer)
      → peer_of succeeds exists os p p.proxy_addr ≡ ok peer
  prepared-peer p config peer h =
      let (c, e, h1) =
        >>=-eq-ok
          (Dial.config_of succeeds exists os
            (build_client_config succeeds exists p.verify p.ech_config_list))
          _ h in
      let (q, e1, h2) = >>=-eq-ok (peer_of succeeds exists os p p.proxy_addr) _ h1 in
      e1 ∙ same_peer c config q peer h2

  -- A request that the server serves, over a connection that it lets in.
  abbrev pub Admitted : RuleTable → Rule → Dialing → Dialed C → Type 0
  Admitted t r x d =
      (sni_guard (allowed_sni_hosts t) x.server_name ≡ true)
      × ((req : ConnectRequest) × (parse (connect_headers d.authority d.path) ≡ ok req)
          × (match_target t req.authority req.path ≡ some (decision r)))

  -- Where a rule of the server is the first with the authority of the client's endpoint and, up to the query,
  -- its path, and the endpoint is a text, every connection that `dial` returns is one that `quiche::connect`
  -- gave for a name that the server's SNI guard lets in, and to the address that was given or is the first
  -- that the authority resolves to; and the requests for its authority and path are served by that rule.
  pub dial-Admitted :
      (t : RuleTable) (r : Rule) (p : ConnectParams) (v w : W) (d : Dialed C)
      → is_utf8 p.endpoint.authority ≡ true
      → is_utf8 p.endpoint.path ≡ true
      → First p.endpoint.authority p.endpoint.path t.rules r
      → dial succeeds exists os p v ≡ (ok d, w)
      → (x : Dialing) × (u : W) × (os.connect x u ≡ (some d.conn, w))
        × (peer_of succeeds exists os p p.proxy_addr ≡ ok x.peer)
        × Admitted t r x d
  unfolding dial
  dial-Admitted t r p v w d ua up first h =
      let (config, peer, prep, (local, scid, u, conn, a, b)) =
        from_prepared-Dials p (prepared succeeds exists os p) v w d h in
      (
        dialing succeeds exists os p config peer local scid,
        u,
        conn,
        prepared-peer p config peer prep,
        (
          match_target-sni_guard t p.endpoint.authority p.endpoint.path _ (decision r)
              (((match_target_lem t p.endpoint.authority p.endpoint.path).0 (decision r)).1
                (r, first, refl))
              (ap to_ascii_lowercase (host_of-host_of_authority p.endpoint.authority)),
          rw (a, b)
              (connect_headers-match_target t p.endpoint.authority p.endpoint.path r ua up first),
        ),
      )
