-- ===== src/Client/Dial.antt =====
-- `dial` of src/client.rs: the QUIC connection to the proxy.
pub mod Admission
use zeromasque.Prelude.{
  ◌≡◌, refl, ap, ◌∙◌, sym, List, [], ◌∷◌, Option, none, some, Bool, true, false, subst,
}
use zeromasque.Prelude.Result.{Result, ok, err, ◌>>=◌, ok_or}
use zeromasque.Text.{Text, to_ascii_lowercase}
use zeromasque.Text.Utf8.{is_utf8}
use zeromasque.Net.{SocketAddr, is_ipv4}
use zeromasque.Quic.{Config, Call, QuicError, build_client_config}
use zeromasque.Rules.{RuleTable, Rule, decision, match_target, sni_guard, allowed_sni_hosts}
use zeromasque.Rules.Lookup.{First, match_target_lem}
use zeromasque.Rules.Hosts.{match_target-sni_guard}
use zeromasque.Startup.{ConnectParams}
use zeromasque.Server.Session.{Scid}
use zeromasque.Server.Bind.{unspecified}
use zeromasque.Server.Request.{ConnectRequest, parse}
use zeromasque.Client.{host_of, connect_headers}
use zeromasque.Client.Agreement.{host_of-host_of_authority, connect_headers-match_target}

pub data DialError : Type 0 where
  bad_config : QuicError → DialError
  unresolved bind_failed no_local_addr connect_failed : DialError

-- The arguments of `quiche::connect`.
pub record Dialing : Type 0 where
  pub server_name : Option Text
  pub scid : Scid
  pub local : SocketAddr
  pub peer : SocketAddr
  pub config : Config

pub record Dialed (C : Type 0) : Type 0 where
  pub conn : C
  pub local_addr : SocketAddr
  pub path : Text
  pub authority : Text

-- `to_socket_addrs`, the socket, which is a part of the state, the random id and `quiche::connect`.
pub record Dialer (W C : Type 0) : Type 0 where
  pub to_socket_addrs : Text → Option (List SocketAddr)
  pub bind_udp : SocketAddr → W → Bool × W
  pub enlarge_udp_buffers : W → W
  pub local_addr : W → Option SocketAddr
  pub random_scid : W → Scid × W
  pub connect : Dialing → W → Option C × W

module _ {W C : Type 0} (succeeds : Config → Call → Bool) (exists : Text → Bool)
    (os : Dialer W C) where
  abbrev pub first_of : List SocketAddr → Result DialError SocketAddr
  first_of [] = err unresolved
  first_of (a ∷ more) = ok a

  unfoldable pub resolve_authority : Text → Result DialError SocketAddr
  resolve_authority authority = do
    addrs ← ok_or (os.to_socket_addrs authority) unresolved
    first_of addrs

  abbrev pub config_of : Result QuicError Config → Result DialError Config
  config_of (ok c) = ok c
  config_of (err e) = err (bad_config e)

  abbrev pub peer_of : ConnectParams → Option SocketAddr → Result DialError SocketAddr
  peer_of p none = resolve_authority p.endpoint.authority
  peer_of p (some addr) = ok addr

  -- What does not touch the state of the system.
  abbrev pub prepared : ConnectParams → Result DialError (Config × SocketAddr)
  prepared p = do
    config ← config_of (build_client_config succeeds exists p.verify p.ech_config_list)
    proxy_addr ← peer_of p p.proxy_addr
    ok (config, proxy_addr)

  abbrev pub dialed : ConnectParams → SocketAddr → Option C × W → Result DialError (Dialed C) × W
  dialed p local (none, w) = (err connect_failed, w)
  dialed p local (some c, w) = (
    ok (record {
      conn = c;
      local_addr = local;
      path = p.endpoint.path;
      authority = p.endpoint.authority;
    }),
    w,
  )

  abbrev pub dialing : ConnectParams → Config → SocketAddr → SocketAddr → Scid → Dialing
  dialing p config proxy_addr local scid = record {
    server_name = some (host_of p.endpoint.authority);
    scid = scid;
    local = local;
    peer = proxy_addr;
    config = config;
  }

  abbrev pub from_local :
      ConnectParams → Config → SocketAddr → Option SocketAddr → W → Result DialError (Dialed C) × W
  from_local p config proxy_addr none w = (err no_local_addr, w)
  from_local p config proxy_addr (some local) w =
      let r = os.random_scid w in
      dialed p local (os.connect (dialing p config proxy_addr local r.0) r.1)

  abbrev pub from_socket :
      ConnectParams → Config → SocketAddr → Bool × W → Result DialError (Dialed C) × W
  from_socket p config proxy_addr (false, w) = (err bind_failed, w)
  from_socket p config proxy_addr (true, w) =
      let v = os.enlarge_udp_buffers w in from_local p config proxy_addr (os.local_addr v) v

  abbrev pub from_prepared :
      ConnectParams → Result DialError (Config × SocketAddr) → W → Result DialError (Dialed C) × W
  from_prepared p (err e) w = (err e, w)
  from_prepared p (ok (config, proxy_addr)) w =
      from_socket p config proxy_addr (os.bind_udp (unspecified (is_ipv4 proxy_addr)) w)

  unfoldable pub dial : ConnectParams → W → Result DialError (Dialed C) × W
  dial p w = from_prepared p (prepared p) w
