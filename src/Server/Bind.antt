-- ===== src/Server/Bind.antt =====
-- `bind_target` of src/server.rs: the socket that relays a flow to its target. The system calls are
-- parameters, in `Sockets`; those that say nothing on a failure but a line of the log are total.
pub mod Record
pub mod Calls
use zeromasque.Prelude.{ℕ, Option, none, some, Bool, true, false, not, ◌&&◌, if◌then◌else◌}
use zeromasque.Prelude.Result.{Result, ok, err}
use zeromasque.Map.{is_some}
use zeromasque.Net.{IpAddr, v4, v6, SocketAddr, ip_is_ipv4, is_ipv4, to_canonical}

pub data SystemError : Type 0 where
  addr_in_use other_error : SystemError

pub data BindError : Type 0 where
  system : SystemError → BindError
  families_differ fwmark_unsupported transparent_unsupported : BindError

pub data SockOption : Type 0 where
  so_mark ip_transparent ipv6_transparent : SockOption

pub data Domain : Type 0 where
  ipv4 ipv6 : Domain

-- A computation over the system's state that may fail.
abbrev pub Call : Type 0 → Type 0 → Type 0 → Type 0
Call E W A = W → Result E A × W

infixl 5 ◌>>=◌ ◌>>◌
abbrev pub bind_result : {E W A B : Type 0} → (A → Call E W B) → Result E A × W → Result E B × W
bind_result f (ok a, w) = f a w
bind_result f (err e, w) = (err e, w)

abbrev pub ◌>>=◌ : {E W A B : Type 0} → Call E W A → (A → Call E W B) → Call E W B
(m >>= f) w = bind_result f (m w)

abbrev pub ◌>>◌ : {E W B : Type 0} → Call E W (Unit {0}) → Call E W B → Call E W B
m >> k = m >>= λ _. k

abbrev pub give : {E W A : Type 0} → A → Call E W A
give a w = (ok a, w)

abbrev pub fail : {E W A : Type 0} → E → Call E W A
fail e w = (err e, w)

abbrev pub relabelled : {W A : Type 0} → Result SystemError A × W → Result BindError A × W
relabelled (ok a, w) = (ok a, w)
relabelled (err e, w) = (err (system e), w)

-- `.context(…)?`
abbrev pub context : {W A : Type 0} → Call SystemError W A → Call BindError W A
context m w = relabelled (m w)

pub record Sockets (W S : Type 0) : Type 0 where
  -- `std::net::UdpSocket::bind`
  pub bind_udp : SocketAddr → Call SystemError W S
  pub new_socket : Domain → Call SystemError W S
  pub enlarge_udp_buffers : S → W → W
  pub set_option : S → SockOption → ℕ → Call SystemError W (Unit {0})
  pub set_reuse_address : S → Call SystemError W (Unit {0})
  pub bind : S → SocketAddr → Call SystemError W (Unit {0})
  pub connect : S → SocketAddr → Call SystemError W (Unit {0})
  pub set_nonblocking : S → Call SystemError W (Unit {0})
  -- `monoio`'s `UdpSocket::from_std`
  pub from_std : S → Call SystemError W S

abbrev pub unspecified : Bool → SocketAddr
unspecified true = record { ip = v4 0; port = 0 }
unspecified false = record { ip = v6 0; port = 0 }

module _ {W S : Type 0} (linux : Bool) (os : Sockets W S) where
  abbrev pub enlarged : S → Call SystemError W (Unit {0})
  enlarged s w = (ok tt, os.enlarge_udp_buffers s w)

  abbrev pub set_so_mark : S → ℕ → Call SystemError W (Unit {0})
  set_so_mark s mark = os.set_option s so_mark mark

  -- `if let Some(mark) = fwmark { … }`
  abbrev pub marked : Option ℕ → S → Call SystemError W (Unit {0})
  marked none s = give tt
  marked (some mark) s = set_so_mark s mark

  abbrev pub domain_of : Bool → Bool → Option (Domain × Bool)
  domain_of true true = some (ipv4, false)
  domain_of false false = some (ipv6, true)
  domain_of true false = none
  domain_of false true = none

  -- The closure `make`.
  unfoldable pub make : SocketAddr → Option ℕ → Domain → Bool → SocketAddr → Call SystemError W S
  make target fwmark domain is_v6 src = do
    sock ← os.new_socket domain
    enlarged sock
    os.set_option sock (if is_v6 then ipv6_transparent else ip_transparent) 1
    marked fwmark sock
    os.set_reuse_address sock
    os.bind sock src
    os.connect sock target
    os.set_nonblocking sock
    give sock

  -- The second attempt, where the exact address is taken.
  abbrev pub or_ephemeral : Call BindError W S → Result SystemError S × W → Result BindError S × W
  or_ephemeral again (ok s, w) = (ok s, w)
  or_ephemeral again (err addr_in_use, w) = again w
  or_ephemeral again (err other_error, w) = (err (system other_error), w)

  abbrev pub made : SocketAddr → Option ℕ → IpAddr → ℕ → Domain → Bool → Call BindError W S
  made target fwmark src_ip port domain is_v6 w =
      or_ephemeral (context (make target fwmark domain is_v6 (record { ip = src_ip; port = 0 })))
        (make target fwmark domain is_v6 (record { ip = src_ip; port = port }) w)

  abbrev pub in_domain :
      SocketAddr → Option ℕ → IpAddr → ℕ → Option (Domain × Bool) → Call BindError W S
  in_domain target fwmark src_ip port none = fail families_differ
  in_domain target fwmark src_ip port (some (domain, is_v6)) = do
    sock ← made target fwmark src_ip port domain is_v6
    context (os.from_std sock)

  unfoldable pub bind_target_transparent : SocketAddr → SocketAddr → Option ℕ → Call BindError W S
  unfolding make
  bind_target_transparent target client_addr fwmark =
      let src_ip = to_canonical client_addr.ip in
      if linux
      then in_domain target fwmark src_ip client_addr.port
          (domain_of (ip_is_ipv4 src_ip) (is_ipv4 target))
      else fail transparent_unsupported

  abbrev pub bind_plain : SocketAddr → Option ℕ → Call BindError W S
  bind_plain target fwmark = do
    std_sock ← context (os.bind_udp (unspecified (is_ipv4 target)))
    context (enlarged std_sock)
    if linux then context (marked fwmark std_sock) else give tt
    context (os.connect std_sock target)
    context (os.set_nonblocking std_sock)
    context (os.from_std std_sock)

  unfoldable pub bind_target : SocketAddr → SocketAddr → Bool → Option ℕ → Call BindError W S
  unfolding bind_target_transparent
  bind_target target client_addr transparent fwmark =
      if transparent
      then bind_target_transparent target client_addr fwmark
      else if not linux && is_some fwmark
      then fail fwmark_unsupported
      else bind_plain target fwmark
