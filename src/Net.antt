-- ===== src/Net.antt =====
-- `IpAddr` and `SocketAddr` of Rust's std::net, as far as the program uses them. An IPv4 address is
-- a number below 2 ^ 32, an IPv6 address one below 2 ^ 128.
use zeromasque.Prelude.{
  ℕ, ◌/◌, ◌%◌, ◌^◌, ◌≡◌, Bool, true, false, ◌&&◌, arith, ◌==◌, if◌then◌else◌, Eq, nat_beq_sound,
  nat_beq_refl, ap,
}

pub data IpAddr : Type 0 where
  v4 : ℕ → IpAddr
  v6 : ℕ → IpAddr

pub record SocketAddr : Type 0 where
  pub ip : IpAddr
  pub port : ℕ

abbrev pub ip_is_ipv4 : IpAddr → Bool
ip_is_ipv4 (v4 a) = true
ip_is_ipv4 (v6 a) = false

abbrev pub is_ipv4 : SocketAddr → Bool
is_ipv4 a = ip_is_ipv4 a.ip

-- `ip.to_canonical()`: an IPv4-mapped IPv6 address, `::ffff:a.b.c.d`, becomes the IPv4 address.
abbrev pub to_canonical : IpAddr → IpAddr
to_canonical (v4 a) = v4 a
to_canonical (v6 a) = if a / 2 ^ 32 == 0xffff then v4 (a % 2 ^ 32) else v6 a

abbrev pub ip_beq : IpAddr → IpAddr → Bool
ip_beq (v4 a) (v4 b) = a == b
ip_beq (v4 a) (v6 b) = false
ip_beq (v6 a) (v4 b) = false
ip_beq (v6 a) (v6 b) = a == b

abbrev pub addr_beq : SocketAddr → SocketAddr → Bool
addr_beq a b = ip_beq a.ip b.ip && a.port == b.port

ip_beq_sound : (a b : IpAddr) → ip_beq a b ≡ true → a ≡ b
ip_beq_sound (v4 a) (v4 b) h = ap v4 (nat_beq_sound a b h)
ip_beq_sound (v4 a) (v6 b) h = cc
ip_beq_sound (v6 a) (v4 b) h = cc
ip_beq_sound (v6 a) (v6 b) h = ap v6 (nat_beq_sound a b h)

ip_beq_refl : (a : IpAddr) → ip_beq a a ≡ true
ip_beq_refl (v4 a) = nat_beq_refl a
ip_beq_refl (v6 a) = nat_beq_refl a

pub addr_beq_sound : (a b : SocketAddr) → addr_beq a b ≡ true → a ≡ b
addr_beq_sound a b h = ground (arith, ip_beq_sound a.ip b.ip)

pub addr_beq_refl : (a : SocketAddr) → addr_beq a a ≡ true
addr_beq_refl a = ground (arith, ip_beq_refl a.ip)

instance abbrev pub addr_eq : Eq SocketAddr
addr_eq = record { beq = addr_beq; beq_sound = addr_beq_sound; beq_refl = addr_beq_refl }
