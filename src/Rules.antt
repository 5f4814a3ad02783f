-- ===== src/Rules.antt =====
-- src/rules.rs: the rule table that pins an endpoint to a forwarding target, its loading, and the
-- host names that it allows in the TLS SNI; and the guard of src/quic.rs that checks these.
pub mod Load
pub mod Lookup
pub mod Hosts
use zeromasque.Prelude.{
  ℕ, List, [], ◌∷◌, ◌++◌, Option, none, some, Bool, true, false, ◌&&◌, ◌||◌, ◌==◌, if◌then◌else◌,
  length, find, any, filter, bytes_beq,
}
use zeromasque.Prelude.Result.{Result, ok, err, ◌>>=◌, ◌>>◌, bail_if, ok_or}
use zeromasque.Text.{
  Text, codes, strip_prefix, split_once, rsplit_once, to_ascii_lowercase, eq_ignore_ascii_case,
}
use zeromasque.Endpoint
use zeromasque.Endpoint.{Endpoint}
use zeromasque.Net.{SocketAddr}
use mathlib.Core.Option
use mathlib.Core.List

abbrev pub before_or : Text → Option (Text × Text) → Text
before_or whole none = whole
before_or whole (some (before, _)) = before

-- The host inside brackets, if there is one; otherwise what stands before the last `:`.
abbrev pub bracketed : Text → Option (Text × Text)
bracketed authority = Option.bind (strip_prefix (codes "[") authority) (split_once (codes "]"))

abbrev pub host_choice : Text → Option (Text × Text) → Text
host_choice authority (some (host, _)) = host
host_choice authority none = before_or authority (rsplit_once b':' authority)

unfoldable pub host_of_authority : Text → Text
host_of_authority authority = host_choice authority (bracketed authority)

unfoldable pub default_idle_secs : ℕ
default_idle_secs = 35

-- A JSON object of the table, as serde hands it over: what `#[serde(default)]` marks may be absent.
pub record RuleJson : Type 0 where
  pub endpoint : Text
  pub target : Text
  pub transparent : Option Bool
  pub fwmark : Option ℕ
  pub idle_timeout : Option ℕ

pub record RuleSpec : Type 0 where
  pub endpoint : Text
  pub target : Text
  pub transparent : Bool
  pub fwmark : Option ℕ
  pub idle_timeout : ℕ

abbrev pub or_default {ℓ} : {A : Type ℓ} → A → Option A → A
or_default d none = d
or_default d (some a) = a

unfoldable pub rule_spec : RuleJson → RuleSpec
unfolding default_idle_secs
rule_spec j = record {
  endpoint = j.endpoint;
  target = j.target;
  transparent = or_default false j.transparent;
  fwmark = j.fwmark;
  idle_timeout = or_default default_idle_secs j.idle_timeout;
}

-- Durations are in seconds.
pub record Rule : Type 0 where
  pub endpoint : Endpoint
  pub target : SocketAddr
  pub transparent : Bool
  pub fwmark : Option ℕ
  pub idle_timeout : Option ℕ

pub record RuleMatch : Type 0 where
  pub target : SocketAddr
  pub transparent : Bool
  pub fwmark : Option ℕ
  pub idle_timeout : Option ℕ

pub record RuleTable : Type 0 where
  pub rules : List Rule

pub data LoadError : Type 0 where
  reading parsing empty_table : LoadError
  bad_endpoint : Endpoint.Error → LoadError
  resolving no_addresses : LoadError

abbrev first_address : List SocketAddr → Option SocketAddr
first_address [] = none
first_address (a ∷ as') = some a

abbrev endpoint_of : Result Endpoint.Error Endpoint → Result LoadError Endpoint
endpoint_of (ok e) = ok e
endpoint_of (err e) = err (bad_endpoint e)

abbrev pub no_specs : List RuleSpec → Bool
no_specs [] = true
no_specs (spec ∷ specs) = false

-- The system's resolver and the JSON reader are not the program's: they are parameters.
module _ (to_socket_addrs : Text → Option (List SocketAddr))
    (from_str : Text → Option (List RuleJson)) where
  unfoldable pub resolve : Text → Result LoadError SocketAddr
  resolve s = do
    addrs ← ok_or (to_socket_addrs s) resolving
    ok_or (first_address addrs) no_addresses

  -- One round of the loop in `load`.
  unfoldable pub load_rule : RuleSpec → Result LoadError Rule
  unfolding resolve
  load_rule spec = do
    endpoint ← endpoint_of (Endpoint.parse spec.endpoint)
    target ← resolve spec.target
    ok (record {
      endpoint = endpoint;
      target = target;
      transparent = spec.transparent;
      fwmark = spec.fwmark;
      idle_timeout = if spec.idle_timeout == 0 then none else some spec.idle_timeout;
    })

  unfoldable pub load_rules : List RuleSpec → Result LoadError (List Rule)
  unfolding load_rule
  load_rules [] = ok []
  load_rules (spec ∷ specs) = do rule ← load_rule spec; rules ← load_rules specs; ok (rule ∷ rules)

  -- `file` is what reading the file at the path gave.
  unfoldable pub load : Option Text → Result LoadError RuleTable
  load file = do
    text ← ok_or file reading
    objects ← ok_or (from_str text) parsing
    let specs = List.map rule_spec objects
    bail_if (no_specs specs) empty_table
    rules ← load_rules specs
    ok (record { rules = rules })

-- Whether a rule is for the request.
abbrev pub serves : Text → Text → Rule → Bool
serves authority path r =
    bytes_beq r.endpoint.authority authority && Endpoint.matches r.endpoint path

abbrev pub decision : Rule → RuleMatch
decision r = record {
  target = r.target;
  transparent = r.transparent;
  fwmark = r.fwmark;
  idle_timeout = r.idle_timeout;
}

unfoldable pub match_target : RuleTable → Text → Text → Option RuleMatch
match_target t authority path = Option.map decision (find (serves authority path) t.rules)

unfoldable pub len : RuleTable → ℕ
len t = length t.rules

-- The loop of `allowed_sni_hosts`, on the hosts gathered so far.
unfoldable pub gather_hosts : List Text → List Rule → List Text
gather_hosts hosts [] = hosts
gather_hosts hosts (r ∷ rs) =
    let host = to_ascii_lowercase (host_of_authority r.endpoint.authority) in
    gather_hosts (if any (bytes_beq host) hosts then hosts else hosts ++ host ∷ []) rs

unfoldable pub allowed_sni_hosts : RuleTable → List Text
unfolding gather_hosts
allowed_sni_hosts t = gather_hosts [] t.rules

abbrev is_some {ℓ} : {A : Type ℓ} → Option A → Bool
is_some none = false
is_some (some a) = true

unfoldable pub privileged_count : RuleTable → ℕ
privileged_count t = length (filter (λ (r : Rule). r.transparent || is_some r.fwmark) t.rules)

-- The callback of `install_sni_guard` in src/quic.rs: whether the handshake goes on.
unfoldable pub sni_guard : List Text → Option Text → Bool
sni_guard allowed_hosts none = false
sni_guard allowed_hosts (some sni) = any (λ h. eq_ignore_ascii_case h sni) allowed_hosts
