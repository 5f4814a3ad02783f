-- ===== src/Examples/Table.antt =====
-- Examples of the rules.
use zeromasque.Prelude.{◌≡◌, ◌≢◌, ◌↔◌, refl, List, [], ◌∷◌, map, Option, none, some, All}
use zeromasque.Prelude.Result.{ok}
use zeromasque.Prelude.Members.{In, Distinct, Both}
use zeromasque.Text.{Text, codes, to_ascii_lowercase, split_once, rsplit_once}
use zeromasque.Endpoint.{path_only, matches}
use zeromasque.Net.{SocketAddr}
use zeromasque.Rules.{
  Rule, RuleMatch, RuleJson, match_target, decision, allowed_sni_hosts, load, rule_spec,
  host_of_authority,
}
use zeromasque.Rules.Lookup.{match_target_lem, First, Serves}
use zeromasque.Rules.Hosts.{allowed_sni_hosts_lem, host}
use zeromasque.Rules.Load.{load_lem, Loads}
use zeromasque.Examples.Toy.{localhost, rule, table}

match_target_lem_example :
    ((m : RuleMatch)
      → (match_target table (codes "A:1") (codes "/p?q") ≡ some m)
        ↔ ((r : Rule) × First (codes "A:1") (codes "/p?q") table.rules r × (m ≡ decision r)))
    × ((match_target table (codes "A:1") (codes "/p?q") ≡ none)
        ↔ All (λ r. ¬ Serves (codes "A:1") (codes "/p?q") r) table.rules)
match_target_lem_example = match_target_lem table (codes "A:1") (codes "/p?q")

served : match_target table (codes "A:1") (codes "/p?q") ≡ some (decision rule)
unfolding match_target matches path_only split_once
served = refl

allowed_sni_hosts_lem_example :
    Distinct (allowed_sni_hosts table)
    × ((h : Text) → In h (allowed_sni_hosts table) ↔ ((r : Rule) × In r table.rules × (h ≡ host r)))
allowed_sni_hosts_lem_example = allowed_sni_hosts_lem table

same_name : to_ascii_lowercase (codes "a") ≡ to_ascii_lowercase (host_of_authority (codes "A:1"))
unfolding to_ascii_lowercase host_of_authority split_once rsplit_once mathlib.Core.Option.bind
same_name = refl

abbrev pub resolver : Text → Option (List SocketAddr)
resolver s = some (localhost 53 ∷ [])

abbrev pub entry : RuleJson
entry = record {
  endpoint = codes "https://A:1/p";
  target = codes "localhost:53";
  transparent = none;
  fwmark = none;
  idle_timeout = none;
}

abbrev pub reader : Text → Option (List RuleJson)
reader s = some (entry ∷ [])

load_lem_example : (load resolver reader (some (codes "x")) ≡ ok table) ↔ (
    (text : Text) × (objects : List RuleJson) × (some (codes "x") ≡ some text)
    × (reader text ≡ some objects)
    × (objects ≢ [])
    × Both (Loads resolver reader) (map rule_spec objects) table.rules)
load_lem_example = load_lem resolver reader (some (codes "x")) table
