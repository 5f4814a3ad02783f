-- ===== src/Examples/Bundles.antt =====
-- Examples of the ECH key bundles, of key generation and of what a server publishes, with an encoding of
-- bytes by two letters in the place of base64.
use zeromasque.Prelude.{
  ℕ, ◌+◌, ◌-◌, ◌*◌, ◌/◌, ◌%◌, ◌<◌, ◌≡◌, ◌↔◌, refl, List, [], ◌∷◌, ◌++◌, map, Option, none, some,
  true, false, arith, All, inl, inr,
}
use zeromasque.Prelude.Result.{ok}
use zeromasque.Prelude.Members.{In}
use zeromasque.Bytes.{be_bytes}
use zeromasque.Text.{Text, codes}
use zeromasque.Text.Trim.{trim, lines, strip_suffix}
use mathlib.Core.List.{Permᴰ}
use zeromasque.Ech.Reader.{Reader, new, read_u16, remaining}
use zeromasque.Ech.Config.{encode_list, encode_all}
use zeromasque.Ech.Config.Framing.{Yields}
use zeromasque.Ech.Pem.{Base64}
use zeromasque.Ech.Pem.RoundTrip.{Encodes, IsBase64}
use zeromasque.Ech.Key.{
  EchKeyPair, EchKeySet, FileSystem, parse_pem_bundle, encode_pair_pem, load, config_list_bytes,
}
use zeromasque.Ech.Key.Loading.{Loads, load_iff-Loads}
use zeromasque.Ech.Key.Order.{load_ignores_order}
use zeromasque.Ech.Keygen.{Streams}
use zeromasque.Ech.Keygen.Laws.{IsPublicName}
use zeromasque.Ech.Keygen.Bundle.{Generates, run-Generates}
use zeromasque.Startup.{ClientArgs, load_ech_config}
use zeromasque.Startup.Published.{load_ech_config-config_list}
use zeromasque.Ech.Key.RoundTrip.{IsPair, encode_pairs, pem_of, parse_pem_bundle-encode_pairs}
use zeromasque.Examples.Toy.{localhost}
use zeromasque.Examples.Keys.{config, config-IsConfig, encoded, encodes}

unfoldable pub decode_letters : Text → Option (List ℕ)
decode_letters [] = some []
decode_letters (a ∷ []) = none
decode_letters (a ∷ b ∷ s) =
    mathlib.Core.Option.map (◌∷◌ ((a - 65) * 16 + (b - 65))) (decode_letters s)

unfoldable pub encode_letters : List ℕ → Text
encode_letters [] = []
encode_letters (b ∷ bs) = (65 + b / 16) ∷ (65 + b % 16) ∷ encode_letters bs

abbrev pub letters : Base64
letters = record { encode_string = encode_letters; decode_vec = decode_letters }

letters-alphabet : (bs : List ℕ) → All (λ b. b < 256) bs → All IsBase64 (encode_letters bs)
unfolding encode_letters
letters-alphabet [] h = tt
letters-alphabet (b ∷ bs) h =
    (inl (omega arith, omega arith), (inl (omega arith, omega arith), letters-alphabet bs h.1))

letters-decodes :
    (bs : List ℕ) → All (λ b. b < 256) bs → decode_letters (encode_letters bs) ≡ some bs
unfolding encode_letters decode_letters
letters-decodes [] h = refl
letters-decodes (b ∷ bs) h = rw (letters-decodes bs h.1) (ground arith)

pub letters-Encodes : Encodes letters
letters-Encodes = record { alphabet = letters-alphabet; decodes = letters-decodes }

abbrev pub pair : EchKeyPair
pair = record { private_key = 9 ∷ 10 ∷ []; config = config }

pub pair-IsPair : IsPair pair
pair-IsPair = (
  omega arith,
  config-IsConfig,
  record { id = omega arith; key = omega arith; max = omega arith; name = omega arith },
)

abbrev bundle : Text
bundle = pem_of letters (9 ∷ 10 ∷ []) encoded ++ []

bundled : encode_pairs letters (pair ∷ []) ≡ some bundle
unfolding encode_pair_pem
bundled = rw encodes refl

parse_pem_bundle-encode_pairs_example : parse_pem_bundle letters bundle ≡ ok (pair ∷ [])
parse_pem_bundle-encode_pairs_example =
    parse_pem_bundle-encode_pairs letters letters-Encodes (pair ∷ []) bundle (pair-IsPair, tt)
      bundled

-- A directory with one key file and a hidden one.
abbrev entries : List (Option Text)
entries = some (codes "a.pem") ∷ some (codes ".b") ∷ []

abbrev pub disk : FileSystem
disk = record {
  is_dir = λ path. some true;
  read_dir = λ path. some entries;
  join = λ dir name. dir ++ (codes "/" ++ name);
  is_file = λ path. true;
  read = λ path. some bundle;
}

abbrev pub key_set : EchKeySet
key_set = record { pairs = pair ∷ [] }

load_iff-Loads_example :
    (load letters disk (codes "keys") ≡ ok key_set) ↔ Loads letters disk (codes "keys") key_set
load_iff-Loads_example = load_iff-Loads letters disk (codes "keys") key_set

abbrev reversed : Text → Option (List (Option Text))
reversed path = some (some (codes ".b") ∷ some (codes "a.pem") ∷ [])

load_ignores_order_example :
    load letters disk (codes "keys")
    ≡ load letters (record disk { read_dir = reversed }) (codes "keys")
load_ignores_order_example =
    load_ignores_order letters disk reversed (codes "keys") (Permᴰ.swap refl refl)

abbrev console : Streams (List Text)
console = record {
  write_all = λ text w. (true, w ++ text ∷ []);
  flush = λ w. w;
  write_line = λ text w. (true, w ++ text ∷ []);
}

abbrev key32 : List ℕ
key32 =
    1 ∷ 2 ∷ 3 ∷ 4 ∷ 5 ∷ 6 ∷ 7 ∷ 8 ∷ 9 ∷ 10 ∷ 11 ∷ 12 ∷ 13 ∷ 14 ∷ 15 ∷ 16 ∷ 1 ∷ 2 ∷ 3 ∷ 4 ∷ 5 ∷ 6 ∷ 7
    ∷ 8 ∷ 9 ∷ 10 ∷ 11 ∷ 12 ∷ 13 ∷ 14 ∷ 15 ∷ 16 ∷ []

a_name : IsPublicName (codes "a.b")
a_name = (omega arith, omega arith, inr (inl refl), omega arith)

run-Generates_example : Generates letters letters-Encodes console 7 key32 key32 (codes "a.b") []
run-Generates_example =
    run-Generates letters letters-Encodes console 7 key32 key32 (codes "a.b") [] a_name
      (omega arith) refl (omega arith) (omega arith) (λ text. refl)

no_dot_there : ¬ In b'.' (codes "ab")
no_dot_there (inl e) = absurd (omega arith)
no_dot_there (inr (inl e)) = absurd (omega arith)
no_dot_there (inr (inr h)) = h

no_name : ¬ IsPublicName (codes "ab")
no_name h = no_dot_there h.2

a_list : config_list_bytes key_set ≡ some (0 ∷ 22 ∷ encoded)
unfolding config_list_bytes encode_list encode_all be_bytes
a_list = rw encodes refl

abbrev pub client_args : ClientArgs
client_args = record {
  endpoint = codes "https://A:1/p";
  listen = localhost 9;
  proxy_addr = none;
  insecure = false;
  ca = none;
  ech_config = none;
  ech_config_file = some (codes "list");
}

abbrev published : Text → Option Text
published path = some (32 ∷ (encode_letters (0 ∷ 22 ∷ encoded) ++ 10 ∷ []))

load_ech_config-config_list_example :
    (load_ech_config letters published client_args ≡ ok (some (0 ∷ 22 ∷ encoded)))
    × ((len : ℕ) × (r : Reader) × (read_u16 (new (0 ∷ 22 ∷ encoded)) ≡ ok (len, r))
        × (len ≡ remaining r)
        × Yields r (config ∷ []))
load_ech_config-config_list_example =
    load_ech_config-config_list letters letters-Encodes published key_set (0 ∷ 22 ∷ encoded)
      client_args (pair-IsPair, tt) a_list
      (32 ∷ [], 10 ∷ [], omega arith, omega arith, inr (codes "list", refl, refl, refl))

-- The lines of a text, trimmed.
lines_test :
    map trim (lines (codes " a b" ++ (13 ∷ 10 ∷ (10 ∷ codes "c"))))
    ≡ codes "a b" ∷ [] ∷ codes "c" ∷ []
unfolding lines trim
lines_test = refl

suffix_test : strip_suffix (codes "--") (codes "ab--") ≡ some (codes "ab")
unfolding strip_suffix
suffix_test = refl
