-- ===== src/Startup/Published.antt =====
-- The list of ECH configurations that src/ech/keygen.rs and src/main.rs print for the DNS record,
-- against `load_ech_config` of src/main.rs.
use zeromasque.Prelude.{
  ℕ, ◌≡◌, ◌⊎◌, inl, inr, refl, List, [], ◌∷◌, ◌++◌, map, Option, none, some, All, All-append, subst,
  length,
}
use mathlib.Core.Option.{some-injective}
use zeromasque.Prelude.Maybe.{>>=-eq-some}
use zeromasque.Prelude.Members.{All-map}
use zeromasque.Prelude.Result.{ok}
use zeromasque.Bytes.{IsByte, be_bytes}
use zeromasque.Bytes.Laws.{be_bytes-IsByte}
use zeromasque.Text.{Text}
use zeromasque.Text.Trim.{trim}
use zeromasque.Text.Trim.Laws.{IsSpace, trim-padding}
use zeromasque.Ech.Reader.{Reader, new, read_u16, remaining}
use zeromasque.Ech.Config.{EchConfig, encode, encode_all, encode_list, try_from}
use zeromasque.Ech.Config.RoundTrip.{IsConfig}
use zeromasque.Ech.Config.Framing.{Yields, encode_list-Yields}
use zeromasque.Ech.Pem.{Base64}
use zeromasque.Ech.Pem.RoundTrip.{Encodes, IsBase64, IsBase64-IsGraphic}
use zeromasque.Ech.Key.{EchKeyPair, EchKeySet, config_list_bytes}
use zeromasque.Ech.Key.RoundTrip.{IsPair, HasBytes, encode-IsByte}
use zeromasque.Startup.{ClientArgs, load_ech_config}

encode_all-IsByte :
    (cs : List EchConfig) (bytes : List ℕ)
    → All HasBytes cs
    → encode_all cs ≡ some bytes
    → All IsByte bytes
unfolding encode_all
encode_all-IsByte [] bytes h e = subst (All IsByte) (some-injective _ _ e) tt
encode_all-IsByte (c ∷ cs) bytes h e =
    let (first, e1, e2) = >>=-eq-some (encode c) _ e in
    let (more, e3, e4) = >>=-eq-some (encode_all cs) _ e2 in
    subst (All IsByte) (some-injective _ _ e4) (
      All-append IsByte first more (encode-IsByte c first h.0 e1)
        (encode_all-IsByte cs more h.1 e3))

encode_list-IsByte :
    (cs : List EchConfig) (bytes : List ℕ)
    → All HasBytes cs
    → encode_list cs ≡ some bytes
    → All IsByte bytes
unfolding encode_list
encode_list-IsByte cs bytes h e =
    let (body, e1, e2) = >>=-eq-some (encode_all cs) _ e in
    let (len, e3, e4) = >>=-eq-some (try_from 16 (length body)) _ e2 in
    subst (All IsByte) (some-injective _ _ e4) (
      All-append IsByte (be_bytes 2 len) body (be_bytes-IsByte 2 len)
        (encode_all-IsByte cs body h e1))

pair_configs :
    (ps : List EchKeyPair)
    → All IsPair ps
    → All HasBytes (map (λ p. p.config) ps) × All IsConfig (map (λ p. p.config) ps)
pair_configs [] h = (tt, tt)
pair_configs (p ∷ ps) h =
    let (bytes, configs) = pair_configs ps h.1 in ((h.0.2, bytes), (h.0.1, configs))

module _ (base64 : Base64) (e : Encodes base64) (read_to_string : Text → Option Text) where
  -- The argument, or the file that it names, holds the text with white space round it.
  abbrev pub Gives : ClientArgs → Text → Type 0
  Gives args text =
      (before : Text) × (after : Text) × All IsSpace before
      × All IsSpace after
      × ((args.ech_config ≡ some (before ++ (text ++ after)))
          ⊎ ((path : Text) × (args.ech_config ≡ none)
              × (args.ech_config_file ≡ some path)
              × (read_to_string path ≡ some (before ++ (text ++ after)))))

  trimmed :
      (text before after : Text)
      → All IsBase64 text
      → All IsSpace before
      → All IsSpace after
      → trim (before ++ (text ++ after)) ≡ text
  trimmed text before after h hb ha =
      trim-padding before text after hb (All-map IsBase64-IsGraphic text h) ha

  load-Gives :
      (args : ClientArgs) (text : Text) (bytes : List ℕ)
      → All IsBase64 text
      → Gives args text
      → base64.decode_vec text ≡ some bytes
      → load_ech_config base64 read_to_string args ≡ ok (some bytes)
  unfolding load_ech_config
  load-Gives args text bytes h (before, after, hb, ha, inl given) d =
      rw (given, trimmed text before after h hb ha, d) refl
  load-Gives args text bytes h (before, after, hb, ha, inr (path, no_text, file, content)) d =
      rw (no_text, file, content, trimmed text before after h hb ha, d) refl

  -- What a server publishes is what its clients offer: for a key set whose pairs are in order, the
  -- base64 of `config_list_bytes`, given to a client as an argument or in a file, with any spaces and
  -- ends of lines round it, is loaded as these bytes, and they are the length of a list and then the
  -- configurations of the set, one by one and in their order.
  pub load_ech_config-config_list :
      (set : EchKeySet) (bytes : List ℕ) (args : ClientArgs)
      → All IsPair set.pairs
      → config_list_bytes set ≡ some bytes
      → Gives args (base64.encode_string bytes)
      → (load_ech_config base64 read_to_string args ≡ ok (some bytes))
        × ((len : ℕ) × (r : Reader) × (read_u16 (new bytes) ≡ ok (len, r))
            × (len ≡ remaining r)
            × Yields r (map (λ p. p.config) set.pairs))
  unfolding config_list_bytes
  load_ech_config-config_list set bytes args h e' g =
      let (hb, hc) = pair_configs set.pairs h in
      let all_bytes = encode_list-IsByte (map (λ p. p.config) set.pairs) bytes hb e' in
      (
        load-Gives args (base64.encode_string bytes) bytes (e.alphabet bytes all_bytes) g
            (e.decodes bytes all_bytes),
        encode_list-Yields (map (λ p. p.config) set.pairs) bytes hc e',
      )
