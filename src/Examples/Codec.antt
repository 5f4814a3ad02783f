-- ===== src/Examples/Codec.antt =====
-- Examples of the varints, the datagrams and the endpoints.
use zeromasque.Prelude.{
  take, drop, ◌+◌, ℕ, ◌^◌, ◌≤◌, ◌<◌, ◌≡◌, ◌≢◌, refl, List, [], ◌∷◌, ◌++◌, some, arith, length, take,
}
use zeromasque.Prelude.Result.{ok}
use zeromasque.Bytes.{be_bytes, read_be}
use zeromasque.Varint
use zeromasque.Varint.RoundTrip.{decode-encode_appended}
use zeromasque.Dgram
use zeromasque.Dgram.{Parsed}
use zeromasque.Dgram.RoundTrip.{decode-encode_flow, decode_splits}
use zeromasque.Text.{Text, codes, split_once, find_byte}
use zeromasque.Endpoint.{Endpoint, parse}
use zeromasque.Endpoint.Parse.{parse_sound, parse_complete, Splits}

varint_wide : Varint.encode 16384 [] ≡ 128 ∷ 0 ∷ 64 ∷ 0 ∷ []
unfolding Varint.encode be_bytes
varint_wide = refl

decode-encode_appended_example :
    (take 2 (Varint.encode 16384 (5 ∷ 6 ∷ [])) ≡ 5 ∷ 6 ∷ [])
    × (length (Varint.encode 16384 (5 ∷ 6 ∷ [])) ≡ 2 + Varint.encoded_len 16384)
    × (Varint.decode (drop 2 (Varint.encode 16384 (5 ∷ 6 ∷ [])) ++ 7 ∷ [])
        ≡ some (16384, Varint.encoded_len 16384))
decode-encode_appended_example = decode-encode_appended 16384 (5 ∷ 6 ∷ []) (7 ∷ []) (omega arith)

two_bytes : Varint.decode (64 ∷ 37 ∷ []) ≡ some (37, 2)
unfolding Varint.decode read_be
two_bytes = refl

decode-encode_flow_example :
    Dgram.decode (Dgram.encode 300 (1 ∷ 2 ∷ []))
    ≡ some (record { flow_id = 300; context_id = 0; payload = 1 ∷ 2 ∷ [] })
decode-encode_flow_example = decode-encode_flow 300 (1 ∷ 2 ∷ []) (omega arith)

abbrev five_to : List ℕ
five_to = 5 ∷ 0 ∷ 9 ∷ 8 ∷ []

abbrev parsed_five : Parsed
parsed_five = record { flow_id = 5; context_id = 0; payload = 9 ∷ 8 ∷ [] }

five_decodes : Dgram.decode five_to ≡ some parsed_five
unfolding Dgram.decode Varint.decode read_be
five_decodes = refl

decode_splits_example :
    (n : ℕ) × (2 ≤ n)
    × (n ≤ 16)
    × (n ≤ length five_to)
    × (five_to ≡ take n five_to ++ 9 ∷ 8 ∷ [])
    × (5 < 2 ^ 62)
    × (0 < 2 ^ 62)
decode_splits_example =
    decode_splits five_to parsed_five (omega arith, (omega arith, (omega arith, (omega arith, tt))))
      five_decodes

abbrev proxy_path : Endpoint
proxy_path = record { authority = codes "a:1"; path = codes "/p" }

parses : parse (codes "https://a:1/p") ≡ ok proxy_path
unfolding parse split_once find_byte
parses = refl

parse_sound_example :
    (proxy_path.authority ≢ [])
    × ((scheme : Text) × (rest : Text) × (codes "https://a:1/p" ≡ scheme ++ (codes "://" ++ rest))
        × Splits rest proxy_path)
parse_sound_example = parse_sound (codes "https://a:1/p") proxy_path parses

apart : proxy_path.authority ≢ []
apart = λ e. cc e

parse_complete_example :
    (parse (codes "https" ++ (codes "://" ++ (codes "a:1" ++ codes "/p"))) ≡ ok proxy_path)
    × (parse (codes "https" ++ (codes "://" ++ codes "a:1"))
        ≡ ok (record { authority = codes "a:1"; path = codes "/" }))
parse_complete_example =
    parse_complete (codes "https") (codes "a:1") (codes "p")
      ((λ e. cc e), ((λ e. cc e), ((λ e. cc e), ((λ e. cc e), ((λ e. cc e), tt))))) apart
      ((λ e. cc e), ((λ e. cc e), ((λ e. cc e), tt)))
