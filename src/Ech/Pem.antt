-- ===== src/Ech/Pem.antt =====
-- The PEM blocks of src/ech/key.rs: `parse_pem_blocks` and `write_pem_block`.
pub mod RoundTrip
use zeromasque.Prelude.{ℕ, List, [], ◌∷◌, ◌++◌, Option, none, some, if◌then◌else◌, bytes_beq}
use zeromasque.Prelude.Maybe as Maybe
use zeromasque.Prelude.Result.{Result, ok, err, ◌>>=◌, ok_or}
use zeromasque.Text.{Text, codes, strip_prefix, is_empty}
use zeromasque.Text.Trim.{trim, lines, strip_suffix}
use zeromasque.Text.Utf8.{from_utf8}
use zeromasque.Io.{chunks}

-- `Base64` of the base64ct crate.
pub record Base64 : Type 0 where
  pub encode_string : List ℕ → Text
  pub decode_vec : Text → Option (List ℕ)

pub record PemBlock : Type 0 where
  pub label : Text
  pub body : List ℕ

pub data PemError : Type 0 where
  not_utf8 : PemError
  expected_begin missing_end bad_base64 : Text → PemError

abbrev pub dashes : Text
dashes = codes "-----"

abbrev pub begin_line : Text → Text
begin_line label = codes "-----BEGIN " ++ (label ++ dashes)

abbrev pub end_line : Text → Text
end_line label = codes "-----END " ++ (label ++ dashes)

-- The label of a line that begins a block.
unfoldable pub label_of : Text → Option Text
label_of t = Maybe.◌>>=◌ (strip_prefix (codes "-----BEGIN ") t) (strip_suffix dashes)

-- The blocks so far, and the label and the base64 of a block that has begun.
pub record Scan : Type 0 where
  pub inside : Option (Text × Text)
  pub out : List PemBlock

module _ (base64 : Base64) where
  abbrev pub block : Text → List ℕ → PemBlock
  block label body = record { label = label; body = body }

  abbrev pub finish : Text → Text → List PemBlock → Result PemError Scan
  finish label b64 out = do
    body ← ok_or (base64.decode_vec b64) (bad_base64 label)
    ok (record { inside = none; out = out ++ block label body ∷ [] })

  abbrev pub outside : List PemBlock → Text → Result PemError Scan
  outside out t = do
    label ← ok_or (label_of t) (expected_begin t)
    ok (record { inside = some (label, []); out = out })

  -- A trimmed line.
  abbrev pub pem_step : Option (Text × Text) → List PemBlock → Text → Result PemError Scan
  pem_step none out t =
      if is_empty t then ok (record { inside = none; out = out }) else outside out t
  pem_step (some (label, b64)) out t =
      if bytes_beq t (end_line label)
      then finish label b64 out
      else if is_empty t
      then ok (record { inside = some (label, b64); out = out })
      else ok (record { inside = some (label, b64 ++ t); out = out })

  abbrev pub pem_end : Option (Text × Text) → List PemBlock → Result PemError (List PemBlock)
  pem_end none out = ok out
  pem_end (some (label, b64)) out = err (missing_end label)

  unfoldable pub scan_lines : Scan → List Text → Result PemError (List PemBlock)
  scan_lines s [] = pem_end s.inside s.out
  scan_lines s (line ∷ ls) = do s' ← pem_step s.inside s.out (trim line); scan_lines s' ls

  unfoldable pub parse_pem_blocks : List ℕ → Result PemError (List PemBlock)
  parse_pem_blocks bytes = do
    text ← ok_or (from_utf8 bytes) not_utf8
    scan_lines (record { inside = none; out = [] }) (lines text)

  unfoldable pub body_lines : List Text → Text
  body_lines [] = []
  body_lines (chunk ∷ cs) = chunk ++ (10 ∷ body_lines cs)

  -- What it appends to `out`. Base64 is ASCII, so that `from_utf8` of a chunk does not fail.
  unfoldable pub write_pem_block : Text → List ℕ → Text
  write_pem_block label body =
      begin_line label
      ++ (10
          ∷ (body_lines (chunks 64 (base64.encode_string body)) ++ (end_line label ++ (10 ∷ []))))
