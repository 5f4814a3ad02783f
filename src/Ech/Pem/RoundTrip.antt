-- ===== src/Ech/Pem/RoundTrip.antt =====
-- `write_pem_block` and `parse_pem_blocks` of src/ech/key.rs against each other.
use zeromasque.Prelude.{
  ℕ, zero, suc, ◌≤◌, ◌<◌, ◌≡◌, ◌≢◌, ◌⊎◌, refl, ap, ◌∙◌, List, [], ◌∷◌, ◌++◌, none, some, false,
  arith, All, bytes_beq, bytes_beq_refl, append-nil, append_assoc, All-append, All-take, All-drop,
  drop, length,
}
use mathlib.Core.List.{reverse-append}
use zeromasque.Prelude.Result.{ok}
use zeromasque.Text.{Text, codes}
use zeromasque.Text.Trim.{trim, lines}
use zeromasque.Text.Trim.Laws.{
  IsGraphic, trim_kept, trim-graphic, IsLine, lines_line, strip_suffix-append,
}
use zeromasque.Prelude.Members.{All-map}
use zeromasque.Io.{concat, chunks, chunks_from}
use zeromasque.Io.Chunks.{concat-chunks}
use zeromasque.Ech.Pem.{
  Base64, PemBlock, dashes, begin_line, end_line, pem_step, label_of, Scan, block, scan_lines,
  body_lines, write_pem_block,
}

-- Letters, digits, `+`, `/` and the padding.
abbrev pub IsBase64 : ℕ → Type 0
IsBase64 c =
    ((b'A' ≤ c) × (c ≤ b'Z'))
    ⊎ ((b'a' ≤ c) × (c ≤ b'z'))
    ⊎ ((b'0' ≤ c) × (c ≤ b'9'))
    ⊎ (c ≡ b'+')
    ⊎ (c ≡ b'/')
    ⊎ (c ≡ b'=')

-- RFC 4648: the encoding of bytes is of its alphabet and decodes to them.
pub record Encodes (base64 : Base64) : Type 0 where
  pub alphabet :
      (bytes : List ℕ) → All (λ b. b < 256) bytes → All IsBase64 (base64.encode_string bytes)
  pub decodes :
      (bytes : List ℕ)
      → All (λ b. b < 256) bytes
      → base64.decode_vec (base64.encode_string bytes) ≡ some bytes

trim-begin : (label : Text) → trim (begin_line label) ≡ begin_line label
trim-begin label =
    trim_kept 45 45 _ _ (omega arith) (omega arith)
      (reverse-append (codes "-----BEGIN " ++ label) dashes)

trim-end : (label : Text) → trim (end_line label) ≡ end_line label
trim-end label =
    trim_kept 45 45 _ _ (omega arith) (omega arith)
      (reverse-append (codes "-----END " ++ label) dashes)

label_of-begin : (label : Text) → label_of (begin_line label) ≡ some label
unfolding label_of
label_of-begin label = strip_suffix-append 45 (codes "----") label

pub IsBase64-IsGraphic : (c : ℕ) → IsBase64 c → IsGraphic c
IsBase64-IsGraphic c h = ground arith

IsBase64-line : (c : ℕ) → IsBase64 c → (c ≢ 10) × (c ≢ 13)
IsBase64-line c h = ground arith

-- A line of base64 is no end of a block.
IsBase64-end : (label l : Text) → All IsBase64 l → bytes_beq l (end_line label) ≡ false
IsBase64-end label [] h = refl
IsBase64-end label (c ∷ l) h = ground (arith, h.0)

IsLine-begin : (label : Text) → IsLine label → IsLine (begin_line label)
IsLine-begin label h =
    All-append _ (codes "-----BEGIN ") (label ++ dashes) (ground arith)
      (All-append _ label dashes h (ground arith))

IsLine-end : (label : Text) → IsLine label → IsLine (end_line label)
IsLine-end label h =
    All-append _ (codes "-----END ") (label ++ dashes) (ground arith)
      (All-append _ label dashes h (ground arith))

chunks_from-All :
    (P : ℕ → Type 0) (fuel n : ℕ) (s : Text) → All P s → All (All P) (chunks_from fuel n s)
unfolding chunks_from
chunks_from-All P fuel n [] h = tt
chunks_from-All P zero n (c ∷ s) h = tt
chunks_from-All P (suc fuel) n (c ∷ s) h =
    (All-take P n (c ∷ s) h, chunks_from-All P fuel n (drop n (c ∷ s)) (All-drop P n (c ∷ s) h))

pub chunks-All : (P : ℕ → Type 0) (n : ℕ) (s : Text) → All P s → All (All P) (chunks n s)
unfolding chunks
chunks-All P n s h = chunks_from-All P (length s) n s h

module _ (base64 : Base64) where
  abbrev inside : Text → Text → List PemBlock → Scan
  inside label acc out = record { inside = some (label, acc); out = out }

  step_body :
      (label acc : Text) (out : List PemBlock) (c : Text)
      → All IsBase64 c
      → pem_step base64 (some (label, acc)) out (trim c) ≡ ok (inside label (acc ++ c) out)
  step_body label acc out [] h = rw (trim-graphic [] tt, append-nil) refl
  step_body label acc out (x ∷ c) h =
      rw (trim-graphic (x ∷ c) (All-map IsBase64-IsGraphic (x ∷ c) h), IsBase64-end label (x ∷ c) h)
        refl

  -- The lines of a body are gathered.
  scan_body :
      (label acc : Text) (out : List PemBlock) (cs : List Text) (rest : Text)
      → All (All IsBase64) cs
      → scan_lines base64 (inside label acc out) (lines (body_lines base64 cs ++ rest))
        ≡ scan_lines base64 (inside label (acc ++ concat cs) out) (lines rest)
  unfolding body_lines concat scan_lines
  scan_body label acc out [] rest h = rw append-nil refl
  scan_body label acc out (c ∷ cs) rest (hc, h) =
      rw
        (
          append_assoc c (10 ∷ body_lines base64 cs) rest,
          lines_line c (body_lines base64 cs ++ rest) (All-map IsBase64-line c hc),
          step_body label acc out c hc,
          ← append_assoc acc c (concat cs),
        )
        (scan_body label (acc ++ c) out cs rest h)

  abbrev pub idle : List PemBlock → Scan
  idle out = record { inside = none; out = out }

  step_begin :
      (label : Text) (out : List PemBlock)
      → pem_step base64 none out (trim (begin_line label)) ≡ ok (inside label [] out)
  step_begin label out = rw (trim-begin label, label_of-begin label) refl

  step_end :
      (label b64 : Text) (body : List ℕ) (out : List PemBlock)
      → base64.decode_vec b64 ≡ some body
      → pem_step base64 (some (label, b64)) out (trim (end_line label))
        ≡ ok (idle (out ++ block base64 label body ∷ []))
  step_end label b64 body out e = rw (trim-end label, bytes_beq_refl (end_line label), e) refl

  abbrev written : Text → List Text → Text → Text
  written label cs rest =
      begin_line label ++ (10 ∷ (body_lines base64 cs ++ (end_line label ++ (10 ∷ rest))))

  written_lem :
      (label : Text) (body : List ℕ) (rest : Text)
      → write_pem_block base64 label body ++ rest
        ≡ written label (chunks 64 (base64.encode_string body)) rest
  unfolding write_pem_block
  written_lem label body rest =
      let cs = body_lines base64 (chunks 64 (base64.encode_string body)) in
      append_assoc (begin_line label) (10 ∷ (cs ++ (end_line label ++ (10 ∷ [])))) rest
      ∙ ap (λ t. begin_line label ++ (10 ∷ t))
          (append_assoc cs (end_line label ++ (10 ∷ [])) rest
            ∙ ap (λ t. cs ++ t) (append_assoc (end_line label) (10 ∷ []) rest))

  scan_written :
      (label : Text) (body : List ℕ) (out : List PemBlock) (cs : List Text) (rest : Text)
      → IsLine label
      → All (All IsBase64) cs
      → base64.decode_vec (concat cs) ≡ some body
      → scan_lines base64 (idle out) (lines (written label cs rest))
        ≡ scan_lines base64 (idle (out ++ block base64 label body ∷ [])) (lines rest)
  unfolding scan_lines
  scan_written label body out cs rest h hc hd =
      ap (scan_lines base64 (idle out)) (lines_line (begin_line label) _ (IsLine-begin label h))
      ∙ rw (step_begin label out) refl
      ∙ scan_body label [] out cs (end_line label ++ (10 ∷ rest)) hc
      ∙ ap (scan_lines base64 (inside label (concat cs) out))
          (lines_line (end_line label) rest (IsLine-end label h))
      ∙ rw (step_end label (concat cs) body out hd) refl

  -- A written block is read back, and the scan goes on behind it.
  pub scan_block :
      (label : Text) (body : List ℕ) (out : List PemBlock) (rest : Text)
      → IsLine label
      → All IsBase64 (base64.encode_string body)
      → base64.decode_vec (base64.encode_string body) ≡ some body
      → scan_lines base64 (idle out) (lines (write_pem_block base64 label body ++ rest))
        ≡ scan_lines base64 (idle (out ++ block base64 label body ∷ [])) (lines rest)
  scan_block label body out rest h ha hd =
      ap (λ t. scan_lines base64 (idle out) (lines t)) (written_lem label body rest)
      ∙ scan_written label body out (chunks 64 (base64.encode_string body)) rest h
          (chunks-All IsBase64 64 _ ha)
          (rw (concat-chunks 64 (base64.encode_string body) (omega arith)) hd)
