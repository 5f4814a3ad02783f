-- ===== src/Io/Chunks.antt =====
-- Segments of src/io.rs: cutting a coalesced payload gives back the packets of a batch.
use zeromasque.Prelude.{
  ℕ, zero, suc, ◌^◌, ◌≤◌, ◌<◌, ◌≡◌, ◌∙◌, refl, sym, ap, List, [], ◌∷◌, ◌++◌, arith, length,
  length-append, length-drop, take-append-drop, map, Bool-cases, inl, inr, ltb, lt→ltb, true, ◌&&◌,
  take, drop, take-append_eq, drop-append_eq, append-nil, take_ge, drop_ge, Option, none, some,
}
use mathlib.Core.Path.{ap₂}
use zeromasque.Net.{SocketAddr}
use zeromasque.Io.{Packet, split_segments, concat, chunks, chunks_from}

-- A size that a segment can have: it is told to the kernel in 16 bits.
abbrev pub Fits : ℕ → Type 0
Fits n = (0 < n) × (n < 2 ^ 16)

-- Segments of one size, but for the last, which may be shorter and is not empty.
abbrev pub IsSegmented : ℕ → List Packet → Type 0
IsSegmented n [] = Unit {0}
IsSegmented n (p ∷ []) = (0 < length p) × (length p ≤ n)
IsSegmented n (p ∷ q ∷ ps) = (length p ≡ n) × IsSegmented n (q ∷ ps)

chunks_from-concat :
    (fuel n : ℕ) (ps : List Packet)
    → 0 < n
    → IsSegmented n ps
    → length (concat ps) ≤ fuel
    → chunks_from fuel n (concat ps) ≡ ps
unfolding concat chunks_from
chunks_from-concat fuel n [] pos h f = refl
chunks_from-concat zero n ([] ∷ []) pos h f = absurd (omega arith)
chunks_from-concat zero n ([] ∷ q ∷ ps) pos h f = absurd (omega arith)
chunks_from-concat zero n ((x ∷ xs) ∷ ps) pos h f = absurd (omega arith)
chunks_from-concat (suc fuel) n ([] ∷ []) pos h f = absurd (omega arith)
chunks_from-concat (suc fuel) n ((x ∷ xs) ∷ []) pos h f =
    rw (append-nil (x ∷ xs), take_ge n (x ∷ xs) h.1, drop_ge n (x ∷ xs) h.1) refl
chunks_from-concat (suc fuel) n ([] ∷ q ∷ ps) pos h f = absurd (omega arith)
chunks_from-concat (suc fuel) n ((x ∷ xs) ∷ q ∷ ps) pos h f =
    ap₂ ◌∷◌ (take-append_eq n (x ∷ xs) (concat (q ∷ ps)) (sym h.0)) (
      ap (chunks_from fuel n) (drop-append_eq n (x ∷ xs) (concat (q ∷ ps)) (sym h.0))
      ∙ chunks_from-concat fuel n (q ∷ ps) pos h.1
          (omega (arith, length-append (x ∷ xs) (concat (q ∷ ps)))))

pub chunks-concat :
    (n : ℕ) (ps : List Packet) → 0 < n → IsSegmented n ps → chunks n (concat ps) ≡ ps
unfolding chunks
chunks-concat n ps pos h = chunks_from-concat (length (concat ps)) n ps pos h (omega arith)

-- Chunks lose nothing, on any bytes.
concat-chunks_from :
    (fuel n : ℕ) (xs : List ℕ) → 0 < n → length xs ≤ fuel → concat (chunks_from fuel n xs) ≡ xs
unfolding concat chunks_from
concat-chunks_from fuel n [] pos f = refl
concat-chunks_from zero n (x ∷ xs) pos f = absurd (omega arith)
concat-chunks_from (suc fuel) n (x ∷ xs) pos f =
    ap (λ t. take n (x ∷ xs) ++ t)
      (concat-chunks_from fuel n (drop n (x ∷ xs)) pos (omega (arith, length-drop n (x ∷ xs))))
    ∙ take-append-drop n (x ∷ xs)

pub concat-chunks : (n : ℕ) (xs : List ℕ) → 0 < n → concat (chunks n xs) ≡ xs
unfolding chunks
concat-chunks n xs pos = concat-chunks_from (length xs) n xs pos (omega arith)

abbrev pub payloads : List (Packet × SocketAddr) → List Packet
payloads [] = []
payloads ((p, a) ∷ ps) = p ∷ payloads ps

payloads-map : (a : SocketAddr) (ps : List Packet) → payloads (map (λ p. (p, a)) ps) ≡ ps
payloads-map a [] = refl
payloads-map a (p ∷ ps) = ap (◌∷◌ p) (payloads-map a ps)

concat_pos :
    (n : ℕ) (q : Packet) (ps : List Packet)
    → 0 < n
    → IsSegmented n (q ∷ ps)
    → 0 < length (concat (q ∷ ps))
unfolding concat
concat_pos n q [] pos h = omega (arith, length-append q [])
concat_pos n q (r ∷ ps) pos h = omega (arith, length-append q (concat (r ∷ ps)))

longer :
    (n : ℕ) (p q : Packet) (ps : List Packet)
    → 0 < n
    → IsSegmented n (p ∷ q ∷ ps)
    → (ltb 0 n && ltb n (length (concat (p ∷ q ∷ ps)))) ≡ true
longer n p q ps pos h = rw (lt→ltb 0 n pos, lt→ltb n (length (concat (p ∷ q ∷ ps))) more) refl
  where
    more : n < length (concat (p ∷ q ∷ ps))
    more =
        unfold concat in omega (arith, length-append p (concat (q ∷ ps)), concat_pos n q ps pos h.1)

-- However the kernel coalesced what it read, the datagrams handed on are together the bytes read;
-- and where it coalesced a batch of segments of one size, they are the packets of that batch.
pub split_segments_lem :
    (buf : List ℕ) (from : SocketAddr) (gro_size : Option ℕ)
    → (concat (payloads (split_segments buf from gro_size)) ≡ buf)
      × ((n : ℕ) (p q : Packet) (ps : List Packet)
          → 0 < n
          → gro_size ≡ some n
          → buf ≡ concat (p ∷ q ∷ ps)
          → IsSegmented n (p ∷ q ∷ ps)
          → split_segments buf from gro_size ≡ map (λ s. (s, from)) (p ∷ q ∷ ps))
unfolding split_segments
split_segments_lem buf from gro_size = (
  whole gro_size,
  λ n p q ps pos g e h. rw (g, e, longer n p q ps pos h, chunks-concat n (p ∷ q ∷ ps) pos h) refl,
)
  where
    whole : (g : Option ℕ) → concat (payloads (split_segments buf from g)) ≡ buf
    whole none = unfold concat in append-nil buf
    whole (some g) = elim (Bool-cases (ltb 0 g && ltb g (length buf))) [
      | inl e ↦ rw e (
          ap concat (payloads-map from (chunks g buf))
          ∙ unfold chunks in concat-chunks_from (length buf) g buf (ground arith) (omega arith))
      | inr e ↦ rw e (unfold concat in append-nil buf)
    ]
