-- ===== src/Ech/Reader/Laws.antt =====
-- The reads of src/ech/config.rs, seen on the bytes that are left.
use zeromasque.Prelude.{
  ℕ, zero, suc, ◌+◌, ◌*◌, ◌/◌, ◌%◌, ◌^◌, ◌≤◌, ◌<◌, ◌≡◌, ◌∙◌, refl, sym, ap, List, [], ◌∷◌, ◌++◌,
  arith, false, length, length-append, length-drop, length-take, drop, drop-append_eq,
  take-append_eq, ltb, le→ltb,
}
use zeromasque.Prelude.Result.{ok}
use zeromasque.Bytes.{be_bytes}
use zeromasque.Ech.Reader.{
  Reader, get_or, remaining, advance, read_u8, read_u16, read_u24, read_slice,
}

-- The bytes that are left.
abbrev pub At : Reader → List ℕ → Type 0
At r rest = drop r.pos r.buf ≡ rest

drop-nil : (n : ℕ) → drop {A = ℕ} n [] ≡ []
drop-nil zero = refl
drop-nil (suc n) = refl

drop-drop : (n m : ℕ) (xs : List ℕ) → drop (n + m) xs ≡ drop m (drop n xs)
drop-drop zero m xs = let e : 0 + m ≡ m = omega arith in ap (λ k. drop k xs) e
drop-drop (suc n) m [] = drop-nil (suc n + m) ∙ sym (drop-nil m)
drop-drop (suc n) m (x ∷ xs) =
    let e : suc n + m ≡ suc (n + m) = omega arith in ap (λ k. drop k (x ∷ xs)) e ∙ drop-drop n m xs

get_or-drop : (n i : ℕ) (xs : List ℕ) → get_or xs (n + i) 0 ≡ get_or (drop n xs) i 0
get_or-drop zero i xs = let e : 0 + i ≡ i = omega arith in ap (λ k. get_or xs k 0) e
get_or-drop (suc n) i [] = refl
get_or-drop (suc n) i (x ∷ xs) =
    let e : suc n + i ≡ suc (n + i) = omega arith in
    ap (λ k. get_or (x ∷ xs) k 0) e ∙ get_or-drop n i xs

-- The byte `i` places on, and the byte at the position.
byte-At :
    (r : Reader) (i : ℕ) (rest : List ℕ) → At r rest → get_or r.buf (r.pos + i) 0 ≡ get_or rest i 0
byte-At r i rest h = get_or-drop r.pos i r.buf ∙ ap (λ l. get_or l i 0) h

first_byte : (r : Reader) (rest : List ℕ) → At r rest → get_or r.buf r.pos 0 ≡ get_or rest 0 0
first_byte r rest h =
    let e : r.pos ≡ r.pos + 0 = omega arith in ap (λ k. get_or r.buf k 0) e ∙ byte-At r 0 rest h

pub remaining-At : (r : Reader) (rest : List ℕ) → At r rest → remaining r ≡ length rest
remaining-At r rest h = sym (length-drop r.pos r.buf) ∙ ap length h

pub advance-At :
    (r : Reader) (front rest : List ℕ) (n : ℕ)
    → n ≡ length front
    → At r (front ++ rest)
    → At (advance n r) rest
advance-At r front rest n e h =
    drop-drop r.pos n r.buf ∙ ap (drop n) h ∙ drop-append_eq n front rest e

pub read_u8-At :
    (r : Reader) (a : ℕ) (rest : List ℕ) → At r (a ∷ rest) → read_u8 r ≡ ok (a, advance 1 r)
unfolding read_u8
read_u8-At r a rest h = ground (arith, first_byte r (a ∷ rest) h, remaining-At r (a ∷ rest) h)

pub read_u16-At :
    (r : Reader) (v : ℕ) (rest : List ℕ)
    → v < 2 ^ 16
    → At r (be_bytes 2 v ++ rest)
    → read_u16 r ≡ ok (v, advance 2 r)
unfolding read_u16 be_bytes
read_u16-At r v rest small h =
    rw (enough, first_byte r _ h, byte-At r 1 _ h) (ap (λ t. ok (t, advance 2 r)) whole)
  where
    enough : ltb (remaining r) 2 ≡ false
    enough = le→ltb _ _ (omega (arith, remaining-At r _ h))

    whole : v / 256 ^ 1 % 256 * 256 + v / 256 ^ 0 % 256 ≡ v
    whole = omega arith

pub read_slice-At :
    (r : Reader) (n : ℕ) (bytes rest : List ℕ)
    → n ≡ length bytes
    → At r (bytes ++ rest)
    → read_slice n r ≡ ok (bytes, advance n r)
unfolding read_slice
read_slice-At r n bytes rest e h = rw (enough, h, take-append_eq n bytes rest e) refl
  where
    enough : ltb (remaining r) n ≡ false
    enough = le→ltb _ _ (omega (arith, remaining-At r _ h, length-append bytes rest))

-- A reader within its buffer.
abbrev pub IsWithin : Reader → Type 0
IsWithin r = r.pos ≤ length r.buf

-- A successful read, on any reader within its buffer, moves on by exactly the bytes that it reads
-- and stays within the buffer, and `read_slice` gives the number of bytes that it was asked for.
pub reads_stay_within :
    (r : Reader)
    → IsWithin r
    → ((v : ℕ) (r' : Reader) → read_u8 r ≡ ok (v, r') → (r' ≡ advance 1 r) × IsWithin r')
      × ((v : ℕ) (r' : Reader) → read_u16 r ≡ ok (v, r') → (r' ≡ advance 2 r) × IsWithin r')
      × ((v : ℕ) (r' : Reader) → read_u24 r ≡ ok (v, r') → (r' ≡ advance 3 r) × IsWithin r')
      × ((n : ℕ) (s : List ℕ) (r' : Reader)
          → read_slice n r ≡ ok (s, r')
          → (r' ≡ advance n r) × IsWithin r' × (length s ≡ n))
unfolding read_u8 read_u16 read_u24 read_slice
reads_stay_within r h = (
  λ v r' e. ground arith,
  λ v r' e. ground arith,
  λ v r' e. ground arith,
  λ n s r' e. ground (arith, length-take n (drop r.pos r.buf), length-drop r.pos r.buf),
)
