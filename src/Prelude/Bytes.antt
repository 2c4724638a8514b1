-- ===== src/Prelude/Bytes.antt =====
-- Bytes in memory: little-endian words, and a run of bytes that stands at an offset.
use bitcoin_iterate.Prelude.{
  ℕ, zero, suc, ◌+◌, ◌*◌, ◌/◌, ◌%◌, ◌^◌, ◌<◌, ◌≡◌, refl, ap, Bool, true, false, Option, none, some,
  List, [], ◌∷◌, ◌++◌, arith, length, get_elem?, ◌==◌, ◌&&◌, get_elem?-append, get_elem?-append_at,
  length-append, append_assoc,
}

abbrev pub IsByte : ℕ → Type 0
IsByte b = b < 256

-- The `n` low bytes of a word, lowest first, and the word that bytes stand for.
unfoldable pub to_le : ℕ → ℕ → List ℕ
to_le zero v = []
to_le (suc n) v = (v % 256) ∷ to_le n (v / 256)

unfoldable pub of_le : List ℕ → ℕ
of_le [] = 0
of_le (b ∷ bs) = b + 256 * of_le bs

pub length-to_le : (n v : ℕ) → length (to_le n v) ≡ n
unfolding to_le
length-to_le zero v = refl
length-to_le (suc n) v = ap suc (length-to_le n (v / 256))

pub of_le-to_le_two : (v : ℕ) → v < 2 ^ 16 → of_le (to_le 2 v) ≡ v
unfolding of_le to_le
of_le-to_le_two v h = omega arith

pub of_le-to_le_four : (v : ℕ) → v < 2 ^ 32 → of_le (to_le 4 v) ≡ v
unfolding of_le to_le
of_le-to_le_four v h = omega arith

pub of_le-to_le_eight : (v : ℕ) → v < 2 ^ 64 → of_le (to_le 8 v) ≡ v
unfolding of_le to_le
of_le-to_le_eight v h = omega arith

-- Byte by byte, as memcpy takes them: nothing is read where `n` is 0.
unfoldable pub read_at : List ℕ → ℕ → ℕ → Option (List ℕ)
read_at xs off zero = some []
read_at xs off (suc n) = elim (get_elem? xs off) [
  | none ↦ none
  | some b ↦ elim (read_at xs (off + 1) n) [ none ↦ none | some bs ↦ some (b ∷ bs) ]
]

-- The bytes `bs` stand in `xs` from `off` on.
abbrev pub Reads : List ℕ → ℕ → List ℕ → Type 0
Reads xs off [] = Unit {0}
Reads xs off (b ∷ bs) = (get_elem? xs off ≡ some b) × Reads xs (off + 1) bs

pub read_at-Reads :
    (xs : List ℕ) (off : ℕ) (bs : List ℕ) → Reads xs off bs → read_at xs off (length bs) ≡ some bs
unfolding read_at
read_at-Reads xs off [] r = refl
read_at-Reads xs off (b ∷ bs) r = ground (arith, read_at-Reads xs (off + 1) bs r.1)

pub Reads-read_at :
    (xs : List ℕ) (off n : ℕ) (bs : List ℕ)
    → read_at xs off n ≡ some bs
    → Reads xs off bs × (length bs ≡ n)
unfolding read_at
Reads-read_at xs off zero [] e = (tt, refl)
Reads-read_at xs off zero (b ∷ bs) e = cc
Reads-read_at xs off (suc n) [] e = ground arith
Reads-read_at xs off (suc n) (b ∷ bs) e = ground (arith, Reads-read_at xs (off + 1) n bs)

pub Reads-append_left :
    (xs : List ℕ) (off : ℕ) (front back : List ℕ)
    → Reads xs off (front ++ back)
    → Reads xs off front
Reads-append_left xs off [] back r = tt
Reads-append_left xs off (b ∷ front) back r = (r.0, Reads-append_left xs (off + 1) front back r.1)

pub Reads-append_right :
    (xs : List ℕ) (off : ℕ) (front back : List ℕ)
    → Reads xs off (front ++ back)
    → Reads xs (off + length front) back
Reads-append_right xs off [] back r = let e : off + 0 ≡ off = omega arith in rw e r
Reads-append_right xs off (b ∷ front) back r =
    let e : off + suc (length front) ≡ off + 1 + length front = omega arith in
    rw e (Reads-append_right xs (off + 1) front back r.1)

-- A run in two parts, the first of a known length.
pub Reads-split :
    (xs : List ℕ) (off n : ℕ) (front back : List ℕ)
    → length front ≡ n
    → Reads xs off (front ++ back)
    → Reads xs off front × Reads xs (off + n) back
Reads-split xs off n front back l r =
    (Reads-append_left xs off front back r, rw l at (Reads-append_right xs off front back r))

-- More bytes behind the run change nothing.
pub Reads-extend :
    (xs more : List ℕ) (off : ℕ) (bs : List ℕ) → Reads xs off bs → Reads (xs ++ more) off bs
Reads-extend xs more off [] r = tt
Reads-extend xs more off (b ∷ bs) r =
    (get_elem?-append xs more off b r.0, Reads-extend xs more (off + 1) bs r.1)

-- What stands between two pieces is read behind the first one.
pub Reads-between : (front bs back : List ℕ) → Reads (front ++ (bs ++ back)) (length front) bs
Reads-between front [] back = tt
Reads-between front (b ∷ bs) back = (
  get_elem?-append_at front b (bs ++ back),
  rw (length-append, append_assoc) at (Reads-between (front ++ (b ∷ [])) bs back),
)

-- `memcmp` over two byte strings of one length.
unfoldable pub bytes_eq : List ℕ → List ℕ → Bool
bytes_eq [] [] = true
bytes_eq (a ∷ as') (b ∷ bs) = a == b && bytes_eq as' bs
bytes_eq _ _ = false

pub bytes_eq_refl : (bs : List ℕ) → bytes_eq bs bs ≡ true
unfolding bytes_eq
bytes_eq_refl [] = refl
bytes_eq_refl (b ∷ bs) = ground (arith, bytes_eq_refl bs)

pub bytes_eq_sound : (as' bs : List ℕ) → bytes_eq as' bs ≡ true → as' ≡ bs
unfolding bytes_eq
bytes_eq_sound [] [] h = refl
bytes_eq_sound [] (b ∷ bs) h = cc
bytes_eq_sound (a ∷ as') [] h = cc
bytes_eq_sound (a ∷ as') (b ∷ bs) h = ground (arith, bytes_eq_sound as' bs)
