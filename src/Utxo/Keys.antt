-- ===== src/Utxo/Keys.antt =====
-- Keys of unspent outputs: how they are compared and hashed.
use mathlib.Core.Path.{subst}
use bitcoin_iterate.Prelude.{
  zero, suc, ◌≤◌, ◌*◌, ◌/◌, ◌%◌, ◌+◌, some, take, length-take-le, All, ok, or_fail, fault, >>=-ok,
  ℕ, ◌^◌, ◌<◌, ◌≡◌, refl, ap, ◌↔◌, true, List, [], ◌∷◌, ◌++◌, arith, length, sym, ◌∙◌,
}
use bitcoin_iterate.Prelude.Bytes.{
  read_at, read_at-Reads, Reads-between, to_le, of_le, of_le-to_le_four, bytes_eq_refl,
  bytes_eq_sound,
}
use bitcoin_iterate.Types.{Utxo}
use bitcoin_iterate.Utxo.{OutPoint, outpoint_bytes, keyof_utxo, utxohash_eq, hash_sha}

append-injective : (a b c d : List ℕ) → length a ≡ length b → a ++ c ≡ b ++ d → (a ≡ b) × (c ≡ d)
append-injective [] [] c d l e = (refl, e)
append-injective [] (y ∷ b) c d l e = absurd (omega arith)
append-injective (x ∷ a) [] c d l e = absurd (omega arith)
append-injective (x ∷ a) (y ∷ b) c d l e =
    let (h, t) = cons_parts x y (a ++ c) (b ++ d) e in
    let (p, q) = append-injective a b c d (omega arith) t in (ground arith, q)
  where
    cons_parts : (x y : ℕ) (xs ys : List ℕ) → x ∷ xs ≡ y ∷ ys → (x ≡ y) × (xs ≡ ys)
    cons_parts x y xs ys e = (ground arith, ground arith)

-- `utxohash_eq` compares the transaction's hash and the index of the output.
pub utxohash_eq_iff :
    (u : Utxo) (k : OutPoint)
    → length u.txid ≡ 32
    → length k.txid ≡ 32
    → u.index < 2 ^ 32
    → k.index < 2 ^ 32
    → (utxohash_eq u k ≡ true) ↔ ((u.txid ≡ k.txid) × (u.index ≡ k.index))
unfolding utxohash_eq
utxohash_eq_iff u k lu lk hu hk = (
  λ e.
      let (same, words) =
        append-injective u.txid k.txid (to_le 4 u.index) (to_le 4 k.index) (lu ∙ sym lk)
          (bytes_eq_sound _ _ e) in
      (same, sym (of_le-to_le_four u.index hu) ∙ ap of_le words ∙ of_le-to_le_four k.index hk),
  λ (same, index). rw (same, index, bytes_eq_refl),
)

take_front :
    (n : ℕ) (bs ys : List ℕ) → n ≤ length bs → (back : List ℕ) × (bs ++ ys ≡ take n bs ++ back)
take_front zero bs ys h = (bs ++ ys, refl)
take_front (suc n) [] ys h = absurd (omega arith)
take_front (suc n) (b ∷ bs) ys h =
    let (back, e) = take_front n bs ys (omega arith) in (back, ap (λ bs. b ∷ bs) e)

All-take : (P : ℕ → Type 0) (n : ℕ) (bs : List ℕ) → All P bs → All P (take n bs)
All-take P zero bs a = tt
All-take P (suc n) [] a = tt
All-take P (suc n) (b ∷ bs) a = (a.0, All-take P n bs a.1)

read_at-front : (n : ℕ) (bs ys : List ℕ) → n ≤ length bs → read_at (bs ++ ys) 0 n ≡ some (take n bs)
read_at-front n bs ys h =
    let (back, e) = take_front n bs ys h in
    ap (λ xs. read_at xs 0 n) e
    ∙ subst (λ k. read_at (take n bs ++ back) 0 k ≡ some (take n bs)) (length-take-le n bs h)
        (read_at-Reads (take n bs ++ back) 0 (take n bs) (Reads-between [] (take n bs) back))

to_le-of_le : (bs : List ℕ) → All (λ b. b < 256) bs → to_le (length bs) (of_le bs) ≡ bs
unfolding to_le of_le
to_le-of_le [] a = refl
to_le-of_le (b ∷ bs) (small, a) =
    let low : (b + 256 * of_le bs) % 256 ≡ b = omega arith in
    let high : (b + 256 * of_le bs) / 256 ≡ of_le bs = omega arith in
    rw (low, high, to_le-of_le bs a)

-- What `n` bytes can hold.
abbrev holds : (n : ℕ) → ℕ
holds zero = 1
holds (suc n) = 256 * holds n

of_le-lt : (bs : List ℕ) → All (λ b. b < 256) bs → of_le bs < holds (length bs)
unfolding of_le
of_le-lt [] a = omega arith
of_le-lt (b ∷ bs) (small, a) = omega (arith, of_le-lt bs a)

-- For a key with a hash of 32 bytes, and an output that it matches, `hash_sha` reads inside the key and
-- gives the same word of 64 bits for the key and for that of the output: the one whose bytes, the
-- lowest first, are the first eight of the hash.
pub hash_sha-to_le :
    (u : Utxo) (k : OutPoint)
    → length k.txid ≡ 32
    → All (λ b. b < 256) k.txid
    → utxohash_eq u k ≡ true
    → (n : ℕ) × (hash_sha (outpoint_bytes k) ≡ ok n)
      × (hash_sha (outpoint_bytes (keyof_utxo u)) ≡ ok n)
      × (n < 2 ^ 64)
      × (to_le 8 n ≡ take 8 k.txid)
unfolding hash_sha utxohash_eq
hash_sha-to_le u k l small e =
    let bs = take 8 k.txid in
    let eight : length bs ≡ 8 = length-take-le 8 k.txid (omega arith) in
    let bytes : All (λ b. b < 256) bs = All-take (λ b. b < 256) 8 k.txid small in
    let run : hash_sha (outpoint_bytes k) ≡ ok (of_le bs) =
      >>=-ok _
        (ap (λ o. or_fail o fault) (read_at-front 8 k.txid (to_le 4 k.index) (omega arith))) in
    (
      of_le bs,
      run,
      ap hash_sha (bytes_eq_sound _ _ e) ∙ run,
      subst (λ n. of_le bs < holds n) eight (of_le-lt bs bytes),
      subst (λ n. to_le n (of_le bs) ≡ bs) eight (to_le-of_le bs bytes),
    )
