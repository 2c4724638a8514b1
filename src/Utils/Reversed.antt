-- ===== src/Utils/Reversed.antt =====
-- Hashes as they are printed and given: utils.c and print_reversed_hash.
use mathlib.Core.List.{reverse-reverse}
use mathlib.Core.Path.{subst}
use bitcoin_iterate.Prelude.{
  ℕ, ◌∙◌, ◌≡◌, refl, ◌↔◌, true, Option, some, List, [], ◌∷◌, arith, length, length-reverse_aux,
  reverse, replicate,
}
use bitcoin_iterate.Types.{Hash, digest_length}
use bitcoin_iterate.Format.{print_reversed_hash}
use bitcoin_iterate.Utils.{is_zero, opt_set_hash}

-- `is_zero` holds of the hash of zeros alone.
pub is_zero_iff : (h : Hash) → (is_zero h ≡ true) ↔ (h ≡ replicate (length h) 0)
unfolding is_zero
is_zero_iff [] = (λ _. refl, λ _. refl)
is_zero_iff (b ∷ bs) =
    let (to, from) = is_zero_iff bs in
    (λ e. ground (arith, to (ground arith)), λ e. ground (arith, from (ground arith)))

length-reverse : (xs : List ℕ) → length (reverse xs) ≡ length xs
length-reverse xs = omega (arith, length-reverse_aux xs [])

-- What `--start-hash` and `--end-hash` read from a text that `%bh` or `%th` printed is the hash.
pub opt_set_hash-print_reversed_hash :
    (hex_encode : List ℕ → List ℕ) (hex_decode : List ℕ → ℕ → Option Hash) (hash : Hash)
    → ((bytes : List ℕ) → hex_decode (hex_encode bytes) (length bytes) ≡ some bytes)
    → length hash ≡ digest_length
    → opt_set_hash hex_decode (print_reversed_hash hex_encode hash) ≡ some hash
unfolding opt_set_hash print_reversed_hash
opt_set_hash-print_reversed_hash hex_encode hex_decode hash codec l =
    let back : hex_decode (hex_encode (reverse hash)) digest_length ≡ some (reverse hash) =
      subst (λ n. hex_decode (hex_encode (reverse hash)) n ≡ some (reverse hash))
        (length-reverse hash ∙ l) (codec (reverse hash)) in
    rw (opt_set_hash, back, reverse-reverse)
