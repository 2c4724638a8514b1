-- ===== src/Utils.antt =====
-- Hashes on the command line and in the code: utils.c. `hex_decode` is a library's: a parameter
-- that gives the bytes of a text, or nothing.
pub mod Reversed
use bitcoin_iterate.Prelude.{
  ℕ, Bool, true, false, ◌&&◌, Option, none, some, List, [], ◌∷◌, ◌==◌, reverse,
}
use bitcoin_iterate.Types.{Hash, digest_length}

-- The loop stops at the first byte that is not 0.
unfoldable pub is_zero : Hash → Bool
is_zero [] = true
is_zero (b ∷ bs) = b == 0 && is_zero bs

-- `hex_decode text n` fills `n` bytes or fails. The result is what is written to `h`, `none` for the
-- message about a bad string.
unfoldable pub opt_set_hash : (hex_decode : List ℕ → ℕ → Option Hash) → (arg : List ℕ) → Option Hash
opt_set_hash hex_decode arg = elim (hex_decode arg digest_length) [
  | none ↦ none
  | some hash ↦ some (reverse hash)
]
