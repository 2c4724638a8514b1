-- ===== src/Tests/Sets.antt =====
-- Runs on sets of unspent outputs, and on hashes.
use mathlib.Core.List.{Perm}
use bitcoin_iterate.Prelude.Bytes.{to_le}
use bitcoin_iterate.Prelude.{
  zero, suc, ◌<◌, ◌^◌, take, replicate, ℕ, ◌≡◌, refl, ◌⊎◌, ◌↔◌, true, false, none, some, List, [],
  ◌∷◌, ◌++◌, arith, ok, err, unknown_utxo, All,
}
use bitcoin_iterate.Types.{Utxo}
use bitcoin_iterate.Format.{print_reversed_hash}
use bitcoin_iterate.Utils.{opt_set_hash}
use bitcoin_iterate.Utils.Reversed.{opt_set_hash-print_reversed_hash}
use bitcoin_iterate.Utxo.{
  OutPoint, outpoint_bytes, keyof_utxo, hash_sha, keyof_input, utxohash_eq, guess_output_types,
  add_utxos, release_utxo,
}
use bitcoin_iterate.Utxo.Keys.{utxohash_eq_iff, hash_sha-to_le}
use bitcoin_iterate.Utxo.Set.{
  Guess, guess_output_types-Guess, made, add_utxos-made, release_utxo_total,
}
use bitcoin_iterate.Cache.{UtxoFile, read_utxo_cache, write_utxo_cache}
use bitcoin_iterate.Cache.Utxos.{read_utxo_cache-write_utxo_cache}
use bitcoin_iterate.Iterate.{spend_and_add}
use bitcoin_iterate.Iterate.Ledger.{Unnamed, Spends, spend_and_add_total}
use bitcoin_iterate.Tests.Data.{
  toy_sha256, sevens, spent_utxo, utxo_list, small_transaction, small_input, small_block,
}

abbrev spent_key : OutPoint
spent_key = record { txid = sevens; index = 1 }

utxohash_eq_iff_example :
    (utxohash_eq spent_utxo spent_key ≡ true) ↔ ((sevens ≡ sevens) × (◌≡◌ {A = ℕ} 1 1))
utxohash_eq_iff_example = utxohash_eq_iff spent_utxo spent_key refl refl (omega arith) (omega arith)

spent_key-matches : utxohash_eq spent_utxo spent_key ≡ true
spent_key-matches =
    (utxohash_eq_iff spent_utxo spent_key refl refl (omega arith) (omega arith)).1 (refl, refl)

small_bytes : (n : ℕ) → All (λ b. b < 256) (replicate n 7)
small_bytes zero = tt
small_bytes (suc n) = (omega arith, small_bytes n)

hash_sha-to_le_example :
    (n : ℕ) × (hash_sha (outpoint_bytes spent_key) ≡ ok n)
    × (hash_sha (outpoint_bytes (keyof_utxo spent_utxo)) ≡ ok n)
    × (n < 2 ^ 64)
    × (to_le 8 n ≡ take 8 sevens)
hash_sha-to_le_example = hash_sha-to_le spent_utxo spent_key refl (small_bytes 32) spent_key-matches

guess_output_types-Guess_example :
    Guess small_transaction.output (guess_output_types small_transaction)
guess_output_types-Guess_example = guess_output_types-Guess small_transaction refl

add_utxos-made_example :
    (m : List Utxo) × (add_utxos utxo_list (spent_utxo ∷ []) small_block small_transaction 4 ≡ ok m)
    × Perm m (
        made small_block small_transaction 4
          (guess_output_types small_transaction)
          0
          small_transaction.output
        ++ (spent_utxo ∷ []))
add_utxos-made_example =
    add_utxos-made utxo_list (spent_utxo ∷ []) small_block small_transaction 4 refl

release_utxo_total_example :
    ((u : Utxo) × (m : List Utxo) × (release_utxo utxo_list (spent_utxo ∷ []) small_input ≡ ok m)
      × (utxohash_eq u (keyof_input small_input) ≡ true)
      × Perm (spent_utxo ∷ []) (u ∷ m))
    ⊎ (release_utxo utxo_list (spent_utxo ∷ []) small_input ≡ err unknown_utxo)
      × All (λ u. utxohash_eq u (keyof_input small_input) ≡ false) (spent_utxo ∷ [])
release_utxo_total_example = release_utxo_total utxo_list (spent_utxo ∷ []) small_input

spend_and_add_total_example :
    ((m : List Utxo) × (spent : List Utxo) × (spend_and_add toy_sha256 utxo_list
          (spent_utxo ∷ [])
          small_block
          small_transaction
          4
        ≡ ok m)
      × Spends (small_input ∷ []) spent
      × Perm (spent ++ m) (
          made small_block small_transaction 4
            (guess_output_types small_transaction)
            0
            small_transaction.output
          ++ (spent_utxo ∷ [])))
    ⊎ ((spend_and_add toy_sha256 utxo_list (spent_utxo ∷ []) small_block small_transaction 4
          ≡ err unknown_utxo)
        × (false ≡ false)
        × Unnamed (spent_utxo ∷ []) (small_input ∷ []))
spend_and_add_total_example =
    spend_and_add_total toy_sha256 utxo_list (spent_utxo ∷ []) small_block small_transaction 4 refl

opt_set_hash-print_reversed_hash_example :
    opt_set_hash (λ text n. some text) (print_reversed_hash (λ bytes. bytes) sevens) ≡ some sevens
opt_set_hash-print_reversed_hash_example =
    opt_set_hash-print_reversed_hash (λ bytes. bytes) (λ text n. some text) sevens (λ bytes. refl)
      refl

read_utxo_cache-write_utxo_cache_example :
    (file : UtxoFile) × (m : List Utxo) × (write_utxo_cache utxo_list true true none
        (spent_utxo ∷ [])
      ≡ ok (some file))
    × (read_utxo_cache utxo_list (some file) [] ≡ (true, m, some file))
    × Perm m (spent_utxo ∷ [])
read_utxo_cache-write_utxo_cache_example =
    read_utxo_cache-write_utxo_cache utxo_list (spent_utxo ∷ []) []
