-- ===== src/Tests/Printing.antt =====
-- Runs of the formats.
use bitcoin_iterate.Prelude.{ℕ, ◌≡◌, refl, none, some, List, [], ◌∷◌, ok, err, fault, Option, false}
use bitcoin_iterate.Types.{Utxo, Output}
use bitcoin_iterate.Utxo.{OutPoint}
use bitcoin_iterate.Serial.{original_bytes, header_bytes, parsed_original, parsed_segwit}
use bitcoin_iterate.Format.{dump_tx, dump_block_header}
use bitcoin_iterate.Format.Dump.{
  IsHexEncode, dump_tx-original_bytes, dump_block_header-header_bytes,
}
use bitcoin_iterate.Format.Print.{Args, print_format, escape}
use bitcoin_iterate.Format.Escapes.{print_format-dangling}
use bitcoin_iterate.Cli.{print_transaction, print_input, print_output, needs_utxo, strstr}
use bitcoin_iterate.Cli.Blind.{print_blind}
use bitcoin_iterate.Tests.Data.{
  toy_sha256, small_tx, small_header, small_block, small_transaction, small_input, get_spent,
}

abbrev same_bytes : List ℕ → List ℕ
same_bytes bytes = bytes

same_bytes-IsHexEncode : IsHexEncode same_bytes
same_bytes-IsHexEncode = record { nil = refl; append = λ xs ys. refl }

dump_tx-original_bytes_example :
    (dump_tx same_bytes (parsed_original toy_sha256 small_tx) ≡ original_bytes small_tx)
    × (dump_tx same_bytes (parsed_segwit toy_sha256 5 small_tx) ≡ original_bytes small_tx)
dump_tx-original_bytes_example =
    dump_tx-original_bytes same_bytes same_bytes-IsHexEncode toy_sha256 5 small_tx

dump_block_header-header_bytes_example :
    dump_block_header same_bytes small_header ≡ header_bytes small_header
dump_block_header-header_bytes_example =
    dump_block_header-header_bytes same_bytes same_bytes-IsHexEncode small_header

abbrev get_nothing : OutPoint → Option Utxo
get_nothing k = none

abbrev block_args : Args
block_args = record {
  b = small_block;
  t = none;
  txnum = 0;
  i = none;
  o = none;
  u = none;
  last_utxo_block = none;
}

unknown_group : escape same_bytes get_nothing block_args b'z' 0 ≡ ok []
unfolding escape
unknown_group = refl

print_format-dangling_example :
    (print_format same_bytes get_nothing block_args (b'h' ∷ b'%' ∷ []) ≡ err fault)
    × (print_format same_bytes get_nothing block_args (b'h' ∷ b'%' ∷ b'z' ∷ []) ≡ err fault)
print_format-dangling_example =
    print_format-dangling same_bytes get_nothing block_args (b'h' ∷ []) b'z' (refl, tt)
      unknown_group

abbrev version_format : Option (List ℕ)
version_format = some (b'%' ∷ b't' ∷ b'v' ∷ [])

no_set : needs_utxo version_format none none none ≡ false
unfolding needs_utxo strstr
no_set = refl

abbrev small_output : Output
small_output = record { amount = 5; script_length = 0; script = [] }

print_blind_example :
    (print_transaction same_bytes get_nothing version_format small_block small_transaction 4
      ≡ print_transaction same_bytes get_spent version_format small_block small_transaction 4)
    × (print_input same_bytes get_nothing none small_block small_transaction 4 0 small_input
        ≡ print_input same_bytes get_spent none small_block small_transaction 4 0 small_input)
    × (print_output same_bytes get_nothing none small_block small_transaction 4 0 small_output
        ≡ print_output same_bytes get_spent none small_block small_transaction 4 0 small_output)
    × (◌≡◌ {A = Option (List ℕ)} none none)
print_blind_example =
    print_blind same_bytes get_nothing get_spent version_format none none none no_set small_block
      small_transaction 4 0 small_input small_output
