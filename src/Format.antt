-- ===== src/Format.antt =====
-- The printing of format.c. What is printed is a list of character codes. `hex_encode` is a
-- library's: a parameter that gives the digits of a run of bytes.
pub mod Dump
pub mod Print
pub mod Escapes
use bitcoin_iterate.Prelude.{
  ℕ, zero, suc, ◌+◌, ◌-◌, ◌*◌, ◌/◌, ◌%◌, ◌^◌, Bool, true, false, Option, none, some, List, [], ◌∷◌,
  ◌++◌, leb, ltb, ◌==◌, if◌then◌else◌, reverse,
}
use bitcoin_iterate.Prelude.Bytes.{to_le}
use bitcoin_iterate.Types.{Hash, BlockHeader, Input, Output, Transaction}

-- The bytes of `buf` that `print_varint` fills.
unfoldable pub varint_buf : ℕ → List ℕ
varint_buf v =
    if ltb v 0xfd
    then v ∷ []
    else if leb v 0xffff
    then 0xfd ∷ to_le 2 v
    else if leb v 0xffff_ffff
    then 0xfe ∷ to_le 4 v
    else 0xff ∷ to_le 8 v

module _ (hex_encode : List ℕ → List ℕ) where
  unfoldable pub print_hash : Hash → List ℕ
  print_hash hash = hex_encode hash

  unfoldable pub print_reversed_hash : Hash → List ℕ
  unfolding print_hash
  print_reversed_hash hash = print_hash (reverse hash)

  unfoldable pub print_hex : List ℕ → List ℕ
  print_hex bytes = hex_encode bytes

  unfoldable pub print_varint : ℕ → List ℕ
  unfolding print_hex
  print_varint v = print_hex (varint_buf v)

  unfoldable pub print_le32 : ℕ → List ℕ
  unfolding print_hex
  print_le32 v = print_hex (to_le 4 v)

  unfoldable pub print_le64 : ℕ → List ℕ
  unfolding print_hex
  print_le64 v = print_hex (to_le 8 v)

  unfoldable pub dump_tx_input : Input → List ℕ
  unfolding print_hash print_le32 print_varint print_hex
  dump_tx_input input =
      print_hash input.txid
      ++ (print_le32 input.index
          ++ (print_varint input.script_length
              ++ (print_hex input.script ++ print_le32 input.sequence_number)))

  unfoldable pub dump_tx_output : Output → List ℕ
  unfolding print_le64 print_varint print_hex
  dump_tx_output output =
      print_le64 output.amount ++ (print_varint output.script_length ++ print_hex output.script)

  unfoldable pub dump_inputs : List Input → List ℕ
  unfolding dump_tx_input
  dump_inputs [] = []
  dump_inputs (input ∷ inputs) = dump_tx_input input ++ dump_inputs inputs

  unfoldable pub dump_outputs : List Output → List ℕ
  unfolding dump_tx_output
  dump_outputs [] = []
  dump_outputs (output ∷ outputs) = dump_tx_output output ++ dump_outputs outputs

  unfoldable pub dump_tx : Transaction → List ℕ
  unfolding print_le32 print_varint dump_inputs dump_outputs
  dump_tx tx =
      print_le32 tx.version
      ++ (print_varint tx.input_count
          ++ (dump_inputs tx.input
              ++ (print_varint tx.output_count
                  ++ (dump_outputs tx.output ++ print_le32 tx.lock_time))))

  unfoldable pub dump_block_header : BlockHeader → List ℕ
  unfolding print_le32 print_hash
  dump_block_header bh =
      print_le32 bh.version
      ++ (print_hash bh.prev_hash
          ++ (print_hash bh.merkle_hash
              ++ (print_le32 bh.timestamp ++ (print_le32 bh.target ++ print_le32 bh.nonce))))
