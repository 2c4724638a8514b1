-- ===== src/Format/Dump.antt =====
-- The hexadecimal dumps of format.c, beside the serialized form.
use bitcoin_iterate.Prelude.{ℕ, ◌≡◌, sym, map, List, [], ◌∷◌, ◌++◌, append_assoc, length, ◌+◌, ◌*◌}
use bitcoin_iterate.Types.{Hash, BlockHeader}
use bitcoin_iterate.Serial.{
  Tx, TxIn, TxOut, inputs_bytes, outputs_bytes, input_of, output_of, witnessed, original_bytes,
  parsed_original, parsed_segwit, items_space, header_bytes,
}
use bitcoin_iterate.Format.{dump_inputs, dump_outputs, dump_tx, dump_block_header}

-- What hex.h says of `hex_encode`: two digits for each byte, in order.
pub record IsHexEncode (hex_encode : List ℕ → List ℕ) : Type 0 where
  pub nil : hex_encode [] ≡ []
  pub append : (xs ys : List ℕ) → hex_encode (xs ++ ys) ≡ hex_encode xs ++ hex_encode ys

module _ (hex_encode : List ℕ → List ℕ) (hex : IsHexEncode hex_encode) where
  dump_inputs-inputs_bytes :
      (inputs : List TxIn)
      → dump_inputs hex_encode (map input_of inputs) ≡ hex_encode (inputs_bytes inputs)
  unfolding dump_inputs
  dump_inputs-inputs_bytes [] = sym hex.nil
  dump_inputs-inputs_bytes (i ∷ is) = simp (dump_inputs-inputs_bytes is, hex.append, append_assoc)

  dump_inputs-witnessed :
      (off : ℕ) (inputs : List TxIn)
      → dump_inputs hex_encode (witnessed off inputs) ≡ hex_encode (inputs_bytes inputs)
  unfolding dump_inputs
  dump_inputs-witnessed off [] = sym hex.nil
  dump_inputs-witnessed off (i ∷ is) = simp (
    dump_inputs-witnessed (off + (8 * length i.witness + items_space i.witness)) is,
    hex.append,
    append_assoc,
  )

  dump_outputs-outputs_bytes :
      (outputs : List TxOut)
      → dump_outputs hex_encode (map output_of outputs) ≡ hex_encode (outputs_bytes outputs)
  unfolding dump_outputs
  dump_outputs-outputs_bytes [] = sym hex.nil
  dump_outputs-outputs_bytes (o ∷ os) =
      simp (dump_outputs-outputs_bytes os, hex.append, append_assoc)

  -- `%tX` of a transaction that was read, in either serialization, prints the original one.
  pub dump_tx-original_bytes :
      (sha256 : List ℕ → Hash) (off : ℕ) (t : Tx)
      → (dump_tx hex_encode (parsed_original sha256 t) ≡ hex_encode (original_bytes t))
        × (dump_tx hex_encode (parsed_segwit sha256 off t) ≡ hex_encode (original_bytes t))
  unfolding dump_tx
  dump_tx-original_bytes sha256 off t = (
    simp (dump_inputs-inputs_bytes, dump_outputs-outputs_bytes, hex.append, append_assoc),
    simp (dump_inputs-witnessed, dump_outputs-outputs_bytes, hex.append, append_assoc),
  )

  -- `%bH` prints the 80 bytes that the block's hash is taken over.
  pub dump_block_header-header_bytes :
      (bh : BlockHeader) → dump_block_header hex_encode bh ≡ hex_encode (header_bytes bh)
  unfolding dump_block_header
  dump_block_header-header_bytes bh = simp hex.append
