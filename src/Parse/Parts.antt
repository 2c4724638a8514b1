-- ===== src/Parse/Parts.antt =====
-- Reading back the inputs and the outputs of a transaction.
use native.Mathlib.Nat.{add_assoc}
use bitcoin_iterate.Prelude.{
  ℕ, ◌+◌, ◌*◌, ◌≤◌, ◌≡◌, refl, ap, map, List, [], ◌∷◌, ◌++◌, arith, length, All, length-append, ok,
}
use bitcoin_iterate.Prelude.Bytes.{
  Reads, Reads-split, Reads-append_left, Reads-append_right, to_le, length-to_le,
}
use bitcoin_iterate.Space.{Space, Region, buf_size, space_alloc, write_region}
use bitcoin_iterate.Space.Bounds.{space_alloc-fits, write_region-fits}
use bitcoin_iterate.Io.{File}
use bitcoin_iterate.Io.Modes.{IsOpen}
use bitcoin_iterate.Format.{varint_buf}
use bitcoin_iterate.Serial.{
  TxIn, TxOut, TxInFits, TxOutFits, script_bytes, input_bytes, output_bytes, inputs_bytes,
  outputs_bytes, input_of, output_of, scripts_space, out_scripts_space,
}
use bitcoin_iterate.Parse.{
  pull_varint, pull_bytes, read_input, read_output, read_inputs, read_outputs,
}
use bitcoin_iterate.Parse.Words.{
  pull_varint-varint_buf, pull_bytes-Reads, pull_u32-to_le, pull_u64-to_le, pull_hash-Reads,
}

abbrev pub at : ℕ → Space
at n = record { off = n }

module _ (f : File) (is : IsOpen f) where
  -- A script with its length in front: the number, the room for it, and the bytes.
  pub script_Reads :
      (off n : ℕ) (script : List ℕ)
      → Reads f.disk off (script_bytes script)
      → n + length script ≤ buf_size
      → (pull_varint f off ≡ ok (length script, off + length (varint_buf (length script))))
        × (space_alloc (at n) (length script)
            ≡ ok (record { start = n; bytes = length script }, at (n + length script)))
        × (write_region (record { start = n; bytes = length script }) 0 (length script) ≡ ok tt)
        × (pull_bytes f (off + length (varint_buf (length script))) (length script)
            ≡ ok (script, off + length (script_bytes script)))
  script_Reads off n script r h =
      let l = varint_buf (length script) in
      let end : off + length l + length script ≡ off + length (l ++ script) =
        omega (arith, length-append l script) in
      (
        pull_varint-varint_buf f off is (length script) (omega arith)
            (Reads-append_left f.disk off l script r),
        space_alloc-fits n (length script) h,
        write_region-fits _ 0 (length script) (omega arith) h,
        rw (← end) (
            pull_bytes-Reads f (off + length l) script is
              (Reads-append_right f.disk off l script r)),
      )

  read_input-input_bytes :
      (off n : ℕ) (i : TxIn)
      → TxInFits i
      → Reads f.disk off (input_bytes i)
      → n + length i.script ≤ buf_size
      → read_input (at n) f off
        ≡ ok (input_of i, at (n + length i.script), off + length (input_bytes i))
  unfolding read_input
  read_input-input_bytes off n i fits r h =
      let sb = script_bytes i.script in
      let (r₁, s₁) = Reads-split f.disk off 32 i.txid _ fits.txid r in
      let (r₂, s₂) = Reads-split f.disk (off + 32) 4 (to_le 4 i.index) _ (length-to_le 4 _) s₁ in
      let (r₃, r₄) = Reads-split f.disk (off + 32 + 4) (length sb) sb _ refl s₂ in
      let (e₁, e₂, e₃, e₄) = script_Reads (off + 32 + 4) n i.script r₃ h in
      rw
        (
          pull_hash-Reads f off is i.txid fits.txid r₁,
          pull_u32-to_le f (off + 32) is i.index fits.index r₂,
          e₁,
          e₂,
          e₃,
          e₄,
          pull_u32-to_le f (off + 32 + 4 + length sb) is i.sequence_number fits.sequence_number r₄,
        )
        (ap (λ k. ok (input_of i, at (n + length i.script), k))
          (omega (arith, length-append {0}, length-to_le, fits.txid)))

  read_output-output_bytes :
      (off n : ℕ) (o : TxOut)
      → TxOutFits o
      → Reads f.disk off (output_bytes o)
      → n + length o.script ≤ buf_size
      → read_output (at n) f off
        ≡ ok (output_of o, at (n + length o.script), off + length (output_bytes o))
  unfolding read_output
  read_output-output_bytes off n o fits r h =
      let sb = script_bytes o.script in
      let (r₁, r₂) = Reads-split f.disk off 8 (to_le 8 o.amount) sb (length-to_le 8 _) r in
      let (e₁, e₂, e₃, e₄) = script_Reads (off + 8) n o.script r₂ h in
      rw (pull_u64-to_le f off is o.amount fits.amount r₁, e₁, e₂, e₃, e₄)
        (ap (λ k. ok (output_of o, at (n + length o.script), k))
          (omega (arith, length-append {0}, length-to_le)))

  -- The array has room for the elements from `k` on.
  pub read_inputs-inputs_bytes :
      (off n k : ℕ) (place : Region) (inputs : List TxIn)
      → All TxInFits inputs
      → Reads f.disk off (inputs_bytes inputs)
      → 80 * (k + length inputs) ≤ place.bytes
      → place.start + place.bytes ≤ buf_size
      → n + scripts_space inputs ≤ buf_size
      → read_inputs place k (length inputs) (at n) f off
        ≡ ok
            (map input_of inputs, at (n + scripts_space inputs), off + length (inputs_bytes inputs))
  unfolding read_inputs
  read_inputs-inputs_bytes off n k place [] fits r room inside h =
      let e : n + 0 ≡ n = omega arith in let e' : off + 0 ≡ off = omega arith in rw (e, e')
  read_inputs-inputs_bytes off n k place (i ∷ is') fits r room inside h =
      let (r₁, r₂) = Reads-split f.disk off (length (input_bytes i)) (input_bytes i) _ refl r in
      rw
        (
          write_region-fits place (80 * k) 80 (omega arith) inside,
          read_input-input_bytes off n i fits.0 r₁ (omega arith),
          read_inputs-inputs_bytes (off + length (input_bytes i)) (n + length i.script) (k + 1)
              place is' fits.1 r₂ (omega arith) inside (omega arith),
        )
        (simp (length-append, add_assoc))

  pub read_outputs-outputs_bytes :
      (off n k : ℕ) (place : Region) (outputs : List TxOut)
      → All TxOutFits outputs
      → Reads f.disk off (outputs_bytes outputs)
      → 24 * (k + length outputs) ≤ place.bytes
      → place.start + place.bytes ≤ buf_size
      → n + out_scripts_space outputs ≤ buf_size
      → read_outputs place k (length outputs) (at n) f off
        ≡ ok (
          map output_of outputs,
          at (n + out_scripts_space outputs),
          off + length (outputs_bytes outputs),
        )
  unfolding read_outputs
  read_outputs-outputs_bytes off n k place [] fits r room inside h =
      let e : n + 0 ≡ n = omega arith in let e' : off + 0 ≡ off = omega arith in rw (e, e')
  read_outputs-outputs_bytes off n k place (o ∷ os) fits r room inside h =
      let (r₁, r₂) = Reads-split f.disk off (length (output_bytes o)) (output_bytes o) _ refl r in
      rw
        (
          write_region-fits place (24 * k) 24 (omega arith) inside,
          read_output-output_bytes off n o fits.0 r₁ (omega arith),
          read_outputs-outputs_bytes (off + length (output_bytes o)) (n + length o.script) (k + 1)
              place os fits.1 r₂ (omega arith) inside (omega arith),
        )
        (simp (length-append, add_assoc))
