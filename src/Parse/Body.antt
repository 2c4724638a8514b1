-- ===== src/Parse/Body.antt =====
-- Reading back the body of a transaction and its witness.
use native.Mathlib.Nat.{add_assoc}
use bitcoin_iterate.Prelude.{
  ℕ, suc, ◌+◌, ◌*◌, ◌≤◌, ◌≡◌, refl, map, some, none, List, [], ◌∷◌, ◌++◌, arith, length,
  length-append, append-nil, ok, ◌==◌, if◌then◌else◌, false,
}
use bitcoin_iterate.Prelude.Bytes.{Reads, Reads-split}
use bitcoin_iterate.Types.{Input}
use bitcoin_iterate.Space.{Region, buf_size}
use bitcoin_iterate.Space.Bounds.{space_alloc_arr-fits, write_region-fits}
use bitcoin_iterate.Io.{File}
use bitcoin_iterate.Io.Modes.{IsOpen}
use bitcoin_iterate.Format.{varint_buf}
use bitcoin_iterate.Serial.{
  TxIn, Tx, TxFits, script_bytes, inputs_bytes, items_bytes, witness_bytes, body_bytes, input_of,
  output_of, scripts_space, items_space, witness_space, body_space, witnessed,
}
use bitcoin_iterate.Parse.{
  read_body, read_witness_stack_item, read_witness_items, read_witness_field, read_witness,
}
use bitcoin_iterate.Parse.Words.{pull_varint-varint_buf}
use bitcoin_iterate.Parse.Parts.{
  at, script_Reads, read_inputs-inputs_bytes, read_outputs-outputs_bytes,
}

module _ (f : File) (is : IsOpen f) where
  pub read_body-body_bytes :
      (off n : ℕ) (t : Tx)
      → TxFits t
      → Reads f.disk off (body_bytes t)
      → n + body_space t ≤ buf_size
      → read_body (length t.inputs) (at n) f off
        ≡ ok (
          map input_of t.inputs,
          length t.outputs,
          map output_of t.outputs,
          at (n + body_space t),
          off + length (body_bytes t),
        )
  unfolding read_body
  read_body-body_bytes off n t fits r h =
      let li = length (inputs_bytes t.inputs) in
      let lv = length (varint_buf (length t.outputs)) in
      let n₁ = n + 80 * length t.inputs in
      let n₂ = n₁ + scripts_space t.inputs in
      let (r₁, s₁) = Reads-split f.disk off li (inputs_bytes t.inputs) _ refl r in
      let (r₂, r₃) = Reads-split f.disk (off + li) lv (varint_buf (length t.outputs)) _ refl s₁ in
      rw
        (
          space_alloc_arr-fits n 80 (length t.inputs) (omega arith),
          read_inputs-inputs_bytes f is off n₁ 0
              (record { start = n; bytes = 80 * length t.inputs }) t.inputs fits.inputs r₁
              (omega arith) (omega arith) (omega arith),
          pull_varint-varint_buf f (off + li) is (length t.outputs) (omega arith) r₂,
          space_alloc_arr-fits n₂ 24 (length t.outputs) (omega arith),
          read_outputs-outputs_bytes f is (off + li + lv) (n₂ + 24 * length t.outputs) 0
              (record { start = n₂; bytes = 24 * length t.outputs }) t.outputs fits.outputs r₃
              (omega arith) (omega arith) (omega arith),
        )
        (simp (length-append, add_assoc))

  item_Reads :
      (off n : ℕ) (w : List ℕ)
      → Reads f.disk off (script_bytes w)
      → n + length w ≤ buf_size
      → read_witness_stack_item f off (at n) ≡ ok (at (n + length w), off + length (script_bytes w))
  unfolding read_witness_stack_item
  item_Reads off n w r h =
      let (e₁, e₂, e₃, e₄) = script_Reads f is off n w r h in rw (e₁, e₂, e₃, e₄)

  items_Reads :
      (off n s : ℕ) (place : Region) (ws : List (List ℕ))
      → Reads f.disk off (items_bytes ws)
      → 8 * (s + length ws) ≤ place.bytes
      → place.start + place.bytes ≤ buf_size
      → n + items_space ws ≤ buf_size
      → read_witness_items place s (length ws) f off (at n)
        ≡ ok (at (n + items_space ws), off + length (items_bytes ws))
  unfolding read_witness_items
  items_Reads off n s place [] r room inside h =
      let e : n + 0 ≡ n = omega arith in let e' : off + 0 ≡ off = omega arith in rw (e, e')
  items_Reads off n s place (w ∷ ws) r room inside h =
      let (r₁, r₂) = Reads-split f.disk off (length (script_bytes w)) (script_bytes w) _ refl r in
      rw
        (
          write_region-fits place (8 * s) 8 (omega arith) inside,
          item_Reads off n w r₁ (omega arith),
          items_Reads (off + length (script_bytes w)) (n + length w) (s + 1) place ws r₂
              (omega arith) inside (omega arith),
        )
        (simp (length-append, add_assoc))

  field_Reads :
      (off n : ℕ) (inp : Input) (ws : List (List ℕ))
      → Reads f.disk off (varint_buf (length ws) ++ items_bytes ws)
      → n + (8 * length ws + items_space ws) ≤ buf_size
      → read_witness_field (record inp { num_witness = none; witness = none }) f off (at n)
        ≡ ok (
          record inp {
            num_witness = some (length ws);
            witness = if length ws == 0 then none else some n;
          },
          at (n + (8 * length ws + items_space ws)),
          off + length (varint_buf (length ws) ++ items_bytes ws),
        )
  unfolding read_witness_field
  field_Reads off n inp [] r h =
      let (r₁, _) = Reads-split f.disk off (length (varint_buf 0)) (varint_buf 0) _ refl r in
      let e : n + 0 ≡ n = omega arith in
      rw (pull_varint-varint_buf f off is 0 (omega arith) r₁, e, append-nil)
  field_Reads off n inp (w ∷ ws) r h =
      let l = suc (length ws) in
      let (r₁, r₂) = Reads-split f.disk off (length (varint_buf l)) (varint_buf l) _ refl r in
      let nonzero : (l == 0) ≡ false = ground arith in
      rw
        (
          pull_varint-varint_buf f off is l (omega arith) r₁,
          nonzero,
          space_alloc_arr-fits n 8 l (omega arith),
          items_Reads (off + length (varint_buf l)) (n + 8 * l) 0
              (record { start = n; bytes = 8 * l }) (w ∷ ws) r₂ (omega arith) (omega arith)
              (omega arith),
        )
        (simp (length-append, add_assoc))

  pub read_witness-witness_bytes :
      (off n : ℕ) (inputs : List TxIn)
      → Reads f.disk off (witness_bytes inputs)
      → n + witness_space inputs ≤ buf_size
      → read_witness (map input_of inputs) f off (at n)
        ≡ ok
            (witnessed n inputs, at (n + witness_space inputs), off + length (witness_bytes inputs))
  unfolding read_witness
  read_witness-witness_bytes off n [] r h =
      let e : n + 0 ≡ n = omega arith in let e' : off + 0 ≡ off = omega arith in rw (e, e')
  read_witness-witness_bytes off n (i ∷ is') r h =
      let b = varint_buf (length i.witness) ++ items_bytes i.witness in
      let (r₁, r₂) = Reads-split f.disk off (length b) b _ refl r in
      rw
        (
          field_Reads off n (input_of i) i.witness r₁ (omega arith),
          read_witness-witness_bytes (off + length b)
              (n + (8 * length i.witness + items_space i.witness)) is' r₂ (omega arith),
        )
        (simp (length-append, add_assoc))
