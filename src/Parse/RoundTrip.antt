-- ===== src/Parse/RoundTrip.antt =====
-- Reading back a serialized transaction.
use bitcoin_iterate.Prelude.{
  ℕ, ◌+◌, ◌-◌, ◌%◌, ◌^◌, ◌≤◌, ◌<◌, ◌≡◌, refl, some, none, List, [], ◌∷◌, ◌++◌, arith, length,
  length-append, append_assoc, Option, ok, ◌==◌, false,
}
use bitcoin_iterate.Prelude.Bytes.{Reads, Reads-split, read_at-Reads, to_le, length-to_le}
use bitcoin_iterate.Types.{Hash}
use bitcoin_iterate.Space.{buf_size}
use bitcoin_iterate.Io.{File, file_read}
use bitcoin_iterate.Io.Modes.{IsOpen, Maps, Reads-Maps}
use bitcoin_iterate.Format.{varint_buf}
use bitcoin_iterate.Serial.{
  Tx, TxFits, body_bytes, witness_bytes, original_bytes, segwit_bytes, parsed_original,
  parsed_segwit, body_space, witness_space,
}
use bitcoin_iterate.Parse.{
  pull_varint, append_to_hash_context, read_input_count, read_witness_if, read_wtxid,
  read_transaction, double_sha256,
}
use bitcoin_iterate.Parse.Words.{pull_varint-varint_buf, pull_u32-to_le}
use bitcoin_iterate.Parse.Parts.{at}
use bitcoin_iterate.Parse.Body.{read_body-body_bytes, read_witness-witness_bytes}

one_byte : (v : ℕ) → v < 2 → varint_buf v ≡ v ∷ []
unfolding varint_buf
one_byte v h = ground arith

module _ (f : File) (is : IsOpen f) where
  pub append_to_hash_context-Reads :
      (context bytes : List ℕ) (context_off off : ℕ)
      → Reads f.disk context_off bytes
      → off ≡ context_off + length bytes
      → append_to_hash_context context context_off f off ≡ ok (context ++ bytes, off)
  unfolding append_to_hash_context file_read
  append_to_hash_context-Reads context bytes c off r e =
      let l : off - c ≡ length bytes = omega arith in go f.mmap is.maps l
    where
      go :
          (o : Option (List ℕ))
          → Maps o f.disk
          → off - c ≡ length bytes
          → append_to_hash_context context c (record f { mmap = o }) off
            ≡ ok (context ++ bytes, off)
      go none maps l = rw (append_to_hash_context, l, read_at-Reads f.disk c bytes r)
      go (some m) maps l =
          rw (
            append_to_hash_context,
            l,
            read_at-Reads m c bytes (Reads-Maps m f.disk c bytes maps r),
          )

  read_input_count_original :
      (c off n : ℕ)
      → 0 < n
      → n < 2 ^ 64
      → Reads f.disk off (varint_buf n)
      → read_input_count c f off ≡ ok (0, n, c, off + length (varint_buf n))
  unfolding read_input_count
  read_input_count_original c off n pos h r =
      let nonzero : (n == 0) ≡ false = ground arith in
      rw (pull_varint-varint_buf f off is n h r, nonzero)

  -- The marker and the flag of the segwit serialization are varints of one byte.
  marker_byte :
      (off v : ℕ) → v < 2 → Reads f.disk off (v ∷ []) → pull_varint f off ≡ ok (v, off + 1)
  marker_byte off v h r =
      rw (one_byte v h) at (pull_varint-varint_buf f off is v (omega arith) (rw (one_byte v h) r))

  read_input_count_segwit :
      (c off n : ℕ)
      → n < 2 ^ 64
      → Reads f.disk off (0 ∷ 1 ∷ varint_buf n)
      → read_input_count c f off ≡ ok (1, n, off + 1 + 1, off + 1 + 1 + length (varint_buf n))
  unfolding read_input_count
  read_input_count_segwit c off n h r = rw (
    marker_byte off 0 (omega arith) (r.0, tt),
    marker_byte (off + 1) 1 (omega arith) (r.1.0, tt),
    pull_varint-varint_buf f (off + 1 + 1) is n h r.1.1,
  )

  -- A transaction in the original serialization, with at least one input, is read back whole.
  pub read_transaction-original_bytes :
      (sha256 : List ℕ → Hash) (off n : ℕ) (t : Tx)
      → TxFits t
      → 0 < length t.inputs
      → Reads f.disk off (original_bytes t)
      → n + body_space t ≤ buf_size
      → read_transaction sha256 (at n) f off
        ≡ ok (parsed_original sha256 t, at (n + body_space t), off + length (original_bytes t))
  unfolding read_transaction read_wtxid read_witness_if double_sha256
  read_transaction-original_bytes sha256 off n t fits some_input r h =
      let v = to_le 4 t.version in
      let vb = varint_buf (length t.inputs) in
      let body = vb ++ body_bytes t in
      let lv = length vb in
      let lb = length (body_bytes t) in
      let (r₁, s₁) = Reads-split f.disk off 4 v _ (length-to_le 4 _) r in
      let (r₂, r₃) = Reads-split f.disk (off + 4) (length body) body _ refl s₁ in
      let (r₂₁, r₂₂) = Reads-split f.disk (off + 4) lv vb _ refl r₂ in
      let all : length (original_bytes t) ≡ 4 + (length body + 4) = omega (
        arith,
        length-append v (body ++ to_le 4 t.lock_time),
        length-append body (to_le 4 t.lock_time),
        length-to_le 4 t.version,
        length-to_le 4 t.lock_time,
      ) in
      let o = off + 4 + length body in
      let total : (o + 4 - off) % 2 ^ 32 ≡ (4 + (length body + 4)) % 2 ^ 32 = omega arith in
      let counted : (((off + 4 - off) % 2 ^ 32 + (o - (off + 4))) % 2 ^ 32 + (o + 4 - o)) % 2 ^ 32
          ≡ (4 + (length body + 4)) % 2 ^ 32 =
        omega arith in
      let end : o + 4 ≡ off + (4 + (length body + 4)) = omega arith in
      let mid : off + 4 + lv + lb ≡ off + 4 + length body =
        omega (arith, length-append vb (body_bytes t)) in
      rw
        (
          pull_u32-to_le f off is t.version fits.version r₁,
          append_to_hash_context-Reads [] v off (off + 4) r₁
              (omega (arith, length-to_le 4 t.version)),
          read_input_count_original (off + 4) (off + 4) (length t.inputs) some_input (omega arith)
              r₂₁,
          read_body-body_bytes f is (off + 4 + lv) n t fits r₂₂ h,
          mid,
          append_to_hash_context-Reads v body (off + 4) (off + 4 + length body) r₂ refl,
          pull_u32-to_le f (off + 4 + length body) is t.lock_time fits.lock_time r₃,
          append_to_hash_context-Reads (v ++ body) (to_le 4 t.lock_time) (off + 4 + length body)
              (off + 4 + length body + 4) r₃ (omega (arith, length-to_le 4 t.lock_time)),
        )
        (rw (append_assoc, all, total, counted, end))

  -- So is a transaction in the segwit serialization, and its txid is taken over the original one.
  pub read_transaction-segwit_bytes :
      (sha256 : List ℕ → Hash) (off n : ℕ) (t : Tx)
      → TxFits t
      → Reads f.disk off (segwit_bytes t)
      → n + (body_space t + witness_space t.inputs) ≤ buf_size
      → read_transaction sha256 (at n) f off
        ≡ ok (
          parsed_segwit sha256 n t,
          at (n + (body_space t + witness_space t.inputs)),
          off + length (segwit_bytes t),
        )
  unfolding read_transaction read_wtxid read_witness_if double_sha256
  read_transaction-segwit_bytes sha256 off n t fits r h =
      let v = to_le 4 t.version in
      let vb = varint_buf (length t.inputs) in
      let body = vb ++ body_bytes t in
      let w = witness_bytes t.inputs in
      let lock = to_le 4 t.lock_time in
      let lv = length vb in
      let lb = length (body_bytes t) in
      let b = off + 4 + 1 + 1 in
      let o = b + length body + length w in
      let (r₁, s₁) = Reads-split f.disk off 4 v _ (length-to_le 4 _) r in
      let s₂ = s₁.1.1 in
      let (r₂, s₃) = Reads-split f.disk b (length body) body _ refl s₂ in
      let (r₂₁, r₂₂) = Reads-split f.disk b lv vb _ refl r₂ in
      let (r₃, r₄) = Reads-split f.disk (b + length body) (length w) w _ refl s₃ in
      let all : length (segwit_bytes t) ≡ 4 + (2 + (length body + (length w + 4))) = omega (
        arith,
        length-append v (0 ∷ 1 ∷ (body ++ (w ++ lock))),
        length-append body (w ++ lock),
        length-append w lock,
        length-to_le 4 t.version,
        length-to_le 4 t.lock_time,
      ) in
      let original : length (original_bytes t) ≡ 4 + (length body + 4) = omega (
        arith,
        length-append v (body ++ lock),
        length-append body lock,
        length-to_le 4 t.version,
        length-to_le 4 t.lock_time,
      ) in
      let total : (o + 4 - off) % 2 ^ 32 ≡ (4 + (2 + (length body + (length w + 4)))) % 2 ^ 32 =
        omega arith in
      let counted : (((off + 4 - off) % 2 ^ 32 + (b + length body - b)) % 2 ^ 32 + (o + 4 - o))
            % 2 ^ 32
          ≡ (4 + (length body + 4)) % 2 ^ 32 =
        omega arith in
      let end : o + 4 ≡ off + (4 + (2 + (length body + (length w + 4)))) = omega arith in
      let mid : b + lv + lb ≡ b + length body = omega (arith, length-append vb (body_bytes t)) in
      let sum : n + body_space t + witness_space t.inputs
          ≡ n + (body_space t + witness_space t.inputs) =
        omega arith in
      rw
        (
          pull_u32-to_le f off is t.version fits.version r₁,
          append_to_hash_context-Reads [] v off (off + 4) r₁
              (omega (arith, length-to_le 4 t.version)),
          read_input_count_segwit (off + 4) (off + 4) (length t.inputs) (omega arith)
              (s₁.0, (s₁.1.0, r₂₁)),
          read_body-body_bytes f is (b + lv) n t fits r₂₂ (omega arith),
          mid,
          append_to_hash_context-Reads v body b (b + length body) r₂ refl,
          read_witness-witness_bytes f is (b + length body) (n + body_space t) t.inputs r₃
              (omega arith),
          pull_u32-to_le f o is t.lock_time fits.lock_time r₄,
          append_to_hash_context-Reads (v ++ body) lock o (o + 4) r₄
              (omega (arith, length-to_le 4 t.lock_time)),
          append_to_hash_context-Reads [] (segwit_bytes t) off (o + 4) r (omega (arith, all)),
        )
        (rw (append_assoc, all, original, total, counted, end, sum))
