-- ===== src/Parse/Words.antt =====
-- Reading back words, hashes and varints that stand in the file.
use native.Mathlib.Nat.{add_assoc}
use mathlib.Core.Path.{subst}
use bitcoin_iterate.Prelude.{
  ℕ, ◌+◌, ◌^◌, ◌<◌, ◌≡◌, refl, Option, none, some, List, [], ◌∷◌, arith, length, get_elem?, leb,
  ltb, ok, Bool-cases, inl, inr, lt→ltb, ltb→lt,
}
use bitcoin_iterate.Prelude.Bytes.{
  Reads, read_at, read_at-Reads, Reads-read_at, of_le, to_le, length-to_le, of_le-to_le_two,
  of_le-to_le_four, of_le-to_le_eight,
}
use bitcoin_iterate.Io.{File, memory, file_read}
use bitcoin_iterate.Io.Modes.{IsOpen, Maps, Reads-memory, Reads-Maps}
use bitcoin_iterate.Format.{varint_buf}
use bitcoin_iterate.Parse.{
  varint_byte, varint_window, varint_tail, pull_varint, pull_bytes, pull_u32, pull_u64, pull_hash,
}

pub pull_bytes-Reads :
    (f : File) (off : ℕ) (bs : List ℕ)
    → IsOpen f
    → Reads f.disk off bs
    → pull_bytes f off (length bs) ≡ ok (bs, off + length bs)
unfolding pull_bytes file_read
pull_bytes-Reads f off bs is r = go f.mmap is.maps
  where
    go :
        (o : Option (List ℕ))
        → Maps o f.disk
        → pull_bytes (record f { mmap = o }) off (length bs) ≡ ok (bs, off + length bs)
    go none maps = rw (read_at-Reads f.disk off bs r)
    go (some m) maps = rw (read_at-Reads m off bs (Reads-Maps m f.disk off bs maps r))

module _ (f : File) (off : ℕ) (is : IsOpen f) where
  pub pull_bytes_exact :
      (n : ℕ) (bs : List ℕ)
      → length bs ≡ n
      → Reads f.disk off bs
      → pull_bytes f off n ≡ ok (bs, off + n)
  pull_bytes_exact n bs l r = rw (← l) (pull_bytes-Reads f off bs is r)

  pub pull_u32-read_at :
      (bs : List ℕ) → read_at f.disk off 4 ≡ some bs → pull_u32 f off ≡ ok (of_le bs, off + 4)
  unfolding pull_u32
  pull_u32-read_at bs e =
      let (r, l) = Reads-read_at f.disk off 4 bs e in rw (pull_bytes_exact 4 bs l r)

  pub pull_u32-to_le :
      (v : ℕ) → v < 2 ^ 32 → Reads f.disk off (to_le 4 v) → pull_u32 f off ≡ ok (v, off + 4)
  unfolding pull_u32
  pull_u32-to_le v h r =
      rw (pull_bytes_exact 4 (to_le 4 v) (length-to_le 4 v) r, of_le-to_le_four v h)

  pub pull_u64-to_le :
      (v : ℕ) → v < 2 ^ 64 → Reads f.disk off (to_le 8 v) → pull_u64 f off ≡ ok (v, off + 8)
  unfolding pull_u64
  pull_u64-to_le v h r =
      rw (pull_bytes_exact 8 (to_le 8 v) (length-to_le 8 v) r, of_le-to_le_eight v h)

  pub pull_hash-Reads :
      (h : List ℕ) → length h ≡ 32 → Reads f.disk off h → pull_hash f off ≡ ok (h, off + 32)
  unfolding pull_hash
  pull_hash-Reads h l r = pull_bytes_exact 32 h l r

  varint_tail-Reads :
      (i : ℕ) (bs : List ℕ)
      → Reads (memory f) (off + i) bs
      → varint_tail f off i (length bs) ≡ ok (of_le bs)
  unfolding varint_tail of_le
  varint_tail-Reads i [] r = refl
  varint_tail-Reads i (b ∷ bs) r =
      rw (r.0, varint_tail-Reads (i + 1) bs (rw (← add_assoc off i 1) r.1))

  varint_tail-to_le :
      (i n v : ℕ)
      → Reads (memory f) (off + i) (to_le n v)
      → varint_tail f off i n ≡ ok (of_le (to_le n v))
  varint_tail-to_le i n v r =
      subst (λ k. varint_tail f off i k ≡ ok (of_le (to_le n v))) (length-to_le n v)
        (varint_tail-Reads i (to_le n v) r)

  varint_window-ok : (b : ℕ) → get_elem? f.disk off ≡ some b → varint_window f off ≡ ok tt
  unfolding varint_window
  varint_window-ok b e = go f.mmap
    where
      go : (o : Option (List ℕ)) → varint_window (record f { mmap = o }) off ≡ ok tt
      go none = rw (varint_window, e)
      go (some m) = refl

  -- The first byte is a tag; the bytes behind it stand for the value.
  tagged :
      (p0 : ℕ) (bs : List ℕ)
      → Reads f.disk off (p0 ∷ bs)
      → (varint_window f off ≡ ok tt)
        × (varint_byte f off 0 ≡ ok p0)
        × Reads (memory f) (off + 1) bs
  unfolding varint_byte
  tagged p0 bs r =
      let m = Reads-memory f off (p0 ∷ bs) is r in
      let e : off + 0 ≡ off = omega arith in (varint_window-ok p0 r.0, byte (rw e m.0), m.1)
    where
      byte : get_elem? (memory f) (off + 0) ≡ some p0 → varint_byte f off 0 ≡ ok p0
      byte h = rw h

  one_byte : (v : ℕ) → v < 0xfd → Reads f.disk off (v ∷ []) → pull_varint f off ≡ ok (v, off + 1)
  unfolding pull_varint
  one_byte v h r = let (w, b, m) = tagged v [] r in rw (w, b, lt→ltb v 0xfd h)

  two_bytes :
      (v : ℕ)
      → v < 2 ^ 16
      → Reads f.disk off (0xfd ∷ to_le 2 v)
      → pull_varint f off ≡ ok (v, off + 3)
  unfolding pull_varint
  two_bytes v h r =
      let (w, b, m) = tagged 0xfd (to_le 2 v) r in
      rw (w, b, varint_tail-to_le 1 2 v m, of_le-to_le_two v h)

  four_bytes :
      (v : ℕ)
      → v < 2 ^ 32
      → Reads f.disk off (0xfe ∷ to_le 4 v)
      → pull_varint f off ≡ ok (v, off + 5)
  unfolding pull_varint
  four_bytes v h r =
      let (w, b, m) = tagged 0xfe (to_le 4 v) r in
      rw (w, b, varint_tail-to_le 1 4 v m, of_le-to_le_four v h)

  eight_bytes :
      (v : ℕ)
      → v < 2 ^ 64
      → Reads f.disk off (0xff ∷ to_le 8 v)
      → pull_varint f off ≡ ok (v, off + 9)
  unfolding pull_varint
  eight_bytes v h r =
      let (w, b, m) = tagged 0xff (to_le 8 v) r in
      rw (w, b, varint_tail-to_le 1 8 v m, of_le-to_le_eight v h)

  -- `pull_varint` reads back what `print_varint` writes.
  pub pull_varint-varint_buf :
      (v : ℕ)
      → v < 2 ^ 64
      → Reads f.disk off (varint_buf v)
      → pull_varint f off ≡ ok (v, off + length (varint_buf v))
  unfolding varint_buf
  pull_varint-varint_buf v h r = elim (Bool-cases (ltb v 0xfd)) [
    | inl a ↦ rw a (one_byte v (ltb→lt v _ a) (rw a at r))
    | inr a ↦ elim (Bool-cases (leb v 0xffff)) [
      | inl b ↦ rw (a, b, length-to_le 2 v) (two_bytes v (ground arith) (rw (a, b) at r))
      | inr b ↦ elim (Bool-cases (leb v 0xffff_ffff)) [
        | inl c ↦ rw (a, b, c, length-to_le 4 v) (four_bytes v (ground arith) (rw (a, b, c) at r))
        | inr c ↦ rw (a, b, c, length-to_le 8 v) (eight_bytes v h (rw (a, b, c) at r))
      ]
    ]
  ]
