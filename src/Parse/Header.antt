-- ===== src/Parse/Header.antt =====
-- Reading back a block header.
use bitcoin_iterate.Prelude.{
  ℕ, ◌+◌, ◌≡◌, refl, List, [], ◌++◌, arith, length, length-append, ok, ==_iff,
}
use bitcoin_iterate.Prelude.Bytes.{Reads, Reads-split, to_le, length-to_le}
use bitcoin_iterate.Types.{Hash, BlockHeader}
use bitcoin_iterate.Io.{File}
use bitcoin_iterate.Io.Modes.{IsOpen}
use bitcoin_iterate.Format.{varint_buf}
use bitcoin_iterate.Serial.{header_bytes, BlockHeaderFits}
use bitcoin_iterate.Parse.{double_sha256, read_block_header}
use bitcoin_iterate.Parse.Words.{pull_varint-varint_buf, pull_u32-to_le, pull_hash-Reads}
use bitcoin_iterate.Parse.RoundTrip.{append_to_hash_context-Reads}

-- A block header behind its marker and length, and the number of transactions behind it, are read
-- back, and the block's hash is the double SHA256 of the 80 bytes from the version to the nonce.
pub read_block_header-header_bytes :
    (sha256 : List ℕ → Hash) (f : File) (off : ℕ) (bh : BlockHeader)
    → IsOpen f
    → BlockHeaderFits bh
    → Reads f.disk off (
        to_le 4 bh.d9b4bef9
        ++ (to_le 4 bh.len ++ (header_bytes bh ++ varint_buf bh.transaction_count)))
    → read_block_header sha256 f off bh.d9b4bef9
      ≡ ok (
        bh,
        sha256 (sha256 (header_bytes bh)),
        off + 88 + length (varint_buf bh.transaction_count),
      )
unfolding read_block_header double_sha256
read_block_header-header_bytes sha256 f off bh is fits r =
    let (r₁, s₁) = Reads-split f.disk off 4 (to_le 4 bh.d9b4bef9) _ (length-to_le 4 _) r in
    let (r₂, s₂) = Reads-split f.disk (off + 4) 4 (to_le 4 bh.len) _ (length-to_le 4 _) s₁ in
    let start = off + 4 + 4 in
    let l : length (header_bytes bh) ≡ 80 =
      omega (arith, length-append {0}, length-to_le, fits.prev_hash, fits.merkle_hash) in
    let (h, r₉) = Reads-split f.disk start 80 (header_bytes bh) _ l s₂ in
    let (r₃, s₃) = Reads-split f.disk start 4 (to_le 4 bh.version) _ (length-to_le 4 _) h in
    let (r₄, s₄) = Reads-split f.disk (start + 4) 32 bh.prev_hash _ fits.prev_hash s₃ in
    let (r₅, s₅) = Reads-split f.disk (start + 4 + 32) 32 bh.merkle_hash _ fits.merkle_hash s₄ in
    let o = start + 4 + 32 + 32 in
    let (r₆, s₆) = Reads-split f.disk o 4 (to_le 4 bh.timestamp) _ (length-to_le 4 _) s₅ in
    let (r₇, r₈) = Reads-split f.disk (o + 4) 4 (to_le 4 bh.target) _ (length-to_le 4 _) s₆ in
    let end : o + 4 + 4 + 4 ≡ start + 80 = omega arith in
    let last : start + 80 ≡ off + 88 = omega arith in
    rw (
      pull_u32-to_le f off is bh.d9b4bef9 fits.d9b4bef9 r₁,
      (==_iff bh.d9b4bef9 bh.d9b4bef9).1 refl,
      pull_u32-to_le f (off + 4) is bh.len fits.len r₂,
      pull_u32-to_le f start is bh.version fits.version r₃,
      pull_hash-Reads f (start + 4) is bh.prev_hash fits.prev_hash r₄,
      pull_hash-Reads f (start + 4 + 32) is bh.merkle_hash fits.merkle_hash r₅,
      pull_u32-to_le f o is bh.timestamp fits.timestamp r₆,
      pull_u32-to_le f (o + 4) is bh.target fits.target r₇,
      pull_u32-to_le f (o + 4 + 4) is bh.nonce fits.nonce r₈,
      end,
      append_to_hash_context-Reads f is [] (header_bytes bh) start (start + 80) h (omega arith),
      pull_varint-varint_buf f (start + 80) is bh.transaction_count fits.transaction_count r₉,
      last,
    )
