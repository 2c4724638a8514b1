-- ===== src/Tests/Reading.antt =====
-- Runs of the parser and the files.
use bitcoin_iterate.Prelude.{
  ℕ, ◌+◌, ◌^◌, ◌≤◌, ◌<◌, ◌≡◌, refl, ◌⊎◌, true, false, List, [], ◌∷◌, ◌++◌, length, arith, ok,
}
use bitcoin_iterate.Prelude.Bytes.{to_le}
use bitcoin_iterate.Space.{buf_size, space_alloc}
use bitcoin_iterate.Space.Bounds.{space_alloc_cases}
use bitcoin_iterate.Format.{varint_buf}
use bitcoin_iterate.Serial.{
  original_bytes, segwit_bytes, parsed_original, parsed_segwit, body_space, witness_space,
  header_bytes,
}
use bitcoin_iterate.Parse.{
  pull_varint, read_transaction, read_block_header, next_block_header_prefix,
}
use bitcoin_iterate.Parse.Parts.{at}
use bitcoin_iterate.Parse.Words.{pull_varint-varint_buf}
use bitcoin_iterate.Parse.RoundTrip.{read_transaction-original_bytes, read_transaction-segwit_bytes}
use bitcoin_iterate.Parse.Scan.{next_block_header_prefix-first, Marked, Unmarked}
use bitcoin_iterate.Parse.Header.{read_block_header-header_bytes}
use bitcoin_iterate.Tests.Data.{
  toy_sha256, small_tx, small_tx-TxFits, small_header, small_header-BlockHeaderFits, plain_file,
  mapped_file, plain_file-IsOpen, mapped_file-IsOpen, wrapped, wrapped-Reads,
}

read_transaction-segwit_bytes_example :
    read_transaction toy_sha256 (at 100) (mapped_file (wrapped (segwit_bytes small_tx))) 1
    ≡ ok (
      parsed_segwit toy_sha256 100 small_tx,
      at (100 + (body_space small_tx + witness_space small_tx.inputs)),
      1 + length (segwit_bytes small_tx),
    )
read_transaction-segwit_bytes_example =
    read_transaction-segwit_bytes (mapped_file (wrapped (segwit_bytes small_tx)))
      (mapped_file-IsOpen (wrapped (segwit_bytes small_tx))) toy_sha256 1 100 small_tx
      small_tx-TxFits (wrapped-Reads (segwit_bytes small_tx)) (omega arith)

read_transaction-original_bytes_example :
    read_transaction toy_sha256 (at 100) (plain_file (wrapped (original_bytes small_tx))) 1
    ≡ ok (
      parsed_original toy_sha256 small_tx,
      at (100 + body_space small_tx),
      1 + length (original_bytes small_tx),
    )
read_transaction-original_bytes_example =
    read_transaction-original_bytes (plain_file (wrapped (original_bytes small_tx)))
      (plain_file-IsOpen (wrapped (original_bytes small_tx))) toy_sha256 1 100 small_tx
      small_tx-TxFits (omega arith) (wrapped-Reads (original_bytes small_tx)) (omega arith)

abbrev header_file : List ℕ
header_file =
    to_le 4 small_header.d9b4bef9
    ++ (to_le 4 small_header.len
        ++ (header_bytes small_header ++ varint_buf small_header.transaction_count))

read_block_header-header_bytes_example :
    read_block_header toy_sha256 (mapped_file (wrapped header_file)) 1 small_header.d9b4bef9
    ≡ ok (
      small_header,
      toy_sha256 (toy_sha256 (header_bytes small_header)),
      1 + 88 + length (varint_buf small_header.transaction_count),
    )
read_block_header-header_bytes_example =
    read_block_header-header_bytes toy_sha256 (mapped_file (wrapped header_file)) 1 small_header
      (mapped_file-IsOpen (wrapped header_file)) small_header-BlockHeaderFits
      (wrapped-Reads header_file)

next_block_header_prefix-first_example :
    ((n : ℕ) × (next_block_header_prefix (plain_file (9 ∷ 1 ∷ 2 ∷ 3 ∷ 4 ∷ 5 ∷ [])) 0 0x05040302
        ≡ ok (true, 0 + n))
      × Marked (plain_file (9 ∷ 1 ∷ 2 ∷ 3 ∷ 4 ∷ 5 ∷ [])) 0x05040302 (0 + n)
      × Unmarked (plain_file (9 ∷ 1 ∷ 2 ∷ 3 ∷ 4 ∷ 5 ∷ [])) 0x05040302 0 n)
    ⊎ ((off' : ℕ) × (next_block_header_prefix (plain_file (9 ∷ 1 ∷ 2 ∷ 3 ∷ 4 ∷ 5 ∷ [])) 0 0x05040302
          ≡ ok (false, off'))
        × Unmarked (plain_file (9 ∷ 1 ∷ 2 ∷ 3 ∷ 4 ∷ 5 ∷ [])) 0x05040302 0 6)
next_block_header_prefix-first_example =
    next_block_header_prefix-first (plain_file (9 ∷ 1 ∷ 2 ∷ 3 ∷ 4 ∷ 5 ∷ [])) 0x05040302 0
      (plain_file-IsOpen (9 ∷ 1 ∷ 2 ∷ 3 ∷ 4 ∷ 5 ∷ []))

pull_varint-varint_buf_example :
    pull_varint (mapped_file (wrapped (varint_buf 70_000))) 1
    ≡ ok (70_000, 1 + length (varint_buf 70_000))
pull_varint-varint_buf_example =
    pull_varint-varint_buf (mapped_file (wrapped (varint_buf 70_000))) 1
      (mapped_file-IsOpen (wrapped (varint_buf 70_000))) 70_000 (omega arith)
      (wrapped-Reads (varint_buf 70_000))

alloc_ten :
    space_alloc (record { off = 5 }) 10 ≡ ok (record { start = 5; bytes = 10 }, record { off = 15 })
unfolding space_alloc
alloc_ten = refl

space_alloc_cases_example :
    (◌≡◌ {A = ℕ} 5 5)
    × (◌≡◌ {A = ℕ} 10 10)
    × (15 ≤ buf_size)
    × ((5 + 10 < 2 ^ 64) × (◌≡◌ {A = ℕ} 15 (5 + 10)) ⊎ (2 ^ 64 ≤ 5 + 10) × (buf_size < 5 + 10))
space_alloc_cases_example =
    space_alloc_cases (record { off = 5 }) (record { off = 15 }) (record { start = 5; bytes = 10 })
      10 (omega arith) (omega arith) alloc_ten
