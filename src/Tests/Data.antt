-- ===== src/Tests/Data.antt =====
-- Small inputs: a transaction, a block header, a file, tables as lists, and simple functions in the
-- place of the libraries'.
use bitcoin_iterate.Prelude.{
  ℕ, ◌≡◌, refl, true, Option, none, some, List, [], ◌∷◌, ◌++◌, length, replicate, arith,
}
use bitcoin_iterate.Prelude.Bytes.{Reads, Reads-between, bytes_eq_sound}
use bitcoin_iterate.Types.{Hash, BlockHeader, Block, Input, Transaction, Utxo}
use bitcoin_iterate.Io.{File}
use bitcoin_iterate.Io.Modes.{IsOpen}
use bitcoin_iterate.Serial.{Tx, TxFits, BlockHeaderFits, input_of}
use bitcoin_iterate.Htable.{Htable}
use bitcoin_iterate.Htable.ListTable.{list_table}
use bitcoin_iterate.Block.{Entry, keyof_block_map, block_eq}
use bitcoin_iterate.Utxo.{OutPoint, keyof_utxo, utxohash_eq}

abbrev pub toy_sha256 : List ℕ → Hash
toy_sha256 bytes = replicate 32 (length bytes)

abbrev pub zeros : Hash
zeros = replicate 32 0

abbrev pub sevens : Hash
sevens = replicate 32 7

abbrev pub eights : Hash
eights = replicate 32 8

-- One input with a witness of one item, and one output.
abbrev pub small_tx : Tx
small_tx = record {
  version = 2;
  inputs =
      record {
        txid = sevens;
        index = 1;
        script = 0x51 ∷ [];
        sequence_number = 0xffff_ffff;
        witness = (9 ∷ 9 ∷ []) ∷ [];
      }
      ∷ [];
  outputs = record { amount = 5000; script = 0x52 ∷ 0x53 ∷ [] } ∷ [];
  lock_time = 0;
}

pub small_tx-TxFits : TxFits small_tx
small_tx-TxFits = record {
  version = omega arith;
  lock_time = omega arith;
  inputs = (record { txid = refl; index = omega arith; sequence_number = omega arith }, tt);
  outputs = (record { amount = omega arith }, tt);
}

abbrev pub small_header : BlockHeader
small_header = record {
  d9b4bef9 = 0xD9B4BEF9;
  len = 200;
  version = 1;
  prev_hash = sevens;
  merkle_hash = eights;
  timestamp = 1_300_000_000;
  target = 3;
  nonce = 4;
  transaction_count = 1;
}

pub small_header-BlockHeaderFits : BlockHeaderFits small_header
small_header-BlockHeaderFits = record {
  d9b4bef9 = omega arith;
  len = omega arith;
  version = omega arith;
  prev_hash = refl;
  merkle_hash = refl;
  timestamp = omega arith;
  target = omega arith;
  nonce = omega arith;
  transaction_count = omega arith;
}

-- A file that is not mapped, and one that is.
abbrev pub plain_file : List ℕ → File
plain_file bytes = record {
  name = 1;
  is_open = true;
  len = length bytes;
  mmap = none;
  disk = bytes;
}

abbrev pub mapped_file : List ℕ → File
mapped_file bytes = record {
  name = 1;
  is_open = true;
  len = length bytes;
  mmap = some bytes;
  disk = bytes;
}

pub plain_file-IsOpen : (bytes : List ℕ) → IsOpen (plain_file bytes)
plain_file-IsOpen bytes = record { len = refl; maps = tt }

pub mapped_file-IsOpen : (bytes : List ℕ) → IsOpen (mapped_file bytes)
mapped_file-IsOpen bytes = record { len = refl; maps = λ i b e. e }

-- What stands behind one byte, with one byte behind it.
abbrev pub wrapped : List ℕ → List ℕ
wrapped bytes = 0 ∷ (bytes ++ (0 ∷ []))

pub wrapped-Reads : (bytes : List ℕ) → Reads (wrapped bytes) 1 bytes
wrapped-Reads bytes = Reads-between (0 ∷ []) bytes (0 ∷ [])

pub utxo_congr :
    (e : Utxo) (k : OutPoint)
    → utxohash_eq e k ≡ true
    → (x : Utxo) → utxohash_eq x k ≡ utxohash_eq x (keyof_utxo e)
unfolding utxohash_eq
utxo_congr e k h x = rw (bytes_eq_sound _ _ h)

abbrev pub utxo_list : Htable OutPoint Utxo utxohash_eq
utxo_list = list_table utxohash_eq keyof_utxo utxo_congr

pub block_congr :
    (e : Entry) (k : Hash)
    → block_eq e k ≡ true
    → (x : Entry) → block_eq x k ≡ block_eq x (keyof_block_map e)
unfolding block_eq keyof_block_map
block_congr e k h x = rw (bytes_eq_sound _ _ h)

abbrev pub block_list : Htable Hash Entry block_eq
block_list = list_table block_eq keyof_block_map block_congr

-- The output that the input of the small transaction spends.
abbrev pub spent_utxo : Utxo
spent_utxo = record {
  txid = sevens;
  index = 1;
  timestamp = 1_200_000_000;
  height = 10;
  txnum = 3;
  type = 0;
  amount = 6000;
}

abbrev pub small_input : Input
small_input =
    input_of
      (record { txid = sevens; index = 1; script = 0x51 ∷ []; sequence_number = 0; witness = [] })

abbrev pub small_transaction : Transaction
small_transaction = record {
  version = 1;
  input_count = 1;
  input = small_input ∷ [];
  output_count = 1;
  output = record { amount = 5000; script_length = 2; script = 0x52 ∷ 0x53 ∷ [] } ∷ [];
  lock_time = 0;
  segwit = 0;
  txid = eights;
  wtxid = eights;
  total_len = 62;
  non_swlen = 62;
}

abbrev pub small_block : Block
small_block = record {
  id = eights;
  height = some 11;
  filenum = 0;
  pos = 0;
  next = none;
  bh = small_header;
}

-- A map that knows every output, by the same amount and time.
abbrev pub get_spent : OutPoint → Option Utxo
get_spent k = some spent_utxo
