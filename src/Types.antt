-- ===== src/Types.antt =====
-- The structures of types.h. A hash is its list of bytes, in the order in which they lie in memory.
use bitcoin_iterate.Prelude.{ℕ, Option, List}

abbrev pub Hash : Type 0
Hash = List ℕ

-- SHA256_DIGEST_LENGTH
abbrev pub digest_length : ℕ
digest_length = 32

-- `D9B4BEF9` is the field that holds the marker of the network.
pub record BlockHeader : Type 0 where
  pub d9b4bef9 : ℕ
  pub len : ℕ
  pub version : ℕ
  pub prev_hash : Hash
  pub merkle_hash : Hash
  pub timestamp : ℕ
  pub target : ℕ
  pub nonce : ℕ
  pub transaction_count : ℕ

-- A pointer to a block is a number, NULL is `none`. The height -1, not yet known, is `none` too.
pub record Block : Type 0 where
  pub id : Hash
  pub height : Option ℕ
  pub filenum : ℕ
  pub pos : ℕ
  pub next : Option ℕ
  pub bh : BlockHeader

-- `script_length` bytes of script. `num_witness` is not set by the code before the witness is
-- read, and `witness` is the place in the space of the array of items, or NULL.
pub record Input : Type 0 where
  pub txid : Hash
  pub index : ℕ
  pub script_length : ℕ
  pub script : List ℕ
  pub num_witness : Option ℕ
  pub witness : Option ℕ
  pub sequence_number : ℕ

pub record Output : Type 0 where
  pub amount : ℕ
  pub script_length : ℕ
  pub script : List ℕ

pub record Transaction : Type 0 where
  pub version : ℕ
  pub input_count : ℕ
  pub input : List Input
  pub output_count : ℕ
  pub output : List Output
  pub lock_time : ℕ
  pub segwit : ℕ
  pub txid : Hash
  pub wtxid : Hash
  pub total_len : ℕ
  pub non_swlen : ℕ

-- `type` is the guess at the kind of output.
pub record Utxo : Type 0 where
  pub txid : Hash
  pub index : ℕ
  pub timestamp : ℕ
  pub height : ℕ
  pub txnum : ℕ
  pub type : ℕ
  pub amount : ℕ

abbrev pub op_return : ℕ
op_return = 0x6a

abbrev pub unknown_output : ℕ
unknown_output = 0

abbrev pub payment_output : ℕ
payment_output = 1

abbrev pub change_output : ℕ
change_output = 2
