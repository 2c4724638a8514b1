-- ===== src/Serial.antt =====
-- The serialization of transactions and block headers of the Bitcoin protocol, as the comment
-- above `read_transaction` in parse.c describes it: an independent description, which the parser
-- and the printer are measured against. Numbers of items are varints.
use bitcoin_iterate.Prelude.{
  ℕ, ◌+◌, ◌*◌, ◌%◌, ◌^◌, map, ◌<◌, ◌≡◌, none, some, List, [], ◌∷◌, ◌++◌, length, All, ◌==◌,
  if◌then◌else◌,
}
use bitcoin_iterate.Prelude.Bytes.{to_le}
use bitcoin_iterate.Types.{Hash, BlockHeader, Input, Output, Transaction}
use bitcoin_iterate.Format.{varint_buf}

-- A transaction as it is sent: an input has its stack of witness items.
pub record TxIn : Type 0 where
  pub txid : Hash
  pub index : ℕ
  pub script : List ℕ
  pub sequence_number : ℕ
  pub witness : List (List ℕ)

pub record TxOut : Type 0 where
  pub amount : ℕ
  pub script : List ℕ

pub record Tx : Type 0 where
  pub version : ℕ
  pub inputs : List TxIn
  pub outputs : List TxOut
  pub lock_time : ℕ

abbrev pub script_bytes : List ℕ → List ℕ
script_bytes script = varint_buf (length script) ++ script

abbrev pub input_bytes : TxIn → List ℕ
input_bytes i = i.txid ++ (to_le 4 i.index ++ (script_bytes i.script ++ to_le 4 i.sequence_number))

abbrev pub output_bytes : TxOut → List ℕ
output_bytes o = to_le 8 o.amount ++ script_bytes o.script

abbrev pub inputs_bytes : List TxIn → List ℕ
inputs_bytes [] = []
inputs_bytes (i ∷ is) = input_bytes i ++ inputs_bytes is

abbrev pub outputs_bytes : List TxOut → List ℕ
outputs_bytes [] = []
outputs_bytes (o ∷ os) = output_bytes o ++ outputs_bytes os

abbrev pub items_bytes : List (List ℕ) → List ℕ
items_bytes [] = []
items_bytes (w ∷ ws) = script_bytes w ++ items_bytes ws

abbrev pub witness_bytes : List TxIn → List ℕ
witness_bytes [] = []
witness_bytes (i ∷ is) =
    (varint_buf (length i.witness) ++ items_bytes i.witness) ++ witness_bytes is

-- Inputs and outputs, without the number of inputs in front.
abbrev pub body_bytes : Tx → List ℕ
body_bytes t = inputs_bytes t.inputs ++ (varint_buf (length t.outputs) ++ outputs_bytes t.outputs)

-- version | transaction inputs | transaction outputs | lock time
abbrev pub original_bytes : Tx → List ℕ
original_bytes t =
    to_le 4 t.version ++ ((varint_buf (length t.inputs) ++ body_bytes t) ++ to_le 4 t.lock_time)

-- version | marker | flag | transaction inputs | transaction outputs | witness | lock time
abbrev pub segwit_bytes : Tx → List ℕ
segwit_bytes t =
    to_le 4 t.version
    ++ (0
        ∷ 1
        ∷ ((varint_buf (length t.inputs) ++ body_bytes t)
            ++ (witness_bytes t.inputs ++ to_le 4 t.lock_time)))

-- The fields of an input, before its witness is read.
abbrev pub input_of : TxIn → Input
input_of i = record {
  txid = i.txid;
  index = i.index;
  script_length = length i.script;
  script = i.script;
  num_witness = none;
  witness = none;
  sequence_number = i.sequence_number;
}

abbrev pub output_of : TxOut → Output
output_of o = record { amount = o.amount; script_length = length o.script; script = o.script }

-- What the widths of the fields allow.
pub record TxInFits (i : TxIn) : Type 0 where
  pub txid : length i.txid ≡ 32
  pub index : i.index < 2 ^ 32
  pub sequence_number : i.sequence_number < 2 ^ 32

pub record TxOutFits (o : TxOut) : Type 0 where
  pub amount : o.amount < 2 ^ 64

pub record TxFits (t : Tx) : Type 0 where
  pub version : t.version < 2 ^ 32
  pub lock_time : t.lock_time < 2 ^ 32
  pub inputs : All TxInFits t.inputs
  pub outputs : All TxOutFits t.outputs

-- The bytes of the space that scripts take, and those of the witness: pointers and items.
abbrev pub scripts_space : List TxIn → ℕ
scripts_space [] = 0
scripts_space (i ∷ is) = length i.script + scripts_space is

abbrev pub out_scripts_space : List TxOut → ℕ
out_scripts_space [] = 0
out_scripts_space (o ∷ os) = length o.script + out_scripts_space os

abbrev pub items_space : List (List ℕ) → ℕ
items_space [] = 0
items_space (w ∷ ws) = length w + items_space ws

abbrev pub witness_space : List TxIn → ℕ
witness_space [] = 0
witness_space (i ∷ is) = 8 * length i.witness + items_space i.witness + witness_space is

abbrev pub body_space : Tx → ℕ
body_space t =
    80 * length t.inputs
    + scripts_space t.inputs
    + (24 * length t.outputs + out_scripts_space t.outputs)

-- The inputs once the witness is read, with the space at `off` before it.
abbrev pub witnessed : ℕ → List TxIn → List Input
witnessed off [] = []
witnessed off (i ∷ is) =
    record (input_of i) {
      num_witness = some (length i.witness);
      witness = if length i.witness == 0 then none else some off;
    }
    ∷ witnessed (off + (8 * length i.witness + items_space i.witness)) is

-- What the parser makes of a transaction, by each of the two serializations. The segwit one is
-- read with the space at `off`.
abbrev pub parsed_original : (List ℕ → Hash) → Tx → Transaction
parsed_original sha256 t = record {
  version = t.version;
  input_count = length t.inputs;
  input = map input_of t.inputs;
  output_count = length t.outputs;
  output = map output_of t.outputs;
  lock_time = t.lock_time;
  segwit = 0;
  txid = sha256 (sha256 (original_bytes t));
  wtxid = sha256 (sha256 (original_bytes t));
  total_len = length (original_bytes t) % 2 ^ 32;
  non_swlen = length (original_bytes t) % 2 ^ 32;
}

abbrev pub parsed_segwit : (List ℕ → Hash) → ℕ → Tx → Transaction
parsed_segwit sha256 off t = record (parsed_original sha256 t) {
  input = witnessed (off + body_space t) t.inputs;
  segwit = 1;
  wtxid = sha256 (sha256 (segwit_bytes t));
  total_len = length (segwit_bytes t) % 2 ^ 32;
}

-- The 80 bytes of a block header, from the version to the nonce.
abbrev pub header_bytes : BlockHeader → List ℕ
header_bytes bh =
    to_le 4 bh.version
    ++ (bh.prev_hash
        ++ (bh.merkle_hash ++ (to_le 4 bh.timestamp ++ (to_le 4 bh.target ++ to_le 4 bh.nonce))))

pub record BlockHeaderFits (bh : BlockHeader) : Type 0 where
  pub d9b4bef9 : bh.d9b4bef9 < 2 ^ 32
  pub len : bh.len < 2 ^ 32
  pub version : bh.version < 2 ^ 32
  pub prev_hash : length bh.prev_hash ≡ 32
  pub merkle_hash : length bh.merkle_hash ≡ 32
  pub timestamp : bh.timestamp < 2 ^ 32
  pub target : bh.target < 2 ^ 32
  pub nonce : bh.nonce < 2 ^ 32
  pub transaction_count : bh.transaction_count < 2 ^ 64
