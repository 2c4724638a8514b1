-- ===== src/Parse.antt =====
-- The parser of parse.c: numbers, transactions, block headers, and the search for the next header.
-- `off` is `*poff`; a function returns the new one. SHA256 is a parameter, and a hash context is the
-- bytes that were given to it.
pub mod Words
pub mod Parts
pub mod Body
pub mod RoundTrip
pub mod Scan
pub mod Header
use bitcoin_iterate.Prelude.{
  ℕ, zero, suc, ◌+◌, ◌-◌, ◌*◌, ◌/◌, ◌%◌, ◌^◌, Bool, true, false, Option, none, some, List, [], ◌∷◌,
  ◌++◌, get_elem?, leb, ltb, ◌==◌, if◌then◌else◌, Result, ok, err, ◌>>=◌, ◌>>◌, guard, or_fail,
  no_varint, bad_flag_value, assert_failed, fault, out_of_fuel,
}
use bitcoin_iterate.Prelude.Bytes.{read_at, of_le}
use bitcoin_iterate.Types.{Hash, digest_length, BlockHeader, Input, Output, Transaction}
use bitcoin_iterate.Io.{File, memory, file_read}
use bitcoin_iterate.Space.{Space, Region, space_alloc, space_alloc_arr, write_region}

-- The byte `p[i]`: in the mapping, or in the nine bytes that pread filled as far as it could.
unfoldable pub varint_byte : File → ℕ → ℕ → Result ℕ
varint_byte f off i = or_fail (get_elem? (memory f) (off + i)) fault

-- pread of fewer than one byte is an error; a mapped file is not asked.
unfoldable pub varint_window : File → ℕ → Result (Unit {0})
varint_window f off = elim f.mmap [
  | some m ↦ ok tt
  | none ↦ elim (get_elem? f.disk off) [ none ↦ err no_varint | some b ↦ ok tt ]
]

-- p[1] + (p[2] << 8) + …, `n` bytes from p[i] on.
unfoldable pub varint_tail : File → (off i n : ℕ) → Result ℕ
unfolding varint_byte
varint_tail f off i zero = ok 0
varint_tail f off i (suc n) = do
  b ← varint_byte f off i
  rest ← varint_tail f off (i + 1) n
  ok (b + 256 * rest)

unfoldable pub pull_varint : File → ℕ → Result (ℕ × ℕ)
pull_varint f off = do
  varint_window f off
  p0 ← varint_byte f off 0
  if ltb p0 0xfd
      then ok (p0, off + 1)
      else if p0 == 0xfd
      then (do ret ← varint_tail f off 1 2; ok (ret, off + 3))
      else if p0 == 0xfe
      then (do ret ← varint_tail f off 1 4; ok (ret, off + 5))
      else (do ret ← varint_tail f off 1 8; ok (ret, off + 9))

unfoldable pub pull_bytes : File → (off num : ℕ) → Result (List ℕ × ℕ)
pull_bytes f off num = elim f.mmap [
  | some m ↦ do dst ← or_fail (read_at m off num) fault; ok (dst, off + num)
  | none ↦ do dst ← file_read f off num; ok (dst, off + num)
]

unfoldable pub pull_u32 : File → ℕ → Result (ℕ × ℕ)
pull_u32 f off = do (ret, off) ← pull_bytes f off 4; ok (of_le ret, off)

unfoldable pub pull_u64 : File → ℕ → Result (ℕ × ℕ)
pull_u64 f off = do (ret, off) ← pull_bytes f off 8; ok (of_le ret, off)

unfoldable pub pull_hash : File → ℕ → Result (Hash × ℕ)
pull_hash f off = pull_bytes f off 32

-- The fields of an input are written at element `i` of the array that `inputs` is.
unfoldable pub read_input : Space → File → ℕ → Result (Input × Space × ℕ)
read_input space f off = do
  (txid, off) ← pull_hash f off
  (index, off) ← pull_u32 f off
  (script_length, off) ← pull_varint f off
  (place, space) ← space_alloc space script_length
  write_region place 0 script_length
  (script, off) ← pull_bytes f off script_length
  (sequence_number, off) ← pull_u32 f off
  ok (
    record {
      txid = txid;
      index = index;
      script_length = script_length;
      script = script;
      num_witness = none;
      witness = none;
      sequence_number = sequence_number;
    },
    space,
    off,
  )

unfoldable pub read_output : Space → File → ℕ → Result (Output × Space × ℕ)
read_output space f off = do
  (amount, off) ← pull_u64 f off
  (script_length, off) ← pull_varint f off
  (place, space) ← space_alloc space script_length
  write_region place 0 script_length
  (script, off) ← pull_bytes f off script_length
  ok (record { amount = amount; script_length = script_length; script = script }, space, off)

-- The loops over the arrays: `n` elements from the `i`-th on. sizeof(struct input) is 80 and
-- sizeof(struct output) is 24, with 8-byte pointers.
abbrev pub sizeof_input : ℕ
sizeof_input = 80

abbrev pub sizeof_output : ℕ
sizeof_output = 24

unfoldable pub read_inputs : Region → (i n : ℕ) → Space → File → ℕ → Result (List Input × Space × ℕ)
read_inputs place i zero space f off = ok ([], space, off)
read_inputs place i (suc n) space f off = do
  write_region place (sizeof_input * i) sizeof_input
  (input, space, off) ← read_input space f off
  (inputs, space, off) ← read_inputs place (i + 1) n space f off
  ok (input ∷ inputs, space, off)

unfoldable pub read_outputs :
    Region → (i n : ℕ) → Space → File → ℕ → Result (List Output × Space × ℕ)
read_outputs place i zero space f off = ok ([], space, off)
read_outputs place i (suc n) space f off = do
  write_region place (sizeof_output * i) sizeof_output
  (output, space, off) ← read_output space f off
  (outputs, space, off) ← read_outputs place (i + 1) n space f off
  ok (output ∷ outputs, space, off)

-- The bytes of the item go to the space; the pointer to them is dropped.
unfoldable pub read_witness_stack_item : File → ℕ → Space → Result (Space × ℕ)
read_witness_stack_item f off space = do
  (num_bytes, off) ← pull_varint f off
  (place, space) ← space_alloc space num_bytes
  write_region place 0 num_bytes
  (witness, off) ← pull_bytes f off num_bytes
  ok (space, off)

-- `witness[s]` is read, never written: reading past what was handed out is a fault.
unfoldable pub read_witness_items : Region → (s n : ℕ) → File → ℕ → Space → Result (Space × ℕ)
read_witness_items place s zero f off space = ok (space, off)
read_witness_items place s (suc n) f off space = do
  write_region place (8 * s) 8
  (space, off) ← read_witness_stack_item f off space
  read_witness_items place (s + 1) n f off space

unfoldable pub read_witness_field : Input → File → ℕ → Space → Result (Input × Space × ℕ)
read_witness_field inp f off space = do
  (num_witness, off) ← pull_varint f off
  if num_witness == 0 then ok (record inp { num_witness = some num_witness }, space, off) else (do
    (place, space) ← space_alloc_arr space 8 num_witness
    (space, off) ← read_witness_items place 0 num_witness f off space
    ok (record inp { num_witness = some num_witness; witness = some place.start }, space, off))

unfoldable pub read_witness : List Input → File → ℕ → Space → Result (List Input × Space × ℕ)
read_witness [] f off space = ok ([], space, off)
read_witness (inp ∷ inputs) f off space = do
  (inp, space, off) ← read_witness_field inp f off space
  (inputs, space, off) ← read_witness inputs f off space
  ok (inp ∷ inputs, space, off)

-- The context is the bytes hashed so far. Gives the new context and the new `context_off`.
unfoldable pub append_to_hash_context : List ℕ → ℕ → File → ℕ → Result (List ℕ × ℕ)
append_to_hash_context context context_off f off = elim f.mmap [
  | some m ↦ do
    bytes ← or_fail (read_at m context_off (off - context_off)) fault
    ok (context ++ bytes, off)
  | none ↦ do buf ← file_read f context_off (off - context_off); ok (context ++ buf, off)
]

-- Step 2 of `read_transaction`: the segwit mark, the input count, `context_off` and `*poff`.
unfoldable pub read_input_count : (context_off : ℕ) → File → ℕ → Result (ℕ × ℕ × ℕ × ℕ)
read_input_count context_off f off = do
  (input_count, off) ← pull_varint f off
  if input_count == 0
      then (do
        (flag, off) ← pull_varint f off
        guard (flag == 1) bad_flag_value
        let context_off = off
        (input_count, off) ← pull_varint f off
        ok (1, input_count, context_off, off))
      else ok (0, input_count, context_off, off)

-- Steps 3 and 4: inputs, output count and outputs.
unfoldable pub read_body :
    (input_count : ℕ) → Space → File → ℕ → Result (List Input × ℕ × List Output × Space × ℕ)
read_body input_count space f off = do
  (place, space) ← space_alloc_arr space sizeof_input input_count
  (input, space, off) ← read_inputs place 0 input_count space f off
  (output_count, off) ← pull_varint f off
  (place, space) ← space_alloc_arr space sizeof_output output_count
  (output, space, off) ← read_outputs place 0 output_count space f off
  ok (input, output_count, output, space, off)

-- Step 5: the witness, after which `context_off` is `*poff`.
unfoldable pub read_witness_if :
    (segwit : ℕ)
    → List Input
    → (context_off : ℕ) → File
    → ℕ
    → Space
    → Result (List Input × ℕ × Space × ℕ)
read_witness_if segwit input context_off f off space =
    if segwit == 1
    then (do (input, space, off) ← read_witness input f off space; ok (input, off, space, off))
    else ok (input, context_off, space, off)

module _ (sha256 : List ℕ → Hash) where
  -- SHA256_Final, and the second hash over its result.
  unfoldable pub double_sha256 : List ℕ → Hash
  double_sha256 context = sha256 (sha256 context)

  unfoldable pub read_wtxid : (segwit start : ℕ) → (txid : Hash) → File → ℕ → Result Hash
  unfolding double_sha256
  read_wtxid segwit start txid f off =
      if segwit == 1
      then (do (context, _) ← append_to_hash_context [] start f off; ok (double_sha256 context))
      else ok txid

  -- `non_swlen` and `total_len` are u32.
  unfoldable pub read_transaction : Space → File → ℕ → Result (Transaction × Space × ℕ)
  unfolding double_sha256
  read_transaction space f off = do
    let start = off
    (version, off) ← pull_u32 f off
    let non_swlen = (off - start) % 2 ^ 32
    (context, context_off) ← append_to_hash_context [] start f off
    (segwit, input_count, context_off, off) ← read_input_count context_off f off
    (input, output_count, output, space, off) ← read_body input_count space f off
    let non_swlen = (non_swlen + (off - context_off)) % 2 ^ 32
    (context, context_off) ← append_to_hash_context context context_off f off
    (input, context_off, space, off) ← read_witness_if segwit input context_off f off space
    (lock_time, off) ← pull_u32 f off
    let non_swlen = (non_swlen + (off - context_off)) % 2 ^ 32
    (context, context_off) ← append_to_hash_context context context_off f off
    let txid = double_sha256 context
    wtxid ← read_wtxid segwit start txid f off
    ok (
      record {
        version = version;
        input_count = input_count;
        input = input;
        output_count = output_count;
        output = output;
        lock_time = lock_time;
        segwit = segwit;
        txid = txid;
        wtxid = wtxid;
        total_len = (off - start) % 2 ^ 32;
        non_swlen = non_swlen;
      },
      space,
      off,
    )

  unfoldable pub read_block_header : File → ℕ → (marker : ℕ) → Result (BlockHeader × Hash × ℕ)
  unfolding double_sha256
  read_block_header f off marker = do
    (d9b4bef9, off) ← pull_u32 f off
    guard (d9b4bef9 == marker) assert_failed
    (len, off) ← pull_u32 f off
    let start = off
    (version, off) ← pull_u32 f off
    (prev_hash, off) ← pull_hash f off
    (merkle_hash, off) ← pull_hash f off
    (timestamp, off) ← pull_u32 f off
    (target, off) ← pull_u32 f off
    (nonce, off) ← pull_u32 f off
    (context, _) ← append_to_hash_context [] start f off
    let block_md = double_sha256 context
    (transaction_count, off) ← pull_varint f off
    ok (
      record {
        d9b4bef9 = d9b4bef9;
        len = len;
        version = version;
        prev_hash = prev_hash;
        merkle_hash = merkle_hash;
        timestamp = timestamp;
        target = target;
        nonce = nonce;
        transaction_count = transaction_count;
      },
      block_md,
      off,
    )

-- `while (*off + sizeof(u32) <= f->len)`, on fuel.
unfoldable pub scan_header_prefix : ℕ → File → ℕ → (marker : ℕ) → Result (Bool × ℕ)
scan_header_prefix zero f off marker = err out_of_fuel
scan_header_prefix (suc fuel) f off marker = elim (leb (off + 4) f.len) [
  | true ↦ do
    (val, off') ← pull_u32 f off
    elim (val == marker) [
      | true ↦ ok (true, off' - 4)
      | false ↦ scan_header_prefix fuel f (off' - 4 + 1) marker
    ]
  | false ↦ ok (false, off)
]

-- Each round passes a byte, so one round more than the file has bytes is enough.
unfoldable pub next_block_header_prefix : File → ℕ → (marker : ℕ) → Result (Bool × ℕ)
unfolding scan_header_prefix
next_block_header_prefix f off marker = scan_header_prefix (f.len + 1) f off marker

unfoldable pub skip_transactions : BlockHeader → (block_start : ℕ) → ℕ
skip_transactions bh block_start = block_start + 8 + bh.len
