-- ===== src/Tests/Programs.antt =====
-- A run of the whole program on one block file with two blocks.
use bitcoin_iterate.Prelude.{
  ℕ, ◌+◌, ◌%◌, ◌≡◌, refl, true, false, none, some, List, [], ◌∷◌, ◌++◌, replicate, ok, arith,
}
use bitcoin_iterate.Types.{Hash, BlockHeader, Block}
use bitcoin_iterate.Serial.{header_bytes}
use bitcoin_iterate.Block.{Store}
use bitcoin_iterate.Blockfiles.Read.{
  read_blockfiles, read_blockfiles_from, read_blockfile, add_new_block, netmarker,
}
use bitcoin_iterate.Block.{
  add_block, load, write, block_eq, keyof_block_map, set_height, walk_back, set_forward,
}
use bitcoin_iterate.Htable.ListTable.{find, erase}
use bitcoin_iterate.Prelude.Bytes.{bytes_eq, to_le, of_le, read_at}
use bitcoin_iterate.Utils.{is_zero}
use bitcoin_iterate.Blockfiles.{block_file, open_file}
use bitcoin_iterate.Io.{file_open, map_file, fill, take_pad, round_up, file_read}
use bitcoin_iterate.Parse.{
  pull_u32, pull_hash, pull_bytes, pull_varint, varint_byte, varint_window, varint_tail,
  next_block_header_prefix, scan_header_prefix, read_block_header, skip_transactions,
  append_to_hash_context, double_sha256,
}
use bitcoin_iterate.Ancestry.{Ancestry}
use bitcoin_iterate.Chain.{set_iteration_end}
use bitcoin_iterate.Chain.Links.{Forward}
use bitcoin_iterate.Chain.Heights.{Heights}
use bitcoin_iterate.Chain.Ends.{set_iteration_end-take}
use bitcoin_iterate.Prelude.{if◌then◌else◌, ◌==◌}
use bitcoin_iterate.Ancestry.Settled.{HasHeight}
use bitcoin_iterate.Ancestry.Best.{set_heights_and_best_highest}
use bitcoin_iterate.Prelude.{◌≤◌}
use bitcoin_iterate.Ancestry.Read.{set_heights_and_best-Ancestry}
use bitcoin_iterate.Blockfiles.Cached.{IsSlots, open_index}
use bitcoin_iterate.Blockfiles.{Slots}
use bitcoin_iterate.Io.{File}
use bitcoin_iterate.Iterate.{Job, read_block}
use bitcoin_iterate.Iterate.Contents.{Sent, block_bytes, all_received, process, read_block-process}
use bitcoin_iterate.Prelude.{◌>>=◌, length}
use bitcoin_iterate.Tests.Data.{
  small_tx, small_tx-TxFits, wrapped, wrapped-Reads, small_block, toy_sha256,
}
use bitcoin_iterate.Tests.Chains.{block_job, small_system, start_at}
use bitcoin_iterate.Chain.{set_heights_and_best, set_heights_and_best_from}
use bitcoin_iterate.Blockfiles.Read.{Progress}
use bitcoin_iterate.Program.{Options, Machine}
use bitcoin_iterate.Tests.Data.{zeros, small_header, block_list, utxo_list}

abbrev sum : List ℕ → ℕ
sum [] = 0
sum (b ∷ bs) = b + sum bs

-- A hash that depends on the bytes, and is not 0.
abbrev pub sum_sha256 : List ℕ → Hash
sum_sha256 bytes = replicate 32 (1 + sum bytes % 251)

abbrev genesis_header : BlockHeader
genesis_header = record small_header { len = 81; prev_hash = zeros; transaction_count = 0 }

abbrev pub genesis_id : Hash
genesis_id = replicate 32 78

abbrev second_header : BlockHeader
second_header = record small_header { len = 81; prev_hash = genesis_id; transaction_count = 0 }

-- A block of no transactions in a block file.
abbrev record_bytes : BlockHeader → List ℕ
record_bytes bh = to_le 4 bh.d9b4bef9 ++ (to_le 4 bh.len ++ (header_bytes bh ++ (0 ∷ [])))

abbrev pub two_block_machine : Machine sum_sha256 block_list
two_block_machine = record {
  strreg = λ ent. some 0;
  path_join = λ ent. 7;
  entries = 0 ∷ [];
  sys = record {
    page = 4096;
    maps = true;
    sizes = true;
    contents = λ name. some (record_bytes genesis_header ++ record_bytes second_header);
  };
  cachedir = none;
  utxo_cache = λ id. none;
  garbage = false;
  fuel = 200;
}

-- The run that begins at the height 1.
abbrev pub from_second : Options
from_second = record {
  use_testnet = false;
  block_start = 1;
  block_end = some 1;
  start_hash = zeros;
  tip = zeros;
  needs_utxo = false;
  utxo_period = 0;
  use_mmap = false;
  progress_marks = 0;
  fns = record { blockfn = true; txfn = false; inputfn = false; outputfn = false; utxofn = false };
}

abbrev pub genesis_block : Block
genesis_block = record {
  id = genesis_id;
  height = none;
  filenum = 0;
  pos = 89;
  next = none;
  bh = genesis_header;
}

abbrev pub second_block : Block
second_block = record {
  id = replicate 32 132;
  height = none;
  filenum = 0;
  pos = 178;
  next = none;
  bh = second_header;
}

-- The blocks that are read, with their heights.
abbrev pub read_store : Store
read_store =
    write
      (write
        (write (write (λ p. none) 0 genesis_block) 0 (record genesis_block { height = some 0 })) 1
        second_block)
      1 (record second_block { height = some 1 })

abbrev pub read_state : Progress sum_sha256 block_list
read_state = record {
  table = record { id = replicate 32 132; ptr = 1 } ∷ record { id = genesis_id; ptr = 0 } ∷ [];
  chain = record { store = read_store; genesis = some 0; num_misses = 0 };
  slots = record {
    first = some (record {
      name = 7;
      is_open = true;
      len = 178;
      mmap = none;
      disk = record_bytes genesis_header ++ record_bytes second_header;
    });
    second = none;
    next = 1;
  };
  fresh = 2;
  block_count = 2;
}

pub only_block_files_read :
    read_blockfiles sum_sha256 block_list 200 two_block_machine.sys false false
      (some 7 ∷ [])
      none
      (some 1)
    ≡ ok read_state
unfolding read_blockfiles read_blockfiles_from read_blockfile add_new_block add_block load write
    find erase block_eq bytes_eq keyof_block_map is_zero netmarker block_file open_file file_open
    map_file fill take_pad round_up pull_u32 pull_hash pull_bytes pull_varint varint_byte
    varint_window varint_tail file_read next_block_header_prefix scan_header_prefix
    read_block_header skip_transactions append_to_hash_context double_sha256 to_le of_le read_at
    set_height walk_back set_forward
only_block_files_read = refl

set_heights_and_best-Ancestry_example : Ancestry read_store 1 1
unfolding set_heights_and_best set_heights_and_best_from set_height load write
set_heights_and_best-Ancestry_example =
    set_heights_and_best-Ancestry sum_sha256 block_list 200 3 two_block_machine.sys false false
      (some 7 ∷ []) none (some 1) read_state 0 1 read_store 1
      (record second_block { height = some 1 }) 1 only_block_files_read refl refl refl

-- A file with a transaction in each of the two serializations, behind one byte.
abbrev two_sent : List Sent
two_sent = Sent.original small_tx ∷ Sent.segwit small_tx ∷ []

abbrev sent_file : File
sent_file = record {
  name = 7;
  is_open = true;
  len = length (wrapped (block_bytes two_sent));
  mmap = none;
  disk = wrapped (block_bytes two_sent);
}

abbrev sent_job : Job
sent_job = record block_job {
  use_mmap = false;
  sys = record small_system { contents = λ name. some (wrapped (block_bytes two_sent)) };
}

abbrev sent_block : Block
sent_block = record small_block { pos = 1; bh = record small_header { transaction_count = 2 } }

sent_file_opens : open_index sent_job.sys sent_job.block_fnames 0 false ≡ ok sent_file
unfolding open_index open_file file_open
sent_file_opens = refl

read_block-process_example :
    (slots : Slots) × IsSlots sent_job.sys false slots
    × (read_block toy_sha256 utxo_list sent_job 5 sent_block (start_at 5) ≡ (
        process toy_sha256 utxo_list sent_job 5 sent_block
          (start_at 5)
          0
          (all_received toy_sha256 240 two_sent)
          []
        >>= λ r. ok (r.0, record (start_at 5) { utxo_map = r.1; slots = slots })))
read_block-process_example =
    read_block-process toy_sha256 utxo_list sent_job 5 sent_block (start_at 5) sent_file two_sent
      sent_file_opens (record { len = refl; maps = tt }) (record { first = tt; second = tt })
      ((small_tx-TxFits, omega arith), ((small_tx-TxFits, tt), tt)) refl
      (wrapped-Reads (block_bytes two_sent)) (omega arith)

-- The two blocks, linked.
abbrev linked_pair : Store
linked_pair p =
    if p == 0
    then some (record genesis_block { height = some 0; next = some 1 })
    else if p == 1
    then some (record second_block { height = some 1 })
    else none

set_iteration_end-take_example :
    (h : Store) × (set_iteration_end 5 linked_pair (some 0) 1 0 ≡ ok (0, h))
    × Forward h (some 0) (0 ∷ [])
    × Heights h 0 (0 ∷ [])
set_iteration_end-take_example =
    set_iteration_end-take 5 linked_pair 0 1 0 (1 ∷ [])
      (
        refl,
        (
          record genesis_block { height = some 0; next = some 1 },
          refl,
          (refl, (record second_block { height = some 1 }, refl, refl)),
        ),
      )
      (
        (record genesis_block { height = some 0; next = some 1 }, refl, refl),
        ((record second_block { height = some 1 }, refl, refl), tt),
      )
      ((refl, tt), (tt, tt)) (omega arith)

set_heights_and_best_highest_example :
    (top : ℕ) × HasHeight read_store 1 top
    × (((k : ℕ) → HasHeight read_store 1 k → k ≤ top)
        × (((k : ℕ) → HasHeight read_store 0 k → k ≤ top) × Unit {0}))
unfolding set_heights_and_best set_heights_and_best_from set_height load write
set_heights_and_best_highest_example =
    set_heights_and_best_highest block_list read_state.table 3 read_store read_store 0 1 0
      (record genesis_block { height = some 0 }, refl, refl) refl
