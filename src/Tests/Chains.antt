-- ===== src/Tests/Chains.antt =====
-- Runs over small chains of blocks and over the files.
use bitcoin_iterate.Prelude.{
  ℕ, Option, replicate, ◌≡◌, refl, true, false, none, some, List, [], ◌∷◌, arith, ok, ◌==◌,
  if◌then◌else◌,
}
use bitcoin_iterate.Prelude.{◌++◌, ◌≤◌, ◌^◌, fault}
use bitcoin_iterate.Prelude.Bytes.{bytes_eq}
use bitcoin_iterate.Types.{Block}
use bitcoin_iterate.Htable.ListTable.{find}
use bitcoin_iterate.Chain.Ways.{Avoids, Climb, Back}
use bitcoin_iterate.Block.{Store, Ptr, Entry, block_eq, load, write, set_height}
use bitcoin_iterate.Chain.{link_blocks, link_blocks_from}
use bitcoin_iterate.Chain.Heights.{Heights, set_height-Heights}
use bitcoin_iterate.Chain.Links.{Linked, Forward, link_blocks-Forward}
use bitcoin_iterate.Blockfiles.{System, no_slots, block_file}
use bitcoin_iterate.Blockfiles.{add_name, block_filenames_from}
use bitcoin_iterate.Blockfiles.Names.{lookup, path_of, add_name_total}
use bitcoin_iterate.Blockfiles.Directory.{
  Places, bitcoin_dir_name, open_blocks_dir, open_in_home, block_filenames, first_open, candidates,
  block_filenames-first_open,
}
use bitcoin_iterate.Prelude.{◌+◌, ◌⊎◌, err, duplicate_block_file}
use bitcoin_iterate.Blockfiles.Cached.{Served, open_index, block_file-open_index}
use bitcoin_iterate.Iterate.{
  Job, State, Event, run_blocks, run_block, pass_start, progress, block_events,
}
use bitcoin_iterate.Iterate.Start.{from_start, run_blocks-from_start}
use bitcoin_iterate.Tests.Data.{
  toy_sha256, zeros, sevens, eights, small_block, small_header, block_list, utxo_list,
}

abbrev first_block : Block
first_block = record small_block {
  id = sevens;
  height = some 0;
  bh = record small_header { prev_hash = zeros };
}

-- The second block has the first one's hash as its previous one.
abbrev two_blocks : Store
two_blocks p = if p == 1 then some first_block else if p == 2 then some small_block else none

abbrev two_entries : List Entry
two_entries = record { id = sevens; ptr = 1 } ∷ record { id = eights; ptr = 2 } ∷ []

two_blocks-Back : Back block_list two_entries two_blocks 2 (1 ∷ [])
unfolding find block_eq bytes_eq
two_blocks-Back = ((small_block, refl, refl), (first_block, refl, refl))

link_blocks-Forward_example :
    (h : Store) × (link_blocks block_list 5 two_entries two_blocks 2 ≡ ok h)
    × Linked two_blocks h (2 ∷ 1 ∷ []) none
    × ((q : Ptr) → Avoids q (2 ∷ 1 ∷ []) → h q ≡ two_blocks q)
    × Forward h (some 1) (1 ∷ 2 ∷ [])
link_blocks-Forward_example =
    link_blocks-Forward block_list 5 two_entries two_blocks 2 (1 ∷ []) two_blocks-Back (omega arith)

abbrev linked_store : Store
linked_store =
    write (write two_blocks 2 (record small_block { next = none })) 1
      (record first_block { next = some 2 })

linked : link_blocks block_list 5 two_entries two_blocks 2 ≡ ok linked_store
unfolding link_blocks link_blocks_from load find block_eq bytes_eq write
linked = refl

linked-Forward : Forward linked_store (some 1) (1 ∷ 2 ∷ [])
unfolding write
linked-Forward = (
  refl,
  (
    record first_block { next = some 2 },
    refl,
    (refl, (record small_block { next = none }, refl, refl)),
  ),
)

abbrev pub small_system : System
small_system = record {
  page = 4096;
  maps = true;
  sizes = true;
  contents = λ name. some (name ∷ []);
}

abbrev pub block_job : Job
block_job = record {
  sys = small_system;
  block_fnames = some 7 ∷ [];
  use_mmap = true;
  fns = record { blockfn = true; txfn = false; inputfn = false; outputfn = false; utxofn = false };
  cachedir = false;
  needs_utxo = false;
  utxo_period = 1;
  progress_marks = 0;
  best_height = 1;
}

abbrev pub start_at : Ptr → State toy_sha256 utxo_list
start_at q = record {
  utxo_map = [];
  slots = no_slots;
  start = some q;
  needs_fee = false;
  blocks_iterated = 0;
  last_utxo_block = none;
}

run_second :
    run_blocks toy_sha256 utxo_list 5 block_job linked_store (some 1) (start_at 2)
    ≡ ok (Event.blockfn [] 2 ∷ [], record (start_at 2) { start = none })
unfolding run_blocks run_block pass_start progress block_events load write
run_second = refl

run_blocks-from_start_example : (2 ∷ []) ≡ from_start (some 2) (1 ∷ 2 ∷ [])
run_blocks-from_start_example =
    run_blocks-from_start toy_sha256 utxo_list 5 block_job linked_store (some 1) (1 ∷ 2 ∷ [])
      (start_at 2) (record (start_at 2) { start = none }) (Event.blockfn [] 2 ∷ []) linked-Forward
      run_second

run_none :
    run_blocks toy_sha256 utxo_list 5 block_job linked_store (some 1) (start_at 9)
    ≡ ok ([], start_at 9)
unfolding run_blocks run_block pass_start progress block_events load write
run_none = refl

block_file-open_index_example :
    Served small_system true
      (block_file small_system (none ∷ some 7 ∷ []) 1 true no_slots)
      (open_index small_system (none ∷ some 7 ∷ []) 1 true)
block_file-open_index_example =
    block_file-open_index small_system (none ∷ some 7 ∷ []) 1 true no_slots
      (record { first = tt; second = tt })

-- Three blocks, of which only the first has a known height.
abbrev three_blocks : Store
three_blocks p =
    if p == 1
    then some (record first_block { height = some 4 })
    else if p == 2
    then some (record small_block { height = none })
    else if p == 3
    then some (record small_block {
      id = replicate 32 9;
      height = none;
      bh = record small_header { prev_hash = eights };
    })
    else none

three_blocks-Climb : Climb block_list two_entries three_blocks 3 (2 ∷ []) 1 4
unfolding find block_eq bytes_eq
three_blocks-Climb = (
  (
    record small_block {
      id = replicate 32 9;
      height = none;
      bh = record small_header { prev_hash = eights };
    },
    refl,
    refl,
    refl,
  ),
  (
    (record small_block { height = none }, refl, refl, refl),
    (record first_block { height = some 4 }, refl, refl),
  ),
)

set_height-Heights_example :
    (h : Store) × (set_height block_list 5 two_entries three_blocks 3 ≡ ok (true, h))
    × Heights h 5 (2 ∷ 3 ∷ [])
set_height-Heights_example =
    set_height-Heights block_list 5 two_entries three_blocks 3 (2 ∷ []) 1 4 three_blocks-Climb
      (omega arith)

-- Of the entries 0 and 2 the second is a block file.
abbrev toy_strreg : ℕ → Option ℕ
toy_strreg ent = if ent == 0 then none else some ent

abbrev toy_path_join : ℕ → ℕ
toy_path_join ent = ent + 100

-- A home with the blocks at the old place, beside other users' files.
abbrev old_place : Places
old_place = record {
  home = none;
  pw_dir = some (b'~' ∷ []);
  opendir = λ dir. if bytes_eq dir (b'~' ∷ bitcoin_dir_name) then some (0 ∷ 2 ∷ []) else none;
  path_join = λ dir name. dir ++ name;
  file_at = λ dir ent. toy_path_join ent;
  strreg = toy_strreg;
}

read_names : block_filenames old_place none false ≡ ok (none ∷ none ∷ some 102 ∷ [])
unfolding block_filenames open_blocks_dir open_in_home block_filenames_from add_name bytes_eq
read_names = refl

block_filenames-first_open_example :
    (dir : List ℕ) × (entries : List ℕ) × (first_open old_place.opendir
        (candidates old_place none false)
      ≡ some (dir, entries))
    × (some 102 ≡ path_of toy_strreg toy_path_join entries 2)
block_filenames-first_open_example =
    block_filenames-first_open old_place none false (none ∷ none ∷ some 102 ∷ []) 2 read_names

add_name_total_example :
    ((names : List (Option ℕ)) × (add_name (none ∷ some 8 ∷ []) 0 7 ≡ ok names)
      × (◌≡◌ {A = Option ℕ} none none)
      × (lookup names 1 ≡ some 8))
    ⊎ (((old : ℕ) × (none ≡ some old)
          × (add_name (none ∷ some 8 ∷ []) 0 7 ≡ err duplicate_block_file))
        ⊎ ((1 ≡ 2 ^ 32) × (2 ≤ 0) × (add_name (none ∷ some 8 ∷ []) 0 7 ≡ err fault)))
add_name_total_example = add_name_total (none ∷ some 8 ∷ []) 0 7 1 (omega arith)
