-- ===== src/Blockfiles.antt =====
-- The block files of blockfiles.c: their names by number, and the two files kept open.
pub mod Cached
pub mod Directory
pub mod Names
pub mod Read
pub mod Rounds
pub mod Enough
pub mod Ends
pub mod Records
use bitcoin_iterate.Prelude.{
  ℕ, zero, suc, ◌+◌, ◌-◌, ◌%◌, ◌^◌, Bool, true, false, not, Option, none, some, List, [], ◌∷◌, ◌++◌,
  length, get_elem?, set, replicate, leb, ◌==◌, if◌then◌else◌, Result, ok, err, ◌>>=◌, ◌>>◌, guard,
  or_fail, fault, duplicate_block_file,
}
use bitcoin_iterate.Io.{File, OpenFlags, file_open}

-- tal_resize to `size` names, and the memset of those behind the first `count`, which are as many as
-- `size - count` says as a size_t: where that wraps, it writes past the end.
abbrev pub resize : List (Option ℕ) → (size : ℕ) → Result (List (Option ℕ))
resize names size = do
  guard (leb (length names) size) fault
  ok (names ++ replicate (size - length names) none)

-- `names[num]` is NULL where there is no file of that number. `num + 1` is an unsigned int.
unfoldable pub add_name : List (Option ℕ) → (num name : ℕ) → Result (List (Option ℕ))
add_name names num name = do
  names ← if leb (length names) num then resize names ((num + 1) % 2 ^ 32) else ok names
  slot ← or_fail (get_elem? names num) fault
  elim slot [ some old ↦ err duplicate_block_file | none ↦ ok (set names num (some name)) ]

-- The readdir loop. `strreg` gives the number in a name of the form blk[0-9]+.dat, as an int that
-- is taken for an unsigned, and path_join makes the path.
unfoldable pub block_filenames_from :
    (strreg : ℕ → Option ℕ) (path_join : ℕ → ℕ)
    → List (Option ℕ)
    → (entries : List ℕ) → Result (List (Option ℕ))
block_filenames_from strreg path_join names [] = ok names
block_filenames_from strreg path_join names (ent ∷ entries) = elim (strreg ent) [
  | none ↦ block_filenames_from strreg path_join names entries
  | some num ↦ do
    names ← add_name names (num % 2 ^ 32) (path_join ent)
    block_filenames_from strreg path_join names entries
]

-- What the system gives: the page size, whether mmap(2) and fstat(2) succeed, and the contents of
-- the file of a name.
pub record System : Type 0 where
  pub page : ℕ
  pub maps : Bool
  pub sizes : Bool
  pub contents : ℕ → Option (List ℕ)

-- file_open as `block_file` calls it.
unfoldable pub open_file : System → (use_mmap : Bool) → (name : ℕ) → Result File
open_file sys use_mmap name =
    file_open sys.page sys.maps sys.sizes [] (sys.contents name) name 0
      (record { no_mmap = not use_mmap })

-- The static variables of `block_file`: two slots, empty at first, and the one to use next.
pub record Slots : Type 0 where
  pub first : Option File
  pub second : Option File
  pub next : ℕ

abbrev pub no_slots : Slots
no_slots = record { first = none; second = none; next = 0 }

abbrev pub holds : Option File → ℕ → Bool
holds none name = false
holds (some f) name = f.name == name

abbrev pub slot_hit : Option File → ℕ → Option File
slot_hit slot name = if holds slot name then slot else none

-- The loop over the slots.
abbrev pub find_slot : Slots → (name : ℕ) → Option File
find_slot slots name = elim (slot_hit slots.first name) [
  | some f ↦ some f
  | none ↦ slot_hit slots.second name
]

-- The file goes to the slot `next`. The file_close of the one that was there changes nothing that
-- is seen later.
abbrev pub store_slot : Slots → File → Slots
store_slot slots f =
    let next = if slots.next + 1 == 2 then 0 else slots.next + 1 in
    if slots.next == 0
    then record slots { first = some f; next = next }
    else record slots { second = some f; next = next }

-- A name is a pointer, and files are compared by it.
unfoldable pub block_file :
    System → List (Option ℕ) → (index : ℕ) → (use_mmap : Bool) → Slots → Result (File × Slots)
block_file sys block_fnames index use_mmap slots = do
  entry ← or_fail (get_elem? block_fnames index) fault
  name ← or_fail entry fault
  elim (find_slot slots name) [
    | some f ↦ ok (f, slots)
    | none ↦ do f ← open_file sys use_mmap name; ok (f, store_slot slots f)
  ]
