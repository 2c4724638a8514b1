-- ===== src/Chain.antt =====
-- The choice of the blocks in iterate.c: the best block, the ends of the run, and the links between.
pub mod Ways
pub mod Links
pub mod Climb
pub mod Heights
pub mod Kept
pub mod Ends
pub mod Cut
use bitcoin_iterate.Prelude.{
  ℕ, zero, suc, ◌+◌, ◌-◌, ◌*◌, ◌/◌, ◌%◌, ◌^◌, Bool, true, false, not, ◌&&◌, ◌||◌, Option, none,
  some, List, [], ◌∷◌, ◌++◌, leb, ltb, ◌==◌, if◌then◌else◌, Result, ok, err, ◌>>=◌, ◌>>◌, guard,
  or_fail, fault, out_of_fuel, unknown_end_hash, unknown_start_hash, no_block_end, no_block_start,
}
use bitcoin_iterate.Types.{Hash, BlockHeader, Block, Transaction, Input, Output, Utxo}
use bitcoin_iterate.Space.{Space, Region, space_init, space_alloc_arr, write_region}
use bitcoin_iterate.Utils.{is_zero}
use bitcoin_iterate.Htable.{Htable}
use bitcoin_iterate.Block.{Ptr, Store, write, load, Entry, block_eq, block_map_get, set_height}
use bitcoin_iterate.Utxo.{OutPoint, utxohash_eq, unsigned_height, add_utxos, release_utxo}
use bitcoin_iterate.Parse.{read_transaction}
use bitcoin_iterate.Blockfiles.{System, Slots, block_file}

-- `b->height > (*best)->height`, on ints; -1 is less than every known height.
abbrev pub higher : Option ℕ → Option ℕ → Bool
higher none best = false
higher (some n) none = true
higher (some n) (some best) = ltb best n

-- The comparison of a height, an int, with an unsigned long.
abbrev pub has_height : Option ℕ → ℕ → Bool
has_height none n = n == 2 ^ 64 - 1
has_height (some height) n = n == height

module _ (blocks : Htable Hash Entry block_eq) where
  open blocks use {Table}

  -- The loop of `set_heights_and_best`, over the entries of the map.
  unfoldable pub set_heights_and_best_from :
      ℕ → Table → Store → (best : Ptr) → List Entry → Result (Ptr × Store)
  unfolding load
  set_heights_and_best_from fuel m h best [] = ok (best, h)
  set_heights_and_best_from fuel m h best (e ∷ es) = do
    (_, h) ← set_height blocks fuel m h e.ptr
    b ← load h e.ptr
    best_b ← load h best
    set_heights_and_best_from fuel m h (if higher b.height best_b.height then e.ptr else best) es

  unfoldable pub set_heights_and_best : ℕ → Table → Store → (best : Ptr) → Result (Ptr × Store)
  set_heights_and_best fuel m h best = set_heights_and_best_from fuel m h best (blocks.elements m)

  unfoldable pub set_blockchain_end : Table → (tip : Hash) → (best : Ptr) → Result Ptr
  set_blockchain_end m tip best =
      if is_zero tip then ok best else or_fail (block_map_get blocks m tip) unknown_end_hash

  unfoldable pub set_blockchain_start :
      Table → (start_hash : Hash) → (start : Option Ptr) → Result (Option Ptr)
  set_blockchain_start m start_hash start =
      if is_zero start_hash
      then ok start
      else (do p ← or_fail (block_map_get blocks m start_hash) unknown_start_hash; ok (some p))

  unfoldable pub link_blocks_from :
      ℕ → Table → Store → (b : Option Ptr) → (next : Option Ptr) → Result Store
  unfolding load write
  link_blocks_from fuel m h none next = ok h
  link_blocks_from zero m h (some b) next = err out_of_fuel
  link_blocks_from (suc fuel) m h (some b) next = do
    blk ← load h b
    link_blocks_from fuel m (write h b (record blk { next = next }))
        (block_map_get blocks m blk.bh.prev_hash) (some b)

  unfoldable pub link_blocks : ℕ → Table → Store → (best : Ptr) → Result Store
  link_blocks fuel m h best = link_blocks_from fuel m h (some best) none

-- The loops of `set_iteration_end` and `set_iteration_start`: from `b` along `next` to the block
-- with the height `n`.
unfoldable pub find_height : ℕ → Store → (b : Ptr) → (n : ℕ) → Result (Option Ptr)
unfolding load
find_height zero h b n = err out_of_fuel
find_height (suc fuel) h b n = do
  blk ← load h b
  elim (has_height blk.height n) [
    | true ↦ ok (some b)
    | false ↦ elim blk.next [ none ↦ ok none | some next ↦ find_height fuel h next n ]
  ]

-- `block_end` is `none` for -1UL.
unfoldable pub set_iteration_end :
    ℕ → Store → (block_end : Option ℕ) → (best genesis : Ptr) → Result (Ptr × Store)
unfolding load write
set_iteration_end fuel h none best genesis = ok (best, h)
set_iteration_end fuel h (some block_end) best genesis = do
  found ← find_height fuel h genesis block_end
  b ← or_fail found no_block_end
  blk ← load h b
  ok (b, write h b (record blk { next = none }))

unfoldable pub set_iteration_start :
    ℕ → Store → (block_start : ℕ) → (start : Option Ptr) → (genesis : Ptr) → Result (Option Ptr)
set_iteration_start fuel h block_start start genesis = if block_start == 0 then ok start else (do
  found ← find_height fuel h genesis block_start
  b ← or_fail found no_block_start
  ok (some b))
