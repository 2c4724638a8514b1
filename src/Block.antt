-- ===== src/Block.antt =====
-- The chain of blocks of block.c. Blocks live in a store and are named by pointers. The map is a
-- hash table of entries: a pointer, with the id of its block, which is never changed.
use bitcoin_iterate.Prelude.{
  ℕ, zero, suc, ◌+◌, ◌%◌, ◌^◌, Bool, true, false, Option, none, some, ◌==◌, if◌then◌else◌, Result,
  ok, err, ◌>>=◌, or_fail, fault, out_of_fuel,
}
use bitcoin_iterate.Prelude.Bytes.{bytes_eq}
use bitcoin_iterate.Types.{Hash, Block}
use bitcoin_iterate.Utils.{is_zero}
use bitcoin_iterate.Htable.{Htable}

abbrev pub Ptr : Type 0
Ptr = ℕ

abbrev pub Store : Type 0
Store = Ptr → Option Block

unfoldable pub write : Store → Ptr → Block → Store
write h p b q = if q == p then some b else h q

pub record Entry : Type 0 where
  pub id : Hash
  pub ptr : Ptr

unfoldable pub keyof_block_map : Entry → Hash
keyof_block_map e = e.id

unfoldable pub block_eq : Entry → Hash → Bool
block_eq e key = bytes_eq e.id key

unfoldable pub load : Store → Ptr → Result Block
load h p = or_fail (h p) fault

-- The for loop: `i` gets the height after that of `prev`, and so on along `next`.
unfoldable pub set_forward : ℕ → Store → (prev : Ptr) → (i : Option Ptr) → Result Store
unfolding load write
set_forward fuel h prev none = ok h
set_forward zero h prev (some i) = err out_of_fuel
set_forward (suc fuel) h prev (some i) = do
  b ← load h i
  p ← load h prev
  let h = write h i (record b { height = elim p.height [ none ↦ some 0 | some n ↦ some (n + 1) ] })
  set_forward fuel h i b.next

-- What `add_block` changes but for the map.
pub record Chain : Type 0 where
  pub store : Store
  pub genesis : Option Ptr
  pub num_misses : ℕ

module _ (blocks : Htable Hash Entry block_eq) where
  open blocks use {Table, add, del, get}

  -- The pointer that block_map_get returns.
  abbrev pub block_map_get : Table → Hash → Option Ptr
  block_map_get m key = elim (get key m) [ none ↦ none | some e ↦ some e.ptr ]

  -- The do-while loop: from `i` back to a block with a known height, setting each `next` on the
  -- way. `none` where a previous block is not in the map.
  unfoldable pub walk_back : ℕ → Table → Store → (i : Ptr) → Result (Option Ptr × Store)
  unfolding load write
  walk_back zero m h i = err out_of_fuel
  walk_back (suc fuel) m h i = do
    b ← load h i
    elim (block_map_get m b.bh.prev_hash) [
      | none ↦ ok (none, h)
      | some prev ↦ do
        p ← load h prev
        let h = write h prev (record p { next = some i })
        elim p.height [ none ↦ walk_back fuel m h prev | some _ ↦ ok (some prev, h) ]
    ]

  -- `fuel` bounds the length of the chain that is walked.
  unfoldable pub set_height : ℕ → Table → Store → Ptr → Result (Bool × Store)
  set_height fuel m h b = do
    blk ← load h b
    elim blk.height [
      | some _ ↦ ok (true, h)
      | none ↦ do
        (found, h) ← walk_back fuel m h b
        elim found [
          | none ↦ ok (false, h)
          | some prev ↦ do
            blk ← load h b
            let h = write h b (record blk { next = none })
            p ← load h prev
            h ← set_forward fuel h prev p.next
            ok (true, h)
        ]
    ]

  unfoldable pub add_block : ℕ → Table → Chain → Ptr → Result (Bool × Table × Chain)
  add_block fuel m c b = do
    blk ← load c.store b
    let m : Table = elim (get blk.id m) [ none ↦ m | some old ↦ del old m ]
    let m : Table = add (record { id = blk.id; ptr = b }) m
    if is_zero blk.bh.prev_hash
        then ok (
          true,
          m,
          record {
            store = write c.store b (record blk { height = some 0 });
            genesis = some b;
            num_misses = 0;
          },
        )
        else elim (block_map_get m blk.bh.prev_hash) [
          | none ↦ ok (false, m, c)
          | some prev ↦ do
            p ← load c.store prev
            elim p.height [
              | some n ↦ ok (
                true,
                m,
                record c {
                  store = write c.store b (record blk { height = some (n + 1) });
                  num_misses = 0;
                },
              )
              | none ↦
                  if c.num_misses % 1000 == 0
                  then (do
                    (set, h) ← set_height fuel m c.store b
                    ok (
                      set,
                      m,
                      record c {
                        store = h;
                        num_misses = if set then 0 else (c.num_misses + 1) % 2 ^ 64;
                      },
                    ))
                  else ok (false, m, record c { num_misses = (c.num_misses + 1) % 2 ^ 64 })
            ]
        ]
