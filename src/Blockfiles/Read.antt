-- ===== src/Blockfiles/Read.antt =====
-- `read_blockfiles`: the block headers of all block files, put into the map of blocks.
use bitcoin_iterate.Prelude.{
  ℕ, zero, suc, ◌+◌, ◌-◌, ◌%◌, ◌^◌, Bool, true, false, ◌&&◌, Option, none, some, List, [], ◌∷◌, ltb,
  if◌then◌else◌, Result, ok, err, ◌>>=◌, out_of_fuel,
}
use bitcoin_iterate.Types.{Hash, Block}
use bitcoin_iterate.Htable.{Htable}
use bitcoin_iterate.Block.{Ptr, Entry, Chain, block_eq, write, load, add_block}
use bitcoin_iterate.Parse.{next_block_header_prefix, read_block_header, skip_transactions}
use bitcoin_iterate.Blockfiles.{System, Slots, block_file}

unfoldable pub netmarker : (use_testnet : Bool) → ℕ
netmarker use_testnet = if use_testnet then 0x0709110B else 0xD9B4BEF9

-- The comparison of a height, an int, with an unsigned long: -1 is the largest.
abbrev pub long_height : Option ℕ → ℕ
long_height none = 2 ^ 64 - 1
long_height (some n) = n

-- `block_end` is `none` for -1UL.
abbrev pub is_past : Option ℕ → Option ℕ → Bool
is_past none height = false
is_past (some block_end) height = ltb ((block_end + 100) % 2 ^ 64) (long_height height)

module _ (sha256 : List ℕ → Hash) (blocks : Htable Hash Entry block_eq) where
  open blocks use {Table}

  -- What the loops change. `fresh` is the pointer of the next block that is allocated: there are as
  -- many blocks.
  pub record Progress : Type 0 where
    pub table : Table
    pub chain : Chain
    pub slots : Slots
    pub fresh : Ptr
    pub block_count : ℕ

  -- A new block goes to the store and to the map; `next` is not set by the code. The way back from
  -- it has no more blocks than there are.
  unfoldable pub add_new_block : Block → Progress → Result (Bool × Progress)
  add_new_block b st = do
    let c = record st.chain { store = write st.chain.store st.fresh b }
    (added, table, chain) ← add_block blocks (st.fresh + 1) st.table c st.fresh
    ok (added, record st { table = table; chain = chain; fresh = st.fresh + 1 })

  -- The loop over the blocks of file `i`. The result says whether the loop over the files stops too.
  unfoldable pub read_blockfile :
      ℕ
      → System
      → (marker : ℕ) → (use_mmap : Bool) → List (Option ℕ)
      → (block_end : Option ℕ) → (i off : ℕ) → Progress
      → Result (Bool × Progress)
  unfolding add_new_block load
  read_blockfile zero sys marker use_mmap block_fnames block_end i off st = err out_of_fuel
  read_blockfile (suc fuel) sys marker use_mmap block_fnames block_end i off st = do
    (f, slots) ← block_file sys block_fnames i use_mmap st.slots
    (found, block_start) ← next_block_header_prefix f off marker
    let st : Progress = record st { slots = slots }
    elim found [
      | false ↦ ok (false, st)
      | true ↦ do
        (bh, id, pos) ← read_block_header sha256 f block_start marker
        (added, st) ←
            add_new_block
              (record { id = id; height = none; filenum = i; pos = pos; next = none; bh = bh }) st
        b ← load st.chain.store (st.fresh - 1)
        elim (added && is_past block_end b.height) [
          | true ↦ ok (true, st)
          | false ↦
              read_blockfile fuel sys marker use_mmap block_fnames block_end i
                (skip_transactions bh block_start) (record st { block_count = st.block_count + 1 })
        ]
    ]

  -- The loop over the files, from the `i`-th on. Each round of the loop over blocks passes the
  -- marker, so `fuel` is enough if it is more than the bytes of any file.
  unfoldable pub read_blockfiles_from :
      ℕ
      → System
      → (marker : ℕ) → (use_mmap : Bool) → List (Option ℕ)
      → (block_end : Option ℕ) → (i : ℕ) → (rest : List (Option ℕ)) → Progress
      → Result Progress
  unfolding read_blockfile
  read_blockfiles_from fuel sys marker use_mmap block_fnames block_end i [] st = ok st
  read_blockfiles_from fuel sys marker use_mmap block_fnames block_end i (none ∷ rest) st =
      read_blockfiles_from fuel sys marker use_mmap block_fnames block_end (i + 1) rest st
  read_blockfiles_from fuel sys marker use_mmap block_fnames block_end i (some name ∷ rest) st = do
    (stops, st) ← read_blockfile fuel sys marker use_mmap block_fnames block_end i 0 st
    elim stops [
      | true ↦ ok st
      | false ↦ read_blockfiles_from fuel sys marker use_mmap block_fnames block_end (i + 1) rest st
    ]

  unfoldable pub read_blockfiles :
      ℕ
      → System
      → (use_testnet use_mmap : Bool) → List (Option ℕ)
      → (genesis : Option Ptr) → (block_end : Option ℕ) → Result Progress
  unfolding read_blockfiles_from
  read_blockfiles fuel sys use_testnet use_mmap block_fnames genesis block_end =
      read_blockfiles_from fuel sys (netmarker use_testnet) use_mmap block_fnames block_end 0
        block_fnames
        (record {
          table = blocks.init;
          chain = record { store = λ p. none; genesis = genesis; num_misses = 0 };
          slots = record { first = none; second = none; next = 0 };
          fresh = 0;
          block_count = 0;
        })
