-- ===== src/Program.antt =====
-- `iterate` of iterate.c: the parts, one after the other.
pub mod Range
pub mod Whole
use bitcoin_iterate.Prelude.{
  ℕ, ◌+◌, Bool, not, Option, none, some, List, [], Result, ◌>>=◌, or_fail, no_genesis,
  if◌then◌else◌,
}
use bitcoin_iterate.Types.{Hash, Utxo}
use bitcoin_iterate.Htable.{Htable}
use bitcoin_iterate.Block.{Entry, block_eq, load}
use bitcoin_iterate.Utxo.{OutPoint, utxohash_eq, unsigned_height}
use bitcoin_iterate.Blockfiles.{System, block_filenames_from}
use bitcoin_iterate.Cache.{CacheDir, UtxoFile, is_none, read_blockchain, read_utxo_cache}
use bitcoin_iterate.Chain.{
  set_heights_and_best, set_blockchain_end, set_blockchain_start, link_blocks, set_iteration_end,
  set_iteration_start,
}
use bitcoin_iterate.Iterate.{Functions, State, Event, run_blocks}

-- The arguments of `iterate`, but for the directories. `block_end` is `none` for -1UL.
pub record Options : Type 0 where
  pub use_testnet : Bool
  pub block_start : ℕ
  pub block_end : Option ℕ
  pub start_hash : Hash
  pub tip : Hash
  pub needs_utxo : Bool
  pub utxo_period : ℕ
  pub use_mmap : Bool
  pub progress_marks : ℕ
  pub fns : Functions

-- The system: the entries of the directory of blocks that is opened, in the order of readdir(3), the
-- files, and the directory of caches. `garbage` is what `read_blockchain` finds in a variable that is
-- not set, and `fuel` is more than the bytes of any file.
pub record Machine (sha256 : List ℕ → Hash) (blocks : Htable Hash Entry block_eq) : Type 0 where
  pub strreg : ℕ → Option ℕ
  pub path_join : ℕ → ℕ
  pub entries : List ℕ
  pub sys : System
  pub cachedir : Option (CacheDir sha256 blocks)
  pub utxo_cache : Hash → Option UtxoFile
  pub garbage : Bool
  pub fuel : ℕ

module _ (sha256 : List ℕ → Hash) (blocks : Htable Hash Entry block_eq)
    (utxos : Htable OutPoint Utxo utxohash_eq) where
  open utxos use {Table, init}

  -- The UTXO map at the start of the run, and `needs_fee`.
  unfoldable pub load_utxos :
      Machine sha256 blocks → Options → (start : Hash) → (needs_fee : Bool) × Table
  load_utxos mach opts start = elim mach.cachedir [
    | none ↦ (opts.needs_utxo, init)
    | some dir ↦
        let (loaded, utxo_map, file) = read_utxo_cache utxos (mach.utxo_cache start) init in
        if opts.needs_utxo then (not loaded, utxo_map) else (opts.needs_utxo, init)
  ]

  unfoldable pub iterate :
      Machine sha256 blocks → Options → Result (List (Event Table) × State sha256 utxos)
  unfolding load_utxos
  iterate mach opts = do
    block_fnames ← block_filenames_from mach.strreg mach.path_join [] mach.entries
    (st, written) ←
        read_blockchain sha256 blocks mach.fuel mach.sys opts.use_testnet opts.use_mmap mach.garbage
          mach.cachedir block_fnames none opts.block_end
    genesis ← or_fail st.chain.genesis no_genesis
    let count = st.fresh + 1
    (best, h) ← set_heights_and_best blocks count st.table st.chain.store genesis
    best ← set_blockchain_end blocks st.table opts.tip best
    start ← set_blockchain_start blocks st.table opts.start_hash (some genesis)
    h ← link_blocks blocks count st.table h best
    (best, h) ← set_iteration_end count h opts.block_end best genesis
    start ← set_iteration_start count h opts.block_start start genesis
    start ← or_fail start no_genesis
    start_block ← load h start
    best_block ← load h best
    let (needs_fee, utxo_map) = load_utxos mach opts start_block.id
    run_blocks sha256 utxos count
        (record {
          sys = mach.sys;
          block_fnames = block_fnames;
          use_mmap = opts.use_mmap;
          fns = opts.fns;
          cachedir = not (is_none mach.cachedir);
          needs_utxo = opts.needs_utxo;
          utxo_period = opts.utxo_period;
          progress_marks = opts.progress_marks;
          best_height = unsigned_height best_block.height;
        })
        h (some genesis)
        (record {
          utxo_map = utxo_map;
          slots = st.slots;
          start = some start;
          needs_fee = needs_fee;
          blocks_iterated = 0;
          last_utxo_block = none;
        })
