-- ===== src/Cache.antt =====
-- The caches of cache.c. A cache file holds structures as they lie in memory: it is the list of those
-- that it holds whole, and the bytes of one that is cut off.
pub mod Utxos
use bitcoin_iterate.Prelude.{
  ℕ, zero, suc, ◌+◌, ◌-◌, Bool, true, false, not, ◌&&◌, ◌||◌, Option, none, some, List, [], ◌∷◌,
  length, leb, ◌==◌, if◌then◌else◌, Result, ok, err, ◌>>=◌, ◌>>◌, guard, or_fail, cannot_stat,
  cannot_read, cannot_create, short_write, no_genesis, fault,
}
use bitcoin_iterate.Types.{Hash, Block, Utxo}
use bitcoin_iterate.Htable.{Htable}
use bitcoin_iterate.Block.{Ptr, Entry, Chain, block_eq, load}
use bitcoin_iterate.Utxo.{OutPoint, utxohash_eq}
use bitcoin_iterate.Blockfiles.{System}
use bitcoin_iterate.Blockfiles.Read.{Progress, add_new_block, read_blockfiles}

abbrev pub is_none {ℓ} : {A : Type ℓ} → Option A → Bool
is_none none = true
is_none (some a) = false

-- The two calls of stat(2), with the times of change.
unfoldable pub blockcache_is_valid : (block_st cache_st : Option ℕ) → Result Bool
blockcache_is_valid block_st cache_st = do
  block_mtime ← or_fail block_st cannot_stat
  ok (elim cache_st [ none ↦ false | some cache_mtime ↦ not (leb cache_mtime block_mtime) ])

module _ (sha256 : List ℕ → Hash) (blocks : Htable Hash Entry block_eq) where
  open blocks use {Table, elements}

  unfoldable pub add_cached_blocks :
      List Block → Progress sha256 blocks → Result (Progress sha256 blocks)
  add_cached_blocks [] st = ok st
  add_cached_blocks (b ∷ bs) st = do
    (added, st) ← add_new_block sha256 blocks b st
    add_cached_blocks bs st

  -- `grabbed` is what grab_file gives: the whole structures of the file, or nothing.
  unfoldable pub read_blockcache :
      (grabbed : Option (List Block)) → (genesis : Option Ptr) → Result (Progress sha256 blocks)
  unfolding add_cached_blocks
  read_blockcache grabbed genesis = do
    bs ← or_fail grabbed cannot_read
    add_cached_blocks bs (record {
      table = blocks.init;
      chain = record { store = λ p. none; genesis = genesis; num_misses = 0 };
      slots = record { first = none; second = none; next = 0 };
      fresh = 0;
      block_count = length bs;
    })

  -- The structures of all entries of the map.
  unfoldable pub entry_blocks : Chain → List Entry → Result (List Block)
  unfolding load
  entry_blocks c [] = ok []
  entry_blocks c (e ∷ es) = do b ← load c.store e.ptr; bs ← entry_blocks c es; ok (b ∷ bs)

  -- `opens` says whether the file can be created, after mkdir if need be, and `writes` whether each
  -- write takes all bytes. The result is the new file.
  unfoldable pub write_blockcache : (opens writes : Bool) → Table → Chain → Result (List Block)
  unfolding entry_blocks
  write_blockcache opens writes m c = do
    guard opens cannot_create
    bs ← entry_blocks c (elements m)
    guard (writes || length bs == 0) short_write
    ok bs

  -- The directory and what it holds: the time of change of the last block file and of the cache
  -- file, and the cache file.
  pub record CacheDir : Type 0 where
    pub block_st : Option ℕ
    pub cache_st : Option ℕ
    pub blockcache : Option (List Block)
    pub opens : Bool
    pub writes : Bool

  -- The blocks of a cache that is valid.
  unfoldable pub try_blockcache :
      (cachedir : Option CacheDir)
      → (genesis : Option Ptr) → Result (Option (Progress sha256 blocks))
  unfolding blockcache_is_valid read_blockcache
  try_blockcache none genesis = ok none
  try_blockcache (some dir) genesis = do
    valid ← blockcache_is_valid dir.block_st dir.cache_st
    if valid then (do st ← read_blockcache dir.blockcache genesis; ok (some st)) else ok none

  -- The end of `read_blockchain`: the cache file that is written, if one is. Where there is no
  -- directory or no block file, `blockcache` is not initialised: `garbage` says whether its test finds
  -- it non-NULL then, and it is no path.
  unfoldable pub keep_blockcache :
      (garbage : Bool)
      → (cachedir : Option CacheDir) → (wanted : Bool) → Progress sha256 blocks
      → Result (Option (List Block))
  unfolding write_blockcache
  keep_blockcache garbage none wanted st = if garbage && wanted then err fault else ok none
  keep_blockcache garbage (some dir) wanted st =
      if wanted
      then (do bs ← write_blockcache dir.opens dir.writes st.table st.chain; ok (some bs))
      else ok none

  -- The blocks of the block files, where the cache had none.
  unfoldable pub fill_blockchain :
      ℕ
      → System
      → (use_testnet use_mmap : Bool) → List (Option ℕ)
      → (genesis : Option Ptr) → (block_end : Option ℕ) → Option (Progress sha256 blocks)
      → Result (Bool × Progress sha256 blocks)
  fill_blockchain fuel sys use_testnet use_mmap block_fnames genesis block_end none = do
    st ← read_blockfiles sha256 blocks fuel sys use_testnet use_mmap block_fnames genesis block_end
    ok (false, st)
  fill_blockchain fuel sys use_testnet use_mmap block_fnames genesis block_end (some cached) =
      if cached.block_count == 0
      then (do
        st ←
            read_blockfiles sha256 blocks fuel sys use_testnet use_mmap block_fnames
              cached.chain.genesis block_end
        ok (false, st))
      else ok (true, cached)

  unfoldable pub read_blockchain :
      ℕ
      → System
      → (use_testnet use_mmap garbage : Bool) → (cachedir : Option CacheDir) → List (Option ℕ)
      → (genesis : Option Ptr) → (block_end : Option ℕ)
      → Result (Progress sha256 blocks × Option (List Block))
  unfolding try_blockcache keep_blockcache fill_blockchain
  read_blockchain fuel sys use_testnet use_mmap garbage cachedir block_fnames genesis block_end = do
    let dir = if length block_fnames == 0 then none else cachedir
    cached ← try_blockcache dir genesis
    (cache_existed, st) ←
        fill_blockchain fuel sys use_testnet use_mmap block_fnames genesis block_end cached
    written ← keep_blockcache garbage dir (not cache_existed && is_none block_end) st
    guard (not (is_none st.chain.genesis)) no_genesis
    ok (st, written)

-- A UTXO cache file: whole structures, and the bytes of one that is cut off.
pub record UtxoFile : Type 0 where
  pub utxos : List Utxo
  pub tail : ℕ

module _ (utxos : Htable OutPoint Utxo utxohash_eq) where
  open utxos use {Table, add, elements, init}

  -- The loop over the contents.
  unfoldable pub add_cached_utxos : List Utxo → Table → Table
  add_cached_utxos [] m = m
  add_cached_utxos (u ∷ us) m = add_cached_utxos us (add u m)

  -- The file is that of a block's id, if there is one. A file that is cut off is deleted, but what
  -- was read of it stays in the map. The result says whether the map was loaded.
  unfoldable pub read_utxo_cache :
      (file : Option UtxoFile) → (utxo_map : Table) → Bool × Table × Option UtxoFile
  unfolding add_cached_utxos
  read_utxo_cache none utxo_map = (false, utxo_map, none)
  read_utxo_cache (some file) utxo_map =
      let utxo_map = add_cached_utxos file.utxos init in
      if file.tail == 0 then (true, utxo_map, some file) else (false, utxo_map, none)

  -- A file that is there already is left alone. `opens` says whether another can be created.
  unfoldable pub write_utxo_cache :
      (opens writes : Bool)
      → (file : Option UtxoFile) → (utxo_map : Table) → Result (Option UtxoFile)
  write_utxo_cache opens writes (some file) utxo_map = ok (some file)
  write_utxo_cache opens writes none utxo_map = do
    guard opens cannot_create
    guard (writes || length (elements utxo_map) == 0) short_write
    ok (some (record { utxos = elements utxo_map; tail = 0 }))
