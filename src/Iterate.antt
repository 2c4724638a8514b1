-- ===== src/Iterate.antt =====
-- The main loop of iterate.c. What the run does that is seen outside is a list of events: the calls
-- of the caller's functions and of `write_utxo_cache`, and the dots of progress.
pub mod Calls
pub mod Ledger
pub mod Round
pub mod Start
pub mod Total
pub mod Contents
use bitcoin_iterate.Prelude.{
  ℕ, zero, suc, ◌+◌, ◌-◌, ◌*◌, ◌/◌, ◌%◌, ◌^◌, Bool, true, false, not, ◌&&◌, ◌||◌, Option, none,
  some, List, [], ◌∷◌, ◌++◌, leb, ltb, ◌==◌, if◌then◌else◌, Result, ok, err, ◌>>=◌, ◌>>◌, guard,
  or_fail, fault, out_of_fuel, unknown_end_hash, unknown_start_hash, no_block_end, no_block_start,
}
use bitcoin_iterate.Types.{Hash, BlockHeader, Block, Transaction, Input, Output, Utxo}
use bitcoin_iterate.Space.{Space, Region, space_init, space_alloc_arr, write_region}
use bitcoin_iterate.Utils.{is_zero}
use bitcoin_iterate.Htable.{Htable}
use bitcoin_iterate.Block.{Ptr, Store, write, load, Entry, block_eq, block_map_get, set_height}
use bitcoin_iterate.Utxo.{OutPoint, utxohash_eq, unsigned_height, add_utxos, release_utxo}
use bitcoin_iterate.Parse.{read_transaction}
use bitcoin_iterate.Blockfiles.{System, Slots, block_file}

-- The functions that the caller gives; one that is NULL is false.
pub record Functions : Type 0 where
  pub blockfn : Bool
  pub txfn : Bool
  pub inputfn : Bool
  pub outputfn : Bool
  pub utxofn : Bool

-- A call has the UTXO map as it is at that time.
pub data Event (Map : Type 0) : Type 0 where
  blockfn : Map → (b : Ptr) → Event Map
  txfn : Map → (b : Ptr) → Transaction → (txnum : ℕ) → Event Map
  inputfn : Map → (b : Ptr) → Transaction → (txnum : ℕ) → Input → Event Map
  outputfn : Map → (b : Ptr) → Transaction → (txnum : ℕ) → Output → Event Map
  utxofn : Map → (b : Ptr) → (last_utxo_block : Option Ptr) → Utxo → Event Map
  write_utxo_cache : Map → Hash → Event Map
  dot : Event Map

-- What the run does not change. `cachedir` says whether there is one, `best_height` is the height of
-- the last block as an unsigned.
pub record Job : Type 0 where
  pub sys : System
  pub block_fnames : List (Option ℕ)
  pub use_mmap : Bool
  pub fns : Functions
  pub cachedir : Bool
  pub needs_utxo : Bool
  pub utxo_period : ℕ
  pub progress_marks : ℕ
  pub best_height : ℕ

-- sizeof(struct transaction)
abbrev pub sizeof_transaction : ℕ
sizeof_transaction = 120

module _ (sha256 : List ℕ → Hash) (utxos : Htable OutPoint Utxo utxohash_eq) where
  open utxos use {Table}

  -- The variables of the loop, with the static ones of `block_file`. `start` is NULL once the start
  -- is passed; `blocks_iterated` is an int that is taken for an unsigned.
  pub record State : Type 0 where
    pub utxo_map : Table
    pub slots : Slots
    pub start : Option Ptr
    pub needs_fee : Bool
    pub blocks_iterated : ℕ
    pub last_utxo_block : Option Ptr

  abbrev pub has_started : State → Bool
  has_started s = elim s.start [ none ↦ true | some p ↦ false ]

  -- `for (j = 0; j < tx[i].input_count; j++)` over the inputs.
  unfoldable pub input_events :
      Table → Ptr → Transaction → (txnum : ℕ) → List Input → List (Event Table)
  input_events m b t txnum [] = []
  input_events m b t txnum (i ∷ is) = inputfn m b t txnum i ∷ input_events m b t txnum is

  unfoldable pub output_events :
      Table → Ptr → Transaction → (txnum : ℕ) → List Output → List (Event Table)
  output_events m b t txnum [] = []
  output_events m b t txnum (o ∷ os) = outputfn m b t txnum o ∷ output_events m b t txnum os

  unfoldable pub utxo_events : Table → Ptr → Option Ptr → List Utxo → List (Event Table)
  utxo_events m b last_utxo_block [] = []
  utxo_events m b last_utxo_block (u ∷ us) =
      utxofn m b last_utxo_block u ∷ utxo_events m b last_utxo_block us

  -- The calls for one transaction.
  unfoldable pub transaction_events :
      Functions → State → Ptr → Transaction → (txnum : ℕ) → List (Event Table)
  unfolding input_events output_events
  transaction_events fns s b t txnum =
      (if has_started s && fns.txfn then txfn s.utxo_map b t txnum ∷ [] else [])
      ++ ((if has_started s && fns.inputfn then input_events s.utxo_map b t txnum t.input else [])
          ++ (if has_started s && fns.outputfn
              then output_events s.utxo_map b t txnum t.output
              else []))

  unfoldable pub release_utxos : Table → List Input → Result Table
  release_utxos m [] = ok m
  release_utxos m (i ∷ is) = do m ← release_utxo utxos m i; release_utxos m is

  -- What a transaction does to the map: the first of a block spends nothing.
  unfoldable pub spend_and_add : Table → Block → Transaction → (txnum : ℕ) → Result Table
  unfolding release_utxos
  spend_and_add m b t txnum = do
    m ← if txnum == 0 then ok m else release_utxos m t.input
    add_utxos utxos m b t txnum

  -- One round of the loop over the transactions of a block, for the `i`-th.
  unfoldable pub run_transaction :
      Job
      → Ptr
      → Block
      → Region
      → (i : ℕ) → Space
      → (off : ℕ) → State
      → Result (List (Event Table) × Space × ℕ × State)
  unfolding transaction_events spend_and_add
  run_transaction job p b place i space off s = do
    (f, slots) ← block_file job.sys job.block_fnames b.filenum job.use_mmap s.slots
    write_region place (sizeof_transaction * i) sizeof_transaction
    (t, space, off) ← read_transaction sha256 space f off
    m ← if s.needs_fee then spend_and_add s.utxo_map b t i else ok s.utxo_map
    ok (transaction_events job.fns s p t i, space, off, record s { utxo_map = m; slots = slots })

  -- The loop: `n` transactions from the `i`-th on.
  unfoldable pub run_transactions :
      Job
      → Ptr
      → Block
      → Region
      → (i n : ℕ) → Space
      → (off : ℕ) → State
      → Result (List (Event Table) × State)
  unfolding run_transaction
  run_transactions job p b place i zero space off s = ok ([], s)
  run_transactions job p b place i (suc n) space off s = do
    (here, space, off, s) ← run_transaction job p b place i space off s
    (others, s) ← run_transactions job p b place (i + 1) n space off s
    ok (here ++ others, s)

  -- At the block `start`: the UTXO map is saved, or was loaded and is kept up from here on.
  unfoldable pub pass_start : Job → Ptr → Block → State → List (Event Table) × State
  pass_start job p b s = elim s.start [
    | none ↦ ([], s)
    | some q ↦
        if p == q
        then (
          if job.cachedir && (job.needs_utxo && s.needs_fee)
              then write_utxo_cache s.utxo_map b.id ∷ []
              else [],
          record s {
            start = none;
            needs_fee = if job.cachedir && job.needs_utxo then true else s.needs_fee;
          },
        )
        else ([], s)
  ]

  unfoldable pub block_events : Job → Ptr → State → List (Event Table)
  block_events job p s = if has_started s && job.fns.blockfn then blockfn s.utxo_map p ∷ [] else []

  -- b->height % (best->height / progress_marks) == (best->height / progress_marks) - 1, on
  -- unsigned ints; a remainder by zero ends the process.
  unfoldable pub progress : Job → Block → State → Result (List (Event Table))
  progress job b s =
      if has_started s && not (job.progress_marks == 0)
      then (do
        let period = job.best_height / job.progress_marks
        guard (not (period == 0)) fault
        ok (if unsigned_height b.height % period == period - 1 then dot ∷ [] else []))
      else ok []

  -- The transactions of a block, read into fresh space.
  unfoldable pub read_block : Job → Ptr → Block → State → Result (List (Event Table) × State)
  unfolding run_transactions
  read_block job p b s = do
    (place, space) ← space_alloc_arr space_init sizeof_transaction b.bh.transaction_count
    run_transactions job p b place 0 b.bh.transaction_count space b.pos s

  -- What stands behind the transactions of a block.
  unfoldable pub end_block : Job → Ptr → State → Result (List (Event Table) × State)
  unfolding utxo_events
  end_block job p s =
      if has_started s
      then (do
        let iterated = (s.blocks_iterated + 1) % 2 ^ 32
        if job.fns.utxofn
            then (do
              guard (not (job.utxo_period == 0)) fault
              ok (
                if iterated % job.utxo_period == 0
                    then utxo_events s.utxo_map p s.last_utxo_block (utxos.elements s.utxo_map)
                    else [],
                record s { blocks_iterated = iterated; last_utxo_block = some p },
              ))
            else ok ([], record s { blocks_iterated = iterated }))
      else ok ([], s)

  -- Whether the transactions of a block are read at all.
  abbrev pub reads : Job → State → Bool
  reads job s =
      (job.fns.txfn || (job.fns.inputfn || (job.fns.outputfn || job.fns.utxofn)))
      && (has_started s || s.needs_fee)

  -- The body of the loop.
  unfoldable pub run_block : Job → Ptr → Block → State → Result (List (Event Table) × State)
  unfolding pass_start block_events progress read_block end_block
  run_block job p b s = do
    let saved = pass_start job p b s
    let s = saved.1
    dots ← progress job b s
    let front = saved.0 ++ (block_events job p s ++ dots)
    if reads job s
        then (do
          (inside, s) ← read_block job p b s
          (behind, s) ← end_block job p s
          ok (front ++ (inside ++ behind), s))
        else ok (front, s)

  -- `for (b = genesis; b; b = b->next)`.
  unfoldable pub run_blocks :
      ℕ → Job → Store → (b : Option Ptr) → State → Result (List (Event Table) × State)
  unfolding load run_block
  run_blocks fuel job h none s = ok ([], s)
  run_blocks zero job h (some p) s = err out_of_fuel
  run_blocks (suc fuel) job h (some p) s = do
    b ← load h p
    (events, s) ← run_block job p b s
    (others, s) ← run_blocks fuel job h b.next s
    ok (events ++ others, s)
