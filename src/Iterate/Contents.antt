-- ===== src/Iterate/Contents.antt =====
-- The transactions of a block whose bytes follow the protocol: what the loop over them does, told
-- without the file, the space and the slots.
use bitcoin_iterate.Prelude.{
  ℕ, ◌+◌, ◌*◌, ◌≤◌, ◌<◌, ◌≡◌, refl, ◌∙◌, ap, Bool, List, [], ◌∷◌, ◌++◌, length, All, if◌then◌else◌,
  Result, ok, ◌>>=◌, >>=-ok, Result-cases, inl, inr, arith,
}
use bitcoin_iterate.Prelude.Bytes.{Reads, Reads-append_left, Reads-append_right}
use bitcoin_iterate.Types.{Hash, Block, Transaction, Utxo}
use bitcoin_iterate.Space.{Region, buf_size, space_init, space_alloc_arr}
use bitcoin_iterate.Space.Bounds.{space_alloc_arr-fits, write_region-fits}
use bitcoin_iterate.Io.{File}
use bitcoin_iterate.Io.Modes.{IsOpen}
use bitcoin_iterate.Serial.{
  Tx, TxFits, original_bytes, segwit_bytes, body_space, witness_space, parsed_original,
  parsed_segwit,
}
use bitcoin_iterate.Parse.{read_transaction}
use bitcoin_iterate.Parse.Parts.{at}
use bitcoin_iterate.Parse.RoundTrip.{read_transaction-original_bytes, read_transaction-segwit_bytes}
use bitcoin_iterate.Htable.{Htable}
use bitcoin_iterate.Block.{Ptr}
use bitcoin_iterate.Utxo.{OutPoint, utxohash_eq}
use bitcoin_iterate.Blockfiles.{Slots, block_file}
use bitcoin_iterate.Blockfiles.Cached.{IsSlots, Served-ok, open_index, block_file-open_index}
use bitcoin_iterate.Iterate.{
  Job, State, Event, sizeof_transaction, transaction_events, spend_and_add, run_transaction,
  run_transactions, read_block,
}

-- A transaction as it is sent, by one of the two serializations.
pub data Sent : Type 0 where
  original segwit : Tx → Sent

abbrev pub sent_bytes : Sent → List ℕ
sent_bytes (Sent.original t) = original_bytes t
sent_bytes (Sent.segwit t) = segwit_bytes t

-- The original serialization has an input at least.
abbrev pub SentFits : Sent → Type 0
SentFits (Sent.original t) = TxFits t × (0 < length t.inputs)
SentFits (Sent.segwit t) = TxFits t × Unit {0}

abbrev pub sent_space : Sent → ℕ
sent_space (Sent.original t) = body_space t
sent_space (Sent.segwit t) = body_space t + witness_space t.inputs

-- What is read of it, with the space at `n`.
abbrev pub received : (List ℕ → Hash) → (n : ℕ) → Sent → Transaction
received sha256 n (Sent.original t) = parsed_original sha256 t
received sha256 n (Sent.segwit t) = parsed_segwit sha256 n t

abbrev pub block_bytes : List Sent → List ℕ
block_bytes [] = []
block_bytes (w ∷ ws) = sent_bytes w ++ block_bytes ws

abbrev pub block_space : List Sent → ℕ
block_space [] = 0
block_space (w ∷ ws) = sent_space w + block_space ws

abbrev pub all_received : (List ℕ → Hash) → (n : ℕ) → List Sent → List Transaction
all_received sha256 n [] = []
all_received sha256 n (w ∷ ws) = received sha256 n w ∷ all_received sha256 (n + sent_space w) ws

read_transaction-sent_bytes :
    (sha256 : List ℕ → Hash) (f : File) (off n : ℕ) (w : Sent)
    → IsOpen f
    → SentFits w
    → Reads f.disk off (sent_bytes w)
    → n + sent_space w ≤ buf_size
    → read_transaction sha256 (at n) f off
      ≡ ok (received sha256 n w, at (n + sent_space w), off + length (sent_bytes w))
read_transaction-sent_bytes sha256 f off n (Sent.original t) is fits r h =
    read_transaction-original_bytes f is sha256 off n t fits.0 fits.1 r h
read_transaction-sent_bytes sha256 f off n (Sent.segwit t) is fits r h =
    read_transaction-segwit_bytes f is sha256 off n t fits.0 r h

module _ (sha256 : List ℕ → Hash) (utxos : Htable OutPoint Utxo utxohash_eq) where
  open utxos use {Table}

  abbrev pub next_map : Bool → Block → (i : ℕ) → Transaction → Table → Result Table
  next_map needs_fee b i t m = if needs_fee then spend_and_add sha256 utxos m b t i else ok m

  -- The transactions from the `i`-th on, one after the other: the calls for each, with the map as it is
  -- before it, and then what it does to the map, if the map is kept up.
  unfoldable pub process :
      Job
      → Ptr
      → Block
      → State sha256 utxos
      → (i : ℕ) → List Transaction
      → Table
      → Result (List (Event Table) × Table)
  process job p b s i [] m = ok ([], m)
  process job p b s i (t ∷ ts) m = do
    m' ← next_map s.needs_fee b i t m
    (others, m'') ← process job p b s (i + 1) ts m'
    ok (transaction_events sha256 utxos job.fns (record s { utxo_map = m }) p t i ++ others, m'')

  -- A round, where the file is served and there is room: the file, the space and the slots are not
  -- seen.
  run_transaction_lem :
      (job : Job) (p : Ptr) (b : Block) (place : Region) (i n off : ℕ) (s : State sha256 utxos)
      (f : File) (slots : Slots) (w : Sent)
      → block_file job.sys job.block_fnames b.filenum job.use_mmap s.slots ≡ ok (f, slots)
      → IsOpen f
      → SentFits w
      → Reads f.disk off (sent_bytes w)
      → n + sent_space w ≤ buf_size
      → sizeof_transaction * i + sizeof_transaction ≤ place.bytes
      → place.start + place.bytes ≤ buf_size
      → run_transaction sha256 utxos job p b place i (at n) off s ≡ (
          next_map s.needs_fee b i (received sha256 n w) s.utxo_map >>= λ m. ok (
            transaction_events sha256 utxos job.fns s p (received sha256 n w) i,
            at (n + sent_space w),
            off + length (sent_bytes w),
            record s { utxo_map = m; slots = slots },
          ))
  unfolding run_transaction
  run_transaction_lem job p b place i n off s f slots w served is fits r h fit inside =
      >>=-ok _ served
      ∙ (>>=-ok _ (write_region-fits place (sizeof_transaction * i) sizeof_transaction fit inside)
          ∙ >>=-ok _ (read_transaction-sent_bytes sha256 f off n w is fits r h))

  run_transactions-process :
      (job : Job) (p : Ptr) (b : Block) (place : Region) (i n off : ℕ) (s : State sha256 utxos)
      (f : File) (m : Table) (slots : Slots) (ws : List Sent)
      → open_index job.sys job.block_fnames b.filenum job.use_mmap ≡ ok f
      → IsOpen f
      → IsSlots job.sys job.use_mmap slots
      → All SentFits ws
      → Reads f.disk off (block_bytes ws)
      → n + block_space ws ≤ buf_size
      → sizeof_transaction * (i + length ws) ≤ place.bytes
      → place.start + place.bytes ≤ buf_size
      → (slots' : Slots) × IsSlots job.sys job.use_mmap slots'
        × (run_transactions sha256 utxos job p b place i
              (length ws)
              (at n)
              off
              (record s { utxo_map = m; slots = slots })
            ≡ (process job p b s i (all_received sha256 n ws) m >>= λ r.
                ok (r.0, record s { utxo_map = r.1; slots = slots' })))
  unfolding run_transactions process
  run_transactions-process job p b place i n off s f m slots [] opened is cached fits r h room
        inside =
      (slots, cached, refl)
  run_transactions-process job p b place i n off s f m slots (w ∷ ws) opened is cached fits r h room
        inside =
      let s0 = record s { utxo_map = m; slots = slots } in
      let (slots1, served, cached1) =
        Served-ok job.sys job.use_mmap f _ _ opened
          (block_file-open_index job.sys job.block_fnames b.filenum job.use_mmap slots cached) in
      let round =
        run_transaction_lem job p b place i n off s0 f slots1 w served is fits.0
          (Reads-append_left f.disk off (sent_bytes w) (block_bytes ws) r) (omega arith)
          (omega arith) inside in
      elim (Result-cases (next_map s.needs_fee b i (received sha256 n w) m)) [
        | inl (stop, e) ↦ (slots, cached, rw (round, e))
        | inr (m', e) ↦
            let (slots', cached', ih) =
              run_transactions-process job p b place (i + 1) (n + sent_space w)
                (off + length (sent_bytes w)) s f m' slots1 ws opened is cached1 fits.1
                (Reads-append_right f.disk off (sent_bytes w) (block_bytes ws) r) (omega arith)
                (omega arith) inside in
            (
              slots',
              cached',
              elim (Result-cases
                  (process job p b s (i + 1) (all_received sha256 (n + sent_space w) ws) m')) [
                    | inl (stop, e2) ↦ rw (round, e) (rw (ih, e2) refl)
                    | inr (others, e2) ↦ rw (round, e) (rw (ih, e2) refl)
                  ],
            )
      ]

  -- Where the file of a block holds, from the place of its transactions on, the bytes of as many
  -- transactions as its header says, each in one of the two serializations, and the space has room for
  -- them all, the reading of the block makes the calls for those transactions, in order, each with the
  -- map behind the ones before it, and the map ends as they leave it; it fails where one of them spends
  -- what is not there. The file, the space and the slots of open files are not seen, but for the slots
  -- at the end, which are what they should be.
  pub read_block-process :
      (job : Job) (p : Ptr) (b : Block) (s : State sha256 utxos) (f : File) (ws : List Sent)
      → open_index job.sys job.block_fnames b.filenum job.use_mmap ≡ ok f
      → IsOpen f
      → IsSlots job.sys job.use_mmap s.slots
      → All SentFits ws
      → b.bh.transaction_count ≡ length ws
      → Reads f.disk b.pos (block_bytes ws)
      → sizeof_transaction * length ws + block_space ws ≤ buf_size
      → (slots : Slots) × IsSlots job.sys job.use_mmap slots
        × (read_block sha256 utxos job p b s ≡ (
            process job p b s 0 (all_received sha256 (sizeof_transaction * length ws) ws) s.utxo_map
            >>= λ r. ok (r.0, record s { utxo_map = r.1; slots = slots })))
  unfolding read_block space_init
  read_block-process job p b s f ws opened is cached fits counted r room =
      let size = sizeof_transaction * length ws in
      let place : Region = record { start = 0; bytes = size } in
      let allocated : space_alloc_arr space_init sizeof_transaction b.bh.transaction_count
          ≡ ok (place, at size) =
        rw counted (
          space_alloc_arr-fits 0 sizeof_transaction (length ws) (omega arith)
          ∙ ap (λ k. ok (place, at k)) (omega arith)) in
      let (slots, cached', run) =
        run_transactions-process job p b place 0 size b.pos s f s.utxo_map s.slots ws opened is
          cached fits r room (omega arith) (omega arith) in
      (
        slots,
        cached',
        >>=-ok _ allocated
            ∙ (ap (λ k. run_transactions sha256 utxos job p b place 0 k (at size) b.pos s) counted
                ∙ run),
      )
