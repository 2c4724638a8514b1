-- ===== src/Iterate/Calls.antt =====
-- What the transactions of a block report.
use mathlib.Core.Path.{subst}
use bitcoin_iterate.Prelude.{
  ℕ, zero, suc, ◌+◌, ◌*◌, ◌≡◌, refl, ◌∙◌, ap, Bool, true, false, ◌&&◌, Option, none, some, List, [],
  ◌∷◌, ◌++◌, if◌then◌else◌, Result, ok, Holds, Holds-then, Holds->>=, Holds-ok,
}
use bitcoin_iterate.Types.{Hash, Block, Transaction, Input, Output, Utxo}
use bitcoin_iterate.Space.{Space, Region, write_region}
use bitcoin_iterate.Parse.{read_transaction}
use bitcoin_iterate.Blockfiles.{block_file}
use bitcoin_iterate.Htable.{Htable}
use bitcoin_iterate.Block.{Ptr}
use bitcoin_iterate.Utxo.{OutPoint, utxohash_eq}
use bitcoin_iterate.Iterate.{
  Event, Functions, Job, State, has_started, input_events, output_events, utxo_events,
  transaction_events, run_transaction, run_transactions, spend_and_add, sizeof_transaction,
}

-- The blocks for which the block function is called, in order.
abbrev pub blocks_of : {M : Type 0} → List (Event M) → List Ptr
blocks_of [] = []
blocks_of (Event.blockfn m b ∷ es) = b ∷ blocks_of es
blocks_of (_ ∷ es) = blocks_of es

pub blocks_of-append :
    {M : Type 0} (es es' : List (Event M)) → blocks_of (es ++ es') ≡ blocks_of es ++ blocks_of es'
blocks_of-append [] es' = refl
blocks_of-append (Event.blockfn m b ∷ es) es' = ap (λ bs. b ∷ bs) (blocks_of-append es es')
blocks_of-append (_ ∷ es) es' = blocks_of-append es es'

-- Before the start there is no call.
abbrev pub BeforeStart : {M : Type 0} → Option Ptr → List (Event M) → Type 0
BeforeStart none es = Unit {0}
BeforeStart (some q) es = es ≡ []

BeforeStart-nil : (M : Type 0) (o : Option Ptr) → BeforeStart {M = M} o []
BeforeStart-nil M none = tt
BeforeStart-nil M (some q) = refl

pub BeforeStart-append :
    {M : Type 0} (o : Option Ptr) (es es' : List (Event M))
    → BeforeStart o es
    → BeforeStart o es'
    → BeforeStart o (es ++ es')
BeforeStart-append none es es' h h' = tt
BeforeStart-append (some q) es es' h h' = rw (h, h')

pub Holds-if :
    {A : Type 0} (P : A → Type 0) (c : Bool) (x y : Result A)
    → Holds P x
    → Holds P y
    → Holds P (if c then x else y)
Holds-if P true x y h h' = h
Holds-if P false x y h h' = h'

module _ (sha256 : List ℕ → Hash) (utxos : Htable OutPoint Utxo utxohash_eq) where
  open utxos use {Table}

  abbrev Calls :
      Job
      → Ptr
      → (i : ℕ) → State sha256 utxos
      → List (Event Table) × Space × ℕ × State sha256 utxos
      → Type 0
  Calls job p i s (es, space, off, s') =
      (s'.start ≡ s.start)
      × ((t : Transaction) × (es ≡ transaction_events sha256 utxos job.fns s p t i))

  run_transaction-events :
      (job : Job) (p : Ptr) (b : Block) (place : Region) (i : ℕ) (space : Space) (off : ℕ)
      (s : State sha256 utxos)
      → Holds (Calls job p i s) (run_transaction sha256 utxos job p b place i space off s)
  unfolding run_transaction
  run_transaction-events job p b place i space off s =
      let P = Calls job p i s in
      Holds->>= P (block_file job.sys job.block_fnames b.filenum job.use_mmap s.slots) _ (λ fs.
        Holds->>= P (write_region place (sizeof_transaction * i) sizeof_transaction) _ (λ _.
          Holds->>= P (read_transaction sha256 space fs.0 off) _ (λ ts.
            Holds->>= P
              (if s.needs_fee
                then spend_and_add sha256 utxos s.utxo_map b ts.0 i
                else ok s.utxo_map)
              _
              (λ m.
                Holds-ok P
                  (
                    transaction_events sha256 utxos job.fns s p ts.0 i,
                    ts.1,
                    ts.2,
                    record s { utxo_map = m; slots = fs.1 },
                  )
                  (refl, (ts.0, refl))))))

  -- The calls for a transaction call no block function, and none is made before the start.
  input_events-blocks :
      (m : Table) (p : Ptr) (t : Transaction) (i : ℕ) (is : List Input)
      → blocks_of (input_events sha256 utxos m p t i is) ≡ []
  unfolding input_events
  input_events-blocks m p t i [] = refl
  input_events-blocks m p t i (x ∷ is) = input_events-blocks m p t i is

  output_events-blocks :
      (m : Table) (p : Ptr) (t : Transaction) (i : ℕ) (os : List Output)
      → blocks_of (output_events sha256 utxos m p t i os) ≡ []
  unfolding output_events
  output_events-blocks m p t i [] = refl
  output_events-blocks m p t i (x ∷ os) = output_events-blocks m p t i os

  pub utxo_events-blocks :
      (m : Table) (p : Ptr) (last : Option Ptr) (us : List Utxo)
      → blocks_of (utxo_events sha256 utxos m p last us) ≡ []
  unfolding utxo_events
  utxo_events-blocks m p last [] = refl
  utxo_events-blocks m p last (x ∷ us) = utxo_events-blocks m p last us

  pub if_blocks :
      (c : Bool) (es : List (Event Table))
      → blocks_of es ≡ []
      → blocks_of (if c then es else []) ≡ []
  if_blocks true es h = h
  if_blocks false es h = refl

  pub append_blocks :
      (es es' : List (Event Table))
      → blocks_of es ≡ []
      → blocks_of es' ≡ []
      → blocks_of (es ++ es') ≡ []
  append_blocks es es' e e' = blocks_of-append es es' ∙ rw (e, e')

  transaction_events-blocks :
      (fns : Functions) (s : State sha256 utxos) (p : Ptr) (t : Transaction) (i : ℕ)
      → blocks_of (transaction_events sha256 utxos fns s p t i) ≡ []
  unfolding transaction_events
  transaction_events-blocks fns s p t i =
      let m = s.utxo_map in
      let started = has_started sha256 utxos s in
      let txs = if started && fns.txfn then Event.txfn m p t i ∷ [] else [] in
      let ins = input_events sha256 utxos m p t i t.input in
      let outs = output_events sha256 utxos m p t i t.output in
      let ins_if = if started && fns.inputfn then ins else [] in
      let outs_if = if started && fns.outputfn then outs else [] in
      append_blocks txs (ins_if ++ outs_if)
        (if_blocks (started && fns.txfn) (Event.txfn m p t i ∷ []) refl)
        (append_blocks ins_if outs_if
          (if_blocks (started && fns.inputfn) ins (input_events-blocks m p t i t.input))
          (if_blocks (started && fns.outputfn) outs (output_events-blocks m p t i t.output)))

  transaction_events-before :
      (fns : Functions) (s : State sha256 utxos) (p : Ptr) (t : Transaction) (i : ℕ) (q : Ptr)
      → s.start ≡ some q
      → transaction_events sha256 utxos fns s p t i ≡ []
  unfolding transaction_events
  transaction_events-before fns s p t i q e = rw e

  -- What the transactions of a block report: no block, and before the start nothing.
  abbrev pub Inside : State sha256 utxos → List (Event Table) × State sha256 utxos → Type 0
  Inside s (es, s') = (s'.start ≡ s.start) × (blocks_of es ≡ []) × BeforeStart s.start es

  pub run_transactions-Inside :
      (job : Job) (p : Ptr) (b : Block) (place : Region) (i n : ℕ) (space : Space) (off : ℕ)
      (s : State sha256 utxos)
      → Holds (Inside s) (run_transactions sha256 utxos job p b place i n space off s)
  unfolding run_transactions
  run_transactions-Inside job p b place i zero space off s =
      Holds-ok (Inside s) ([], s) (refl, refl, BeforeStart-nil Table s.start)
  run_transactions-Inside job p b place i (suc n) space off s =
      Holds-then (Calls job p i s) (Inside s)
        (run_transaction sha256 utxos job p b place i space off s) _
        (run_transaction-events job p b place i space off s)
        (λ r c.
          Holds-then (Inside r.3) (Inside s)
            (run_transactions sha256 utxos job p b place (i + 1) n r.1 r.2 r.3) _
            (run_transactions-Inside job p b place (i + 1) n r.1 r.2 r.3)
            (λ r2 ih.
              let inside : Inside s (r.0 ++ r2.0, r2.1) = (
                ih.0 ∙ c.0,
                append_blocks r.0 r2.0
                    (ap blocks_of (c.1).1 ∙ transaction_events-blocks job.fns s p (c.1).0 i) ih.1,
                BeforeStart-append s.start r.0 r2.0 (before (c.1).0 r.0 s.start refl (c.1).1)
                    (subst (λ o. BeforeStart o r2.0) c.0 ih.2),
              ) in
              Holds-ok (Inside s) _ inside))
    where
      before :
          (t : Transaction) (es : List (Event Table)) (o : Option Ptr)
          → s.start ≡ o
          → es ≡ transaction_events sha256 utxos job.fns s p t i
          → BeforeStart o es
      before t es none e e' = tt
      before t es (some q) e e' = e' ∙ transaction_events-before job.fns s p t i q e
