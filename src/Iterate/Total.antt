-- ===== src/Iterate/Total.antt =====
-- Runs of the main loop that report blocks alone.
use bitcoin_iterate.Prelude.{
  ℕ, zero, suc, ◌<◌, ◌≡◌, ◌∙◌, true, false, Option, List, [], ◌∷◌, ◌++◌, length, ok, arith,
  Option-cases, inl, inr,
}
use bitcoin_iterate.Types.{Hash, Block, Utxo}
use bitcoin_iterate.Htable.{Htable}
use bitcoin_iterate.Block.{Ptr, Store, load}
use bitcoin_iterate.Utxo.{OutPoint, utxohash_eq}
use bitcoin_iterate.Iterate.{
  Event, Job, State, pass_start, block_events, progress, run_block, run_blocks,
}
use bitcoin_iterate.Iterate.Calls.{blocks_of}
use bitcoin_iterate.Iterate.Start.{from_start, run_blocks-from_start}
use bitcoin_iterate.Chain.Links.{Forward}

-- There is a block function and no other, and no dots are asked for.
pub record IsBlocksOnly (job : Job) : Type 0 where
  pub blockfn : job.fns.blockfn ≡ true
  pub txfn : job.fns.txfn ≡ false
  pub inputfn : job.fns.inputfn ≡ false
  pub outputfn : job.fns.outputfn ≡ false
  pub utxofn : job.fns.utxofn ≡ false
  pub progress_marks : job.progress_marks ≡ 0

module _ (sha256 : List ℕ → Hash) (utxos : Htable OutPoint Utxo utxohash_eq) where
  open utxos use {Table}

  progress-none :
      (job : Job) (b : Block) (s : State sha256 utxos)
      → job.progress_marks ≡ 0
      → progress sha256 utxos job b s ≡ ok []
  unfolding progress
  progress-none job b s z = elim (Option-cases s.start) [ inl e ↦ rw (e, z) | inr (q, e) ↦ rw e ]

  run_block-ok :
      (job : Job) (p : Ptr) (b : Block) (s : State sha256 utxos)
      → IsBlocksOnly job
      → (es : List (Event Table)) × (s' : State sha256 utxos) × (run_block sha256 utxos job p b s
          ≡ ok (es, s'))
  unfolding run_block
  run_block-ok job p b s only =
      let s1 = (pass_start sha256 utxos job p b s).1 in
      (
        (pass_start sha256 utxos job p b s).0 ++ (block_events sha256 utxos job p s1 ++ []),
        s1,
        rw (
          progress-none job b s1 only.progress_marks,
          only.txfn,
          only.inputfn,
          only.outputfn,
          only.utxofn,
        ),
      )

  run_blocks-ok :
      (fuel : ℕ) (job : Job) (h : Store) (b : Option Ptr) (ps : List Ptr) (s : State sha256 utxos)
      → IsBlocksOnly job
      → Forward h b ps
      → length ps < fuel
      → (es : List (Event Table)) × (s' : State sha256 utxos) × (run_blocks sha256 utxos fuel job h
            b s
          ≡ ok (es, s'))
  unfolding run_blocks load
  run_blocks-ok zero job h b ps s only fw enough = absurd (omega arith)
  run_blocks-ok (suc fuel) job h b [] s only fw enough = ([], s, rw fw)
  run_blocks-ok (suc fuel) job h b (p ∷ ps) s only (e, (blk, at_p, fw)) enough =
      let (es, s1, run) = run_block-ok job p blk s only in
      let (es', s2, run') = run_blocks-ok fuel job h blk.next ps s1 only fw (omega arith) in
      (es ++ es', s2, rw (e, load, at_p, run, run'))

  pub run_blocks_total :
      (fuel : ℕ) (job : Job) (h : Store) (b : Option Ptr) (ps : List Ptr) (s : State sha256 utxos)
      → IsBlocksOnly job
      → Forward h b ps
      → length ps < fuel
      → (es : List (Event Table)) × (s' : State sha256 utxos) × (run_blocks sha256 utxos fuel job h
            b s
          ≡ ok (es, s'))
        × (blocks_of es ≡ from_start s.start ps)
  run_blocks_total fuel job h b ps s only fw enough =
      let (es, s', run) = run_blocks-ok fuel job h b ps s only fw enough in
      (
        es,
        s',
        run,
        run_blocks-from_start sha256 utxos fuel job h b ps s s' es fw run ∙ rw only.blockfn,
      )
