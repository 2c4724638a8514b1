-- ===== src/Iterate/Start.antt =====
-- Which blocks a run of the main loop reports.
use mathlib.Core.Path.{subst}
use bitcoin_iterate.Prelude.{
  ℕ, zero, suc, ◌≡◌, refl, ◌∙◌, Option, none, some, List, [], ◌∷◌, ◌++◌, ◌==◌, if◌then◌else◌, ok,
  out_of_fuel, Holds, Holds-then, Holds-ok, Holds-err, Holds_at, Bool-cases, inl, inr,
}
use bitcoin_iterate.Types.{Hash, Utxo}
use bitcoin_iterate.Htable.{Htable}
use bitcoin_iterate.Chain.Ways.{Avoids}
use bitcoin_iterate.Block.{Ptr, Store, load}
use bitcoin_iterate.Utxo.{OutPoint, utxohash_eq}
use bitcoin_iterate.Iterate.{Event, Job, State, run_block, run_blocks}
use bitcoin_iterate.Chain.Links.{Forward}
use bitcoin_iterate.Iterate.Calls.{blocks_of, blocks_of-append, BeforeStart}
use bitcoin_iterate.Iterate.Round.{passed, shown, Reports, run_block-Reports}

-- From `start` on; all blocks where the start has been passed.
abbrev pub from_start : Option Ptr → List Ptr → List Ptr
from_start none ps = ps
from_start (some q) [] = []
from_start (some q) (p ∷ ps) = if p == q then p ∷ ps else from_start (some q) ps

module _ (sha256 : List ℕ → Hash) (utxos : Htable OutPoint Utxo utxohash_eq) where
  open utxos use {Table}

  from_start-step :
      (job : Job) (p : Ptr) (ps : List Ptr) (o : Option Ptr)
      → (shown sha256 utxos job p (passed sha256 utxos o p)
          ++ (if job.fns.blockfn then from_start (passed sha256 utxos o p) ps else []))
        ≡ (if job.fns.blockfn then from_start o (p ∷ ps) else [])
  from_start-step job p ps o = elim (Bool-cases job.fns.blockfn) [
    | inr f ↦ rw f (hidden o)
    | inl f ↦ rw f (seen o)
  ]
    where
      none_shown : List Ptr
      none_shown = []

      hidden :
          (o : Option Ptr)
          → (elim (passed sha256 utxos o p) [ none ↦ none_shown | some q ↦ none_shown ])
              ++ none_shown
            ≡ none_shown
      hidden none = refl
      hidden (some q) = elim (Bool-cases (p == q)) [ inl e ↦ rw e | inr e ↦ rw e ]

      seen :
          (o : Option Ptr)
          → (elim (passed sha256 utxos o p) [ none ↦ p ∷ [] | some q ↦ [] ])
              ++ from_start (passed sha256 utxos o p) ps
            ≡ from_start o (p ∷ ps)
      seen none = refl
      seen (some q) = elim (Bool-cases (p == q)) [ inl e ↦ rw e | inr e ↦ rw e ]

  from_start_nil :
      (job : Job) (o : Option Ptr) → [] ≡ (if job.fns.blockfn then from_start o [] else [])
  from_start_nil job none = elim (Bool-cases job.fns.blockfn) [ inl e ↦ rw e | inr e ↦ rw e ]
  from_start_nil job (some q) = elim (Bool-cases job.fns.blockfn) [ inl e ↦ rw e | inr e ↦ rw e ]

  -- From the list of a chain, what is reported: the blocks from the start on.
  Sequence : Job → Option Ptr → List Ptr → List (Event Table) × State sha256 utxos → Type 0
  Sequence job o ps (es, s') = blocks_of es ≡ (if job.fns.blockfn then from_start o ps else [])

  run_blocks-Sequence :
      (fuel : ℕ) (job : Job) (h : Store) (b : Option Ptr) (ps : List Ptr) (s : State sha256 utxos)
      → Forward h b ps
      → Holds (Sequence job s.start ps) (run_blocks sha256 utxos fuel job h b s)
  unfolding run_blocks Sequence
  run_blocks-Sequence fuel job h b [] s fw =
      rw fw (Holds-ok (Sequence job s.start []) ([], s) (from_start_nil job s.start))
  run_blocks-Sequence zero job h b (p ∷ ps) s (e, (blk, at_p, fw)) =
      rw e (Holds-err (Sequence job s.start (p ∷ ps)) out_of_fuel)
  run_blocks-Sequence (suc fuel) job h b (p ∷ ps) s (e, (blk, at_p, fw)) =
      let P = Sequence job s.start (p ∷ ps) in
      rw (e, load, at_p)
        (Holds-then (Reports sha256 utxos job p s) P (run_block sha256 utxos job p blk s) _
          (run_block-Reports sha256 utxos job p blk s)
          (λ r rep.
            Holds-then (Sequence job (r.1).start ps) P
              (run_blocks sha256 utxos fuel job h blk.next r.1) _
              (run_blocks-Sequence fuel job h blk.next ps r.1 fw)
              (λ r2 ih.
                Holds-ok P (r.0 ++ r2.0, r2.1)
                  (blocks_of-append r.0 r2.0
                    ∙ (rw (rep.1, ih, rep.0) (from_start-step job p ps s.start))))))

  -- A run over a chain that ends well calls the block function for the blocks from the start to the
  -- end of the chain, each once and in order, and for no other block.
  pub run_blocks-from_start :
      (fuel : ℕ) (job : Job) (h : Store) (b : Option Ptr) (ps : List Ptr)
      (s s' : State sha256 utxos) (es : List (Event Table))
      → Forward h b ps
      → run_blocks sha256 utxos fuel job h b s ≡ ok (es, s')
      → blocks_of es ≡ (if job.fns.blockfn then from_start s.start ps else [])
  unfolding Sequence
  run_blocks-from_start fuel job h b ps s s' es fw run =
      Holds_at (Sequence job s.start ps) (run_blocks sha256 utxos fuel job h b s) (es, s')
        (run_blocks-Sequence fuel job h b ps s fw) run

  Silent : Ptr → List (Event Table) × State sha256 utxos → Type 0
  Silent q (es, s') = es ≡ []

  run_blocks-Silent :
      (fuel : ℕ) (job : Job) (h : Store) (b : Option Ptr) (ps : List Ptr) (q : Ptr)
      (s : State sha256 utxos)
      → Forward h b ps
      → Avoids q ps
      → s.start ≡ some q
      → Holds (Silent q) (run_blocks sha256 utxos fuel job h b s)
  unfolding run_blocks Silent
  run_blocks-Silent fuel job h b [] q s fw a st = rw fw (Holds-ok (Silent q) ([], s) refl)
  run_blocks-Silent zero job h b (p ∷ ps) q s (e, (blk, at_p, fw)) a st =
      rw e (Holds-err (Silent q) out_of_fuel)
  run_blocks-Silent (suc fuel) job h b (p ∷ ps) q s (e, (blk, at_p, fw)) a st =
      let still : passed sha256 utxos s.start p ≡ some q = rw (st, a.0) in
      rw (e, load, at_p)
        (Holds-then (Reports sha256 utxos job p s) (Silent q) (run_block sha256 utxos job p blk s) _
          (run_block-Reports sha256 utxos job p blk s)
          (λ r rep.
            Holds-then (Silent q) (Silent q) (run_blocks sha256 utxos fuel job h blk.next r.1) _
              (run_blocks-Silent fuel job h blk.next ps q r.1 fw a.1 (rep.0 ∙ still))
              (λ r2 ih.
                let none_here : r.0 ≡ [] = subst (λ o. BeforeStart o r.0) still rep.2 in
                Holds-ok (Silent q) (r.0 ++ r2.0, r2.1) (rw (none_here, ih)))))

  -- On a chain without the start, a run that ends well makes no call at all, and saves nothing.
  pub run_blocks-before_start :
      (fuel : ℕ) (job : Job) (h : Store) (b : Option Ptr) (ps : List Ptr) (q : Ptr)
      (s s' : State sha256 utxos) (es : List (Event Table))
      → Forward h b ps
      → Avoids q ps
      → s.start ≡ some q
      → run_blocks sha256 utxos fuel job h b s ≡ ok (es, s')
      → es ≡ []
  unfolding Silent
  run_blocks-before_start fuel job h b ps q s s' es fw a st run =
      Holds_at (Silent q) (run_blocks sha256 utxos fuel job h b s) (es, s')
        (run_blocks-Silent fuel job h b ps q s fw a st) run
