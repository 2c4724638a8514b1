-- ===== src/Iterate/Round.antt =====
-- What one round of the main loop reports.
use mathlib.Core.Path.{subst}
use bitcoin_iterate.Prelude.{
  ℕ, ◌+◌, ◌≡◌, refl, ◌∙◌, not, ◌&&◌, Option, none, some, List, [], ◌∷◌, ◌++◌, ◌==◌, if◌then◌else◌,
  guard, fault, ◌/◌, ◌%◌, ◌-◌, ◌^◌, append-nil, Holds, Holds-then, Holds->>=, Holds-ok, Bool-cases,
  Option-cases, inl, inr,
}
use bitcoin_iterate.Types.{Hash, Block, Utxo}
use bitcoin_iterate.Space.{space_init, space_alloc_arr}
use bitcoin_iterate.Htable.{Htable}
use bitcoin_iterate.Block.{Ptr}
use bitcoin_iterate.Utxo.{OutPoint, utxohash_eq, unsigned_height}
use bitcoin_iterate.Iterate.{
  Event, Job, State, utxo_events, sizeof_transaction, pass_start, block_events, progress,
  read_block, end_block, run_block, reads,
}
use bitcoin_iterate.Iterate.Calls.{
  blocks_of, blocks_of-append, BeforeStart, BeforeStart-append, append_blocks, if_blocks,
  utxo_events-blocks, Inside, run_transactions-Inside, Holds-if,
}

module _ (sha256 : List ℕ → Hash) (utxos : Htable OutPoint Utxo utxohash_eq) where
  open utxos use {Table}

  read_block-Inside :
      (job : Job) (p : Ptr) (b : Block) (s : State sha256 utxos)
      → Holds (Inside sha256 utxos s) (read_block sha256 utxos job p b s)
  unfolding read_block
  read_block-Inside job p b s =
      Holds->>= (Inside sha256 utxos s)
        (space_alloc_arr space_init sizeof_transaction b.bh.transaction_count) _
        (λ r. run_transactions-Inside sha256 utxos job p b r.0 0 b.bh.transaction_count r.1 b.pos s)

  -- What `pass_start` leaves as the start.
  abbrev pub passed : Option Ptr → Ptr → Option Ptr
  passed none p = none
  passed (some q) p = if p == q then none else some q

  pass_start-Inside :
      (job : Job) (p : Ptr) (b : Block) (s : State sha256 utxos) (o : Option Ptr)
      → s.start ≡ o
      → let r = pass_start sha256 utxos job p b s in
        ((r.1).start ≡ passed o p) × (blocks_of r.0 ≡ []) × BeforeStart (r.1).start r.0
  unfolding pass_start
  pass_start-Inside job p b s none e = rw e (refl, refl, tt)
  pass_start-Inside job p b s (some q) e = elim (Bool-cases (p == q)) [
    | inl same ↦
        rw (e, same)
          (
            refl,
            if_blocks sha256 utxos (job.cachedir && (job.needs_utxo && s.needs_fee))
                (Event.write_utxo_cache s.utxo_map b.id ∷ []) refl,
            tt,
          )
    | inr other ↦ rw (e, other) (refl, refl, refl)
  ]

  Quiet : Option Ptr → List (Event Table) → Type 0
  Quiet o es = (blocks_of es ≡ []) × BeforeStart o es

  progress-Quiet :
      (job : Job) (b : Block) (s : State sha256 utxos)
      → Holds (Quiet s.start) (progress sha256 utxos job b s)
  unfolding progress Quiet
  progress-Quiet job b s = elim (Option-cases s.start) [
    | inr (q, e) ↦ rw e (Holds-ok (Quiet (some q)) [] (refl, refl))
    | inl e ↦ elim (Bool-cases (job.progress_marks == 0)) [
      | inl z ↦ rw (e, z) (Holds-ok (Quiet none) [] (refl, tt))
      | inr z ↦
          rw (e, z)
            (Holds->>= (Quiet none) (guard (not (job.best_height / job.progress_marks == 0)) fault)
              _
              (λ _. Holds-ok (Quiet none) _ (
                if_blocks sha256 utxos
                    (unsigned_height b.height % (job.best_height / job.progress_marks)
                      == job.best_height / job.progress_marks - 1)
                    (Event.dot ∷ []) refl,
                tt,
              )))
    ]
  ]

  end_block-Inside :
      (job : Job) (p : Ptr) (s : State sha256 utxos)
      → Holds (Inside sha256 utxos s) (end_block sha256 utxos job p s)
  unfolding end_block
  end_block-Inside job p s = elim (Option-cases s.start) [
    | inr (q, e) ↦ rw e (
        Holds-ok (Inside sha256 utxos (record s { start = some q }))
          ([], record s { start = some q }) (refl, refl, refl))
    | inl e ↦
        let s0 = record s { start = none } in
        let iterated = (s.blocks_iterated + 1) % 2 ^ 32 in
        elim (Bool-cases job.fns.utxofn) [
          | inr f ↦
              rw (e, f)
                (Holds-ok (Inside sha256 utxos s0) ([], record s0 { blocks_iterated = iterated })
                  (refl, refl, tt))
          | inl f ↦
              rw (e, f)
                (Holds->>= (Inside sha256 utxos s0) (guard (not (job.utxo_period == 0)) fault) _
                  (λ _.
                    Holds-ok (Inside sha256 utxos s0)
                      (
                        if iterated % job.utxo_period == 0
                            then utxo_events sha256 utxos s.utxo_map p s.last_utxo_block
                                (utxos.elements s.utxo_map)
                            else [],
                        record s0 { blocks_iterated = iterated; last_utxo_block = some p },
                      )
                      (
                        refl,
                        if_blocks sha256 utxos (iterated % job.utxo_period == 0)
                            (utxo_events sha256 utxos s.utxo_map p s.last_utxo_block
                              (utxos.elements s.utxo_map))
                            (utxo_events-blocks sha256 utxos s.utxo_map p s.last_utxo_block
                              (utxos.elements s.utxo_map)),
                        tt,
                      )))
        ]
  ]

  -- The block function is called once for the block, where the start is passed.
  abbrev pub shown : Job → Ptr → Option Ptr → List Ptr
  shown job p o = elim o [ none ↦ if job.fns.blockfn then p ∷ [] else [] | some q ↦ [] ]

  abbrev pub Reports :
      Job → Ptr → State sha256 utxos → List (Event Table) × State sha256 utxos → Type 0
  Reports job p s (es, s') =
      (s'.start ≡ passed s.start p)
      × (blocks_of es ≡ shown job p (passed s.start p))
      × BeforeStart (passed s.start p) es

  block_events-shown :
      (job : Job) (p : Ptr) (s : State sha256 utxos) (o : Option Ptr)
      → s.start ≡ o
      → (blocks_of (block_events sha256 utxos job p s) ≡ shown job p o)
        × BeforeStart o (block_events sha256 utxos job p s)
  unfolding block_events
  block_events-shown job p s none e = elim (Bool-cases job.fns.blockfn) [
    | inl f ↦ rw (e, f) (refl, tt)
    | inr f ↦ rw (e, f) (refl, tt)
  ]
  block_events-shown job p s (some q) e = rw e (refl, refl)

  append_quiet :
      (es es' : List (Event Table)) (bs : List Ptr)
      → blocks_of es ≡ bs
      → blocks_of es' ≡ []
      → blocks_of (es ++ es') ≡ bs
  append_quiet es es' bs e e' = blocks_of-append es es' ∙ rw (e, e') (append-nil bs)

  quiet_append :
      (es es' : List (Event Table)) (bs : List Ptr)
      → blocks_of es ≡ []
      → blocks_of es' ≡ bs
      → blocks_of (es ++ es') ≡ bs
  quiet_append es es' bs e e' = blocks_of-append es es' ∙ rw (e, e')

  pub run_block-Reports :
      (job : Job) (p : Ptr) (b : Block) (s : State sha256 utxos)
      → Holds (Reports job p s) (run_block sha256 utxos job p b s)
  unfolding run_block Quiet
  run_block-Reports job p b s =
      let o = passed s.start p in
      let saved = pass_start sha256 utxos job p b s in
      let s1 = saved.1 in
      let (start, none_saved, before_saved) = pass_start-Inside job p b s s.start refl in
      let (here, before_here) = block_events-shown job p s1 o start in
      Holds-then (Quiet s1.start) (Reports job p s) (progress sha256 utxos job b s1) _
        (progress-Quiet job b s1)
        (λ dots quiet.
          let hd = block_events sha256 utxos job p s1 ++ dots in
          let front = saved.0 ++ hd in
          let shows : blocks_of front ≡ shown job p o =
            quiet_append saved.0 hd (shown job p o) none_saved (
              append_quiet (block_events sha256 utxos job p s1) dots (shown job p o) here
                quiet.0) in
          let before : BeforeStart o front =
            BeforeStart-append o saved.0 hd (subst (λ x. BeforeStart x saved.0) start before_saved)
              (BeforeStart-append o (block_events sha256 utxos job p s1) dots before_here
                (subst (λ x. BeforeStart x dots) start quiet.1)) in
          Holds-if (Reports job p s) (reads sha256 utxos job s1) _ _
            (Holds-then (Inside sha256 utxos s1) (Reports job p s)
              (read_block sha256 utxos job p b s1) _ (read_block-Inside job p b s1)
              (λ r inside.
                Holds-then (Inside sha256 utxos r.1) (Reports job p s)
                  (end_block sha256 utxos job p r.1) _ (end_block-Inside job p r.1)
                  (λ r2 behind.
                    let e : (r2.1).start ≡ o = behind.0 ∙ (inside.0 ∙ start) in
                    Holds-ok (Reports job p s) (front ++ (r.0 ++ r2.0), r2.1)
                      (
                        e,
                        append_quiet front (r.0 ++ r2.0) (shown job p o) shows
                            (append_blocks sha256 utxos r.0 r2.0 inside.1 behind.1),
                        BeforeStart-append o front (r.0 ++ r2.0) before (
                            BeforeStart-append o r.0 r2.0
                              (subst (λ x. BeforeStart x r.0) start inside.2)
                              (subst (λ x. BeforeStart x r2.0) (inside.0 ∙ start) behind.2)),
                      ))))
            (Holds-ok (Reports job p s) (front, s1) (start, shows, before)))
