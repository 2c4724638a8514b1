-- ===== src/Ancestry/Best.antt =====
-- The choice of the best block.
use mathlib.Core.Path.{subst}
use bitcoin_iterate.Prelude.{
  ℕ, ◌≤◌, ◌≡◌, sym, ◌∙◌, ap, Bool, true, false, some, List, [], ◌∷◌, ltb, All, if◌then◌else◌, ok,
  fault, Holds, Holds-ok, Holds-err, Holds-then, Holds-mono, Holds_at, Option-cases, Bool-cases,
  ◌⊎◌, inl, inr, arith,
}
use bitcoin_iterate.Types.{Hash}
use bitcoin_iterate.Htable.{Htable}
use bitcoin_iterate.Block.{Ptr, Store, Entry, block_eq, load, set_height}
use bitcoin_iterate.Chain.{higher, set_heights_and_best, set_heights_and_best_from}
use bitcoin_iterate.Ancestry.Stuck.{Stuck, Stuck-start}
use bitcoin_iterate.Ancestry.Found.{set_height_missing}
use bitcoin_iterate.Ancestry.Settled.{HasHeight, Keeps, Settles, set_height-Settles}

module _ (blocks : Htable Hash Entry block_eq) (m : blocks.Table) where
  -- A height that is no more than `top`, or that cannot be known.
  abbrev Below : Store → (top : ℕ) → Entry → Type 0
  Below h top e =
      ((n : ℕ) × HasHeight h e.ptr n × (n ≤ top)) ⊎ ((ps : List Ptr) × Stuck blocks m h e.ptr ps)

  All-Below :
      (h h' : Store) (top top' : ℕ) (es : List Entry)
      → Keeps blocks m h h'
      → top ≤ top'
      → All (Below h top) es
      → All (Below h' top') es
  All-Below h h' top top' [] k le a = tt
  All-Below h h' top top' (e ∷ es) k le (inl (n, has, under), a) =
      (inl (n, k.known e.ptr n has, omega arith), All-Below h h' top top' es k le a)
  All-Below h h' top top' (e ∷ es) k le (inr (ps, s), a) =
      (inr (ps, k.stuck e.ptr ps s), All-Below h h' top top' es k le a)

  Best : (done es : List Entry) → Ptr × Store → Type 0
  Best done es r =
      (top : ℕ) × HasHeight r.1 r.0 top × All (Below r.1 top) done × All (Below r.1 top) es

  set_heights_and_best_from-Best :
      (fuel : ℕ) (h : Store) (best : Ptr) (top : ℕ) (done es : List Entry)
      → HasHeight h best top
      → All (Below h top) done
      → Holds (Best done es) (set_heights_and_best_from blocks fuel m h best es)
  unfolding set_heights_and_best_from Best load
  set_heights_and_best_from-Best fuel h best top done [] has under =
      Holds-ok (Best done []) (best, h) (top, has, under, tt)
  set_heights_and_best_from-Best fuel h best top done (e ∷ es) has under =
      elim (Option-cases (h e.ptr)) [
        | inl gone ↦ rw (set_height_missing blocks fuel m h e.ptr gone) (Holds-err P fault)
        | inr (blk, at) ↦
            Holds-then (Settles blocks m h e.ptr) P (set_height blocks fuel m h e.ptr) _
              (set_height-Settles blocks m fuel h e.ptr blk at)
              (λ r s.
                let (bb, at_best, kb) = s.0.known best top has in
                elim s.1 [
                  | inl (n, (b, at_b, known)) ↦
                      let compared : higher b.height bb.height ≡ ltb top n =
                        ap (λ o. higher o bb.height) known ∙ ap (λ o. higher (some n) o) kb in
                      rw (load, at_b, at_best)
                        (elim (Bool-cases (ltb top n)) [
                          | inl more ↦
                              chosen r.1 (higher b.height bb.height) true (compared ∙ more) (
                                Holds-mono (Best (e ∷ done) es) P _ moved (
                                  set_heights_and_best_from-Best fuel r.1 e.ptr n (e ∷ done) es
                                    (b, at_b, known)
                                    (
                                      inl (n, (b, at_b, known), omega arith),
                                      All-Below h r.1 top n done s.0 (ground arith) under,
                                    )))
                          | inr less ↦
                              chosen r.1 (higher b.height bb.height) false (compared ∙ less) (
                                Holds-mono (Best (e ∷ done) es) P _ moved (
                                  set_heights_and_best_from-Best fuel r.1 best top (e ∷ done) es
                                    (bb, at_best, kb)
                                    (
                                      inl (n, (b, at_b, known), ground arith),
                                      All-Below h r.1 top top done s.0 (omega arith) under,
                                    )))
                        ])
                  | inr (ps, stuck) ↦
                      let (b, at_b, unknown) = Stuck-start blocks m r.1 e.ptr ps stuck in
                      rw (load, at_b, at_best)
                        (chosen r.1 (higher b.height bb.height) false
                          (ap (λ o. higher o bb.height) unknown)
                          (Holds-mono (Best (e ∷ done) es) P _ moved (
                            set_heights_and_best_from-Best fuel r.1 best top (e ∷ done) es
                              (bb, at_best, kb)
                              (
                                inr (ps, stuck),
                                All-Below h r.1 top top done s.0 (omega arith) under,
                              ))))
                ])
      ]
    where
      P : Ptr × Store → Type 0
      P = Best done (e ∷ es)

      moved : (r : Ptr × Store) → Best (e ∷ done) es r → P r
      moved r (top', has', (first, others), rest) = (top', has', others, (first, rest))

      chosen :
          (h1 : Store) (t t' : Bool)
          → t ≡ t'
          → Holds P (set_heights_and_best_from blocks fuel m h1 (if t' then e.ptr else best) es)
          → Holds P (set_heights_and_best_from blocks fuel m h1 (if t then e.ptr else best) es)
      chosen h1 t t' same =
          subst
            (λ x.
              Holds P (set_heights_and_best_from blocks fuel m h1 (if x then e.ptr else best) es))
            (sym same)

  no_more :
      (h : Store) (top : ℕ) (es : List Entry)
      → All (Below h top) es
      → All (λ e. (n : ℕ) → HasHeight h e.ptr n → n ≤ top) es
  no_more h top [] a = tt
  no_more h top (e ∷ es) (inl (k, (b, at, known), under), a) = (
    λ n has.
        let (b', at', known') = has in
        let same : b' ≡ b = ground arith in
        let known2 = rw same at known' in let even : k ≡ n = ground arith in omega arith,
    no_more h top es a,
  )
  no_more h top (e ∷ es) (inr (ps, s), a) = (
    λ n has.
        let (b', at', known') = has in
        let (b, at, unknown) = Stuck-start blocks m h e.ptr ps s in
        let same : b' ≡ b = ground arith in let known2 = rw same at known' in absurd cc,
    no_more h top es a,
  )

  -- From a block of known height, the block that `set_heights_and_best` takes for the best one has a
  -- known height when all is done, and no block in the map has a greater one.
  pub set_heights_and_best_highest :
      (fuel : ℕ) (h h' : Store) (best best' : Ptr) (n : ℕ)
      → HasHeight h best n
      → set_heights_and_best blocks fuel m h best ≡ ok (best', h')
      → (top : ℕ) × HasHeight h' best' top
        × All (λ e. (k : ℕ) → HasHeight h' e.ptr k → k ≤ top) (blocks.elements m)
  unfolding set_heights_and_best Best
  set_heights_and_best_highest fuel h h' best best' n has run =
      let (top, has', none_done, all) : Best [] (blocks.elements m) (best', h') =
        Holds_at (Best [] (blocks.elements m)) (set_heights_and_best blocks fuel m h best)
          (best', h') (set_heights_and_best_from-Best fuel h best n [] (blocks.elements m) has tt)
          run in
      (top, has', no_more h' top (blocks.elements m) all)
