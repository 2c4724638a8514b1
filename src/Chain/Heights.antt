-- ===== src/Chain/Heights.antt =====
-- The heights that `set_height` sets.
use mathlib.Core.List.{reverse_aux}
use bitcoin_iterate.Prelude.{
  ℕ, zero, suc, ◌+◌, ◌≤◌, ◌<◌, ◌≡◌, refl, ◌∙◌, ap, Bool, true, false, Option, none, some, List, [],
  ◌∷◌, reverse, length, length-reverse_aux, All, Result, ok, ◌>>=◌, arith,
}
use bitcoin_iterate.Types.{Hash, Block}
use bitcoin_iterate.Htable.{Htable}
use bitcoin_iterate.Chain.Ways.{Avoids, Distinct, ==_flip, Climb, Climb-start, Climb-Distinct}
use bitcoin_iterate.Block.{
  Ptr, Store, Entry, block_eq, load, write, walk_back, set_forward, set_height,
}
use bitcoin_iterate.Chain.Links.{Linked, Forward, oldest, Linked-Forward, write-same, write-other}
use bitcoin_iterate.Chain.Climb.{walk_back-Linked}

-- The heights from `n` on.
abbrev pub Heights : Store → ℕ → List Ptr → Type 0
Heights h n [] = Unit {0}
Heights h n (p ∷ ps) = ((b : Block) × (h p ≡ some b) × (b.height ≡ some n)) × Heights h (n + 1) ps

-- A change at `p` is not seen along a list that avoids `p`.
pub Forward-write :
    (h : Store) (p : Ptr) (x : Block) (o : Option Ptr) (ps : List Ptr)
    → Avoids p ps
    → Forward h o ps
    → Forward (write h p x) o ps
Forward-write h p x o [] a fw = fw
Forward-write h p x o (q ∷ ps) a (e, (b, at_q, fw)) =
    (e, (b, write-other h p q x a.0 ∙ at_q, Forward-write h p x b.next ps a.1 fw))

pub Linked-write :
    (old h : Store) (p : Ptr) (x : Block) (ps : List Ptr) (next : Option Ptr)
    → Avoids p ps
    → Linked old h ps next
    → Linked old (write h p x) ps next
Linked-write old h p x [] next a l = tt
Linked-write old h p x (q ∷ ps) next a ((b, e, e'), l) =
    ((b, e, write-other h p q x a.0 ∙ e'), Linked-write old h p x ps (some q) a.1 l)

pub set_forward_step :
    (fuel : ℕ) (h : Store) (prev q : Ptr) (pb b : Block) (n : ℕ)
    → h q ≡ some b
    → h prev ≡ some pb
    → pb.height ≡ some n
    → set_forward (suc fuel) h prev (some q)
      ≡ set_forward fuel (write h q (record b { height = some (n + 1) })) q b.next
unfolding set_forward load
set_forward_step fuel h prev q pb b n at_q at_prev known =
    rw (load, at_q, at_prev)
      (ap
        (λ o.
          set_forward fuel
            (write h q (record b { height = elim o [ none ↦ some 0 | some k ↦ some (k + 1) ] })) q
            b.next)
        known)

pub set_forward_end : (fuel : ℕ) (h : Store) (prev : Ptr) → set_forward fuel h prev none ≡ ok h
unfolding set_forward
set_forward_end zero h prev = refl
set_forward_end (suc fuel) h prev = refl

-- The forward loop: from a block with the height `n`, the blocks behind it get the next heights.
pub set_forward-Heights :
    (fuel : ℕ) (h : Store) (prev : Ptr) (pb : Block) (n : ℕ) (o : Option Ptr) (ps : List Ptr)
    → h prev ≡ some pb
    → pb.height ≡ some n
    → Forward h o ps
    → Distinct ps
    → length ps ≤ fuel
    → (h' : Store) × (set_forward fuel h prev o ≡ ok h')
      × Heights h' (n + 1) ps
      × ((r : Ptr) → Avoids r ps → h' r ≡ h r)
unfolding set_forward load
set_forward-Heights fuel h prev pb n o [] at_prev known fw d enough =
    (h, rw fw (set_forward_end fuel h prev), tt, λ r a. refl)
set_forward-Heights zero h prev pb n o (q ∷ ps) at_prev known fw d enough = absurd (omega arith)
set_forward-Heights (suc fuel) h prev pb n o (q ∷ ps) at_prev known (e, (b, at_q, fw)) d enough =
    let b' = record b { height = some (n + 1) } in
    let h1 = write h q b' in
    let (h', run, heights, frame) =
      set_forward-Heights fuel h1 q b' (n + 1) b.next ps (write-same h q b') refl
        (Forward-write h q b' b.next ps d.0 fw) d.1 (omega arith) in
    (
      h',
      rw e (set_forward_step fuel h prev q pb b n at_q at_prev known ∙ run),
      ((b', frame q d.0 ∙ write-same h q b', refl), heights),
      λ r a. frame r a.1 ∙ write-other h q r b' (==_flip q r a.0),
    )

Distinct-reverse_aux :
    (ps qs : List Ptr)
    → Distinct ps
    → Distinct qs
    → All (λ x. Avoids x qs) ps
    → Distinct (reverse_aux ps qs)
Distinct-reverse_aux [] qs d d' apart = d'
Distinct-reverse_aux (p ∷ ps) qs d d' apart =
    Distinct-reverse_aux ps (p ∷ qs) d.1 (apart.0, d') (also ps d.0 apart.1)
  where
    also :
        (xs : List Ptr) → Avoids p xs → All (λ x. Avoids x qs) xs → All (λ x. Avoids x (p ∷ qs)) xs
    also [] a b = tt
    also (x ∷ xs) a b = ((==_flip x p a.0, b.0), also xs a.1 b.1)

pub Distinct-reverse : (ps : List Ptr) → Distinct ps → Distinct (reverse ps)
Distinct-reverse ps d = Distinct-reverse_aux ps [] d tt (apart ps)
  where
    apart : (xs : List Ptr) → All (λ x. Avoids x []) xs
    apart [] = tt
    apart (x ∷ xs) = (tt, apart xs)

module _ (blocks : Htable Hash Entry block_eq) where
  open blocks use {Table}

  -- What `set_height` does with the end of the way back, and what with a height.
  abbrev pub after_walk : ℕ → Ptr → Option Ptr × Store → Result (Bool × Store)
  after_walk fuel b r = elim r.0 [
    | none ↦ ok (false, r.1)
    | some prev ↦ load r.1 b >>= λ blk.
        load (write r.1 b (record blk { next = none })) prev >>= λ p.
        set_forward fuel (write r.1 b (record blk { next = none })) prev p.next >>= λ h.
        ok (true, h)
  ]

  abbrev pub at_height : ℕ → Table → Store → Ptr → Option ℕ → Result (Bool × Store)
  at_height fuel m h b none = walk_back blocks fuel m h b >>= after_walk fuel b
  at_height fuel m h b (some n) = ok (true, h)

  pub set_height_lem :
      (fuel : ℕ) (m : Table) (h : Store) (b : Ptr) (blk : Block) (height : Option ℕ)
      → h b ≡ some blk
      → blk.height ≡ height
      → set_height blocks fuel m h b ≡ at_height fuel m h b height
  unfolding set_height load
  set_height_lem fuel m h b blk height at_b e = rw (load, at_b) (ap (at_height fuel m h b) e)

  -- `set_height` on a block of unknown height, from which the way back over blocks of unknown height
  -- leads to one of height `n`, gives the heights from `n` + 1 on to the blocks of the way, in the
  -- order of the chain, and succeeds. One round more than there are blocks in between is enough.
  pub set_height-Heights :
      (fuel : ℕ) (m : Table) (h : Store) (b : Ptr) (ps : List Ptr) (q : Ptr) (n : ℕ)
      → Climb blocks m h b ps q n
      → length ps < fuel
      → (h' : Store) × (set_height blocks fuel m h b ≡ ok (true, h'))
        × Heights h' (n + 1) (reverse (b ∷ ps))
  unfolding load
  set_height-Heights fuel m h b ps q n c enough =
      let d = Climb-Distinct blocks m h b ps q n c in
      let (blk, at_b, unknown) = Climb-start blocks m h b ps q n c in
      let (h1, qb, run, linked, at_q, k, frame) =
        walk_back-Linked blocks fuel m h b ps q n c d (omega arith) in
      let b' = record blk { next = none } in
      let q' = record qb { next = some (oldest b ps) } in
      let h2 = write h1 b b' in
      let b_stays : h1 b ≡ some blk = frame b (==_flip b q d.0.0, d.1.0) ∙ at_b in
      let q_stays : h2 q ≡ some q' = write-other h1 b q b' (==_flip b q d.0.0) ∙ at_q in
      let links : Linked h h2 (b ∷ ps) none =
        ((blk, at_b, write-same h1 b b'), Linked-write h h1 b b' ps (some b) d.1.0 linked) in
      let (h3, run', heights, others) =
        set_forward-Heights fuel h2 q q' n (some (oldest b ps)) (reverse (b ∷ ps)) q_stays k
          (Linked-Forward h h2 b ps none [] links refl) (Distinct-reverse (b ∷ ps) d.1)
          (omega (arith, length-reverse_aux ps (b ∷ []))) in
      (
        h3,
        set_height_lem fuel m h b blk none at_b unknown
            ∙ rw run (rw (load, b_stays, q_stays, run')),
        heights,
      )
