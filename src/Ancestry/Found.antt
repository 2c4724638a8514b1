-- ===== src/Ancestry/Found.antt =====
-- What the way back of `set_height` finds, and what the whole of it leaves.
use bitcoin_iterate.Prelude.{
  ℕ, zero, suc, ◌<◌, ◌≡◌, refl, sym, ◌∙◌, ap, Bool, true, false, Option, none, some, List, [], ◌∷◌,
  reverse, length, ok, err, ◌>>=◌, fault, out_of_fuel, Holds, Holds-ok, Holds-err, Holds-then,
  Holds-mono, Holds_at, Result-cases, Option-cases, inl, inr, arith,
}
use bitcoin_iterate.Types.{Hash, Block}
use bitcoin_iterate.Htable.{Htable}
use bitcoin_iterate.Block.{
  Ptr, Store, Entry, block_eq, block_map_get, write, load, walk_back, set_forward, set_height,
}
use bitcoin_iterate.Chain.Ways.{Distinct, Climb, Climb-Distinct, Climb-start, ==_flip}
use bitcoin_iterate.Chain.Links.{Forward, Linked, Linked-Forward, oldest, write-same, write-other}
use bitcoin_iterate.Chain.Climb.{walk_prev, walk_back_step, walk_back-Linked}
use bitcoin_iterate.Chain.Heights.{after_walk, set_height_lem, Linked-write, Distinct-reverse}
use bitcoin_iterate.Ancestry.{IsRooted}
use bitcoin_iterate.Ancestry.Relinked.{
  Kept, Kept-Named, Named-refl, Named-trans, IsRelinked, IsRelinked-refl, IsRelinked-trans,
  write-IsRelinked, IsRelinked-IsRooted,
}
use bitcoin_iterate.Ancestry.Stuck.{Stuck, Stuck-Kept, Climb-Kept}
use bitcoin_iterate.Ancestry.Owned.{Owned}
use bitcoin_iterate.Ancestry.Ascent.{Ascent-Kept, Climb-Ascent, Stays, set_forward-Stays}

module _ (blocks : Htable Hash Entry block_eq) where
  open blocks use {Table}

  -- A block that is found was climbed to, in fewer steps than `fuel`; where none is, the block is stuck.
  abbrev pub Climbed : ℕ → Table → Store → Ptr → Option Ptr → Type 0
  Climbed fuel m h p none = (ps : List Ptr) × Stuck blocks m h p ps
  Climbed fuel m h p (some q) =
      (ps : List Ptr) × (n : ℕ) × Climb blocks m h p ps q n × (length ps < fuel)

  abbrev pub Finds : ℕ → Table → Store → Ptr → Option Ptr × Store → Type 0
  Finds fuel m h p r = IsRelinked h r.1 × Climbed fuel m h p r.0

  walk_back_lem :
      (fuel : ℕ) (m : Table) (h : Store) (p : Ptr) (b : Block)
      → h p ≡ some b
      → walk_back blocks (suc fuel) m h p
        ≡ walk_prev blocks fuel m h p (block_map_get blocks m b.bh.prev_hash)
  unfolding walk_back load
  walk_back_lem fuel m h p b e = rw (load, e) refl

  pub walk_back-Finds :
      (fuel : ℕ) (m : Table) (h : Store) (p : Ptr) (b : Block)
      → h p ≡ some b
      → b.height ≡ none
      → Holds (Finds fuel m h p) (walk_back blocks fuel m h p)
  unfolding walk_back load
  walk_back-Finds zero m h p b e u = Holds-err (Finds zero m h p) out_of_fuel
  walk_back-Finds (suc fuel) m h p b e u =
      elim (Option-cases (block_map_get blocks m b.bh.prev_hash)) [
        | inl missing ↦
            rw (walk_back_lem fuel m h p b e, missing)
              (Holds-ok P (none, h) (IsRelinked-refl h, ([], (b, e, u, missing))))
        | inr (r, g) ↦ elim (Option-cases (h r)) [
          | inl missing ↦
              rw (walk_back_lem fuel m h p b e, g) (rw (load, missing) (Holds-err P fault))
          | inr (rb, at_r) ↦
              let h1 = write h r (record rb { next = some p }) in
              let l : IsRelinked h h1 = write-IsRelinked h r rb (some p) at_r in
              elim (Option-cases rb.height) [
                | inl unknown ↦ rw (walk_back_step blocks fuel m h p r b rb none e g at_r unknown) (
                    Holds-mono (Finds fuel m h1 r) P (walk_back blocks fuel m h1 r)
                      (λ f found.
                        (IsRelinked-trans h h1 f.1 l found.0, lower h1 r l.from f.0 g found.1))
                      (walk_back-Finds fuel m h1 r (record rb { next = some p })
                        (write-same h r (record rb { next = some p })) unknown))
                | inr (n, known) ↦
                    rw (walk_back_step blocks fuel m h p r b rb (some n) e g at_r known) (
                      Holds-ok P (some r, h1)
                        (l, ([], n, ((b, e, u, g), (rb, at_r, known)), omega arith)))
              ]
        ]
      ]
    where
      P : Option Ptr × Store → Type 0
      P = Finds (suc fuel) m h p

      lower :
          (h1 : Store) (r : Ptr)
          → Kept h1 h
          → (o : Option Ptr) → block_map_get blocks m b.bh.prev_hash ≡ some r
          → Climbed fuel m h1 r o
          → Climbed (suc fuel) m h p o
      lower h1 r k none g (ps, stuck) =
          (r ∷ ps, ((b, e, u, g), Stuck-Kept blocks m h1 h r ps k stuck))
      lower h1 r k (some q) g (ps, n, c, short) =
          (r ∷ ps, n, ((b, e, u, g), Climb-Kept blocks m h1 h r ps q n k c), omega arith)

  abbrev pub Left : Store → (fresh : Ptr) → Bool × Store → Type 0
  Left h fresh r = Stays h fresh r.1

  -- The way back that was climbed: what is left is the forward loop, over a chain that leads from the
  -- block of known height to where the climb began.
  pub climbed :
      (fuel : ℕ) (m : Table) (h : Store) (b : Ptr) (ps : List Ptr) (q : Ptr) (n : ℕ)
      → Climb blocks m h b ps q n
      → length ps < fuel
      → (h2 : Store) × (qb : Block) × ((walk_back blocks fuel m h b >>= after_walk blocks fuel b)
          ≡ (set_forward fuel h2 q (some (oldest b ps)) >>= λ h3. ok (true, h3)))
        × IsRelinked h h2
        × (h2 q ≡ some qb)
        × (qb.height ≡ some n)
        × Forward h2 (some (oldest b ps)) (reverse (b ∷ ps))
        × Distinct (reverse (b ∷ ps))
  unfolding load
  climbed fuel m h b ps q n c short =
      let (blk, at_b, unknown) = Climb-start blocks m h b ps q n c in
      let d = Climb-Distinct blocks m h b ps q n c in
      let (h1, qb, run, linked, at_q, k, frame) =
        walk_back-Linked blocks fuel m h b ps q n c d short in
      let l : IsRelinked h h1 =
        (Holds_at (Finds fuel m h b) (walk_back blocks fuel m h b) (some q, h1)
          (walk_back-Finds fuel m h b blk at_b unknown) run).0 in
      let b' = record blk { next = none } in
      let q' = record qb { next = some (oldest b ps) } in
      let h2 = write h1 b b' in
      let b_stays : h1 b ≡ some blk = frame b (==_flip b q d.0.0, d.1.0) ∙ at_b in
      let q_stays : h2 q ≡ some q' = write-other h1 b q b' (==_flip b q d.0.0) ∙ at_q in
      let links : Linked h h2 (b ∷ ps) none =
        ((blk, at_b, write-same h1 b b'), Linked-write h h1 b b' ps (some b) d.1.0 linked) in
      (
        h2,
        q',
        rw run (rw (load, b_stays, q_stays) refl),
        IsRelinked-trans h h1 h2 l (write-IsRelinked h1 b blk none b_stays),
        q_stays,
        k,
        Linked-Forward h h2 b ps none [] links refl,
        Distinct-reverse (b ∷ ps) d.1,
      )

  climbed-Left :
      (fuel : ℕ) (m : Table) (h : Store) (fresh b : Ptr) (ps : List Ptr) (q : Ptr) (n : ℕ)
      → Climb blocks m h b ps q n
      → length ps < fuel
      → Owned blocks m h
      → IsRooted h fresh
      → Holds (Left h fresh) (walk_back blocks fuel m h b >>= after_walk blocks fuel b)
  climbed-Left fuel m h fresh b ps q n c short own is =
      let (h2, qb, run, l, at_q, k, fw, d) = climbed fuel m h b ps q n c short in
      let (q0, at_q0, k0, up) = Climb-Ascent blocks m h b ps q n [] own c (λ x e. tt) in
      let (q2, at_q2, id2, k2, s2) = l.to q q0 at_q0 in
      let same : q2 ≡ qb = ground arith in
      rw run (
        Holds-then (Stays h2 fresh) (Left h fresh) (set_forward fuel h2 q (some (oldest b ps)))
          (λ h3. ok (true, h3))
          (set_forward-Stays fuel h2 fresh q qb n (some (oldest b ps)) (reverse (b ∷ ps)) at_q k fw
            (Ascent-Kept h h2 q0.id qb.id (reverse (b ∷ ps)) l.to (ap (λ y. y.id) (sym same) ∙ id2)
              up)
            d (IsRelinked-IsRooted h h2 fresh l is))
          (λ h3 s.
            Holds-ok (Left h fresh) (true, h3)
              (s.0, Named-trans h h2 h3 (Kept-Named h h2 l.to) s.1)))

  pub set_height-Stays :
      (fuel : ℕ) (m : Table) (h : Store) (fresh b : Ptr) (blk : Block)
      → h b ≡ some blk
      → Owned blocks m h
      → IsRooted h fresh
      → Holds (Left h fresh) (set_height blocks fuel m h b)
  set_height-Stays fuel m h fresh b blk at_b own is = elim (Option-cases blk.height) [
    | inr (n, known) ↦
        rw (set_height_lem blocks fuel m h b blk (some n) at_b known)
          (Holds-ok (Left h fresh) (true, h) (is, Named-refl h))
    | inl unknown ↦
        rw (set_height_lem blocks fuel m h b blk none at_b unknown)
          (elim (Result-cases (walk_back blocks fuel m h b)) [
            | inl (stop, e) ↦ rw e (Holds-err (Left h fresh) stop)
            | inr ((o, h1), e) ↦
                let (l, found) : Finds fuel m h b (o, h1) =
                  Holds_at (Finds fuel m h b) (walk_back blocks fuel m h b) (o, h1)
                    (walk_back-Finds fuel m h b blk at_b unknown) e in
                ended o h1 e l found
          ])
  ]
    where
      ended :
          (o : Option Ptr) (h1 : Store)
          → walk_back blocks fuel m h b ≡ ok (o, h1)
          → IsRelinked h h1
          → Climbed fuel m h b o
          → Holds (Left h fresh) (walk_back blocks fuel m h b >>= after_walk blocks fuel b)
      ended none h1 e l found = rw e (
          Holds-ok (Left h fresh) (false, h1)
            (IsRelinked-IsRooted h h1 fresh l is, Kept-Named h h1 l.to))
      ended (some q) h1 e l (ps, n, c, short) = climbed-Left fuel m h fresh b ps q n c short own is

  pub set_height_missing :
      (fuel : ℕ) (m : Table) (h : Store) (p : Ptr)
      → h p ≡ none
      → set_height blocks fuel m h p ≡ err fault
  unfolding set_height load
  set_height_missing fuel m h p gone = rw (load, gone) refl
