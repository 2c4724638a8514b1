-- ===== src/Ancestry/Stuck.antt =====
-- Blocks from which the way back over blocks of unknown height leads out of the map.
use bitcoin_iterate.Prelude.{
  ℕ, ◌≡◌, sym, ◌∙◌, false, none, some, List, [], ◌∷◌, ◌==◌, Bool-cases, inl, inr, arith,
}
use bitcoin_iterate.Types.{Hash, Block}
use bitcoin_iterate.Htable.{Htable}
use bitcoin_iterate.Block.{Ptr, Store, Entry, block_eq, block_map_get}
use bitcoin_iterate.Chain.Ways.{Avoids, Climb, apart}
use bitcoin_iterate.Ancestry.Relinked.{Kept}

module _ (blocks : Htable Hash Entry block_eq) where
  open blocks use {Table}

  abbrev pub Stuck : Table → Store → Ptr → List Ptr → Type 0
  Stuck m h p [] =
      (b : Block) × (h p ≡ some b)
      × (b.height ≡ none)
      × (block_map_get blocks m b.bh.prev_hash ≡ none)
  Stuck m h p (q ∷ ps) =
      ((b : Block) × (h p ≡ some b)
        × (b.height ≡ none)
        × (block_map_get blocks m b.bh.prev_hash ≡ some q))
      × Stuck m h q ps

  pub Stuck-start :
      (m : Table) (h : Store) (p : Ptr) (ps : List Ptr)
      → Stuck m h p ps
      → (b : Block) × (h p ≡ some b) × (b.height ≡ none)
  Stuck-start m h p [] (b, e, u, g) = (b, e, u)
  Stuck-start m h p (q ∷ ps) ((b, e, u, g), s) = (b, e, u)

  pub Stuck-Kept :
      (m : Table) (h h' : Store) (p : Ptr) (ps : List Ptr)
      → Kept h h'
      → Stuck m h p ps
      → Stuck m h' p ps
  Stuck-Kept m h h' p [] k (b, e, u, g) = let (b2, e2, i, t, s) = k p b e in (b2, e2, t ∙ u, rw s g)
  Stuck-Kept m h h' p (q ∷ ps) k ((b, e, u, g), c) =
      let (b2, e2, i, t, s) = k p b e in ((b2, e2, t ∙ u, rw s g), Stuck-Kept m h h' q ps k c)

  -- A store that is the same at stuck blocks.
  pub Stuck-same :
      (m : Table) (h h' : Store) (p : Ptr) (ps : List Ptr)
      → ((x : Ptr) (xs : List Ptr) → Stuck m h x xs → h' x ≡ h x)
      → Stuck m h p ps
      → Stuck m h' p ps
  Stuck-same m h h' p [] same (b, e, u, g) = (b, same p [] (b, e, u, g) ∙ e, u, g)
  Stuck-same m h h' p (q ∷ ps) same ((b, e, u, g), s) =
      ((b, same p (q ∷ ps) ((b, e, u, g), s) ∙ e, u, g), Stuck-same m h h' q ps same s)

  pub Climb-Kept :
      (m : Table) (h h' : Store) (p : Ptr) (ps : List Ptr) (q : Ptr) (n : ℕ)
      → Kept h h'
      → Climb blocks m h p ps q n
      → Climb blocks m h' p ps q n
  Climb-Kept m h h' p [] q n k ((b, e, u, g), (qb, e', known)) =
      let (b2, e2, i, t, s) = k p b e in
      let (qb2, e2', i', t', s') = k q qb e' in ((b2, e2, t ∙ u, rw s g), (qb2, e2', t' ∙ known))
  Climb-Kept m h h' p (r ∷ ps) q n k ((b, e, u, g), c) =
      let (b2, e2, i, t, s) = k p b e in ((b2, e2, t ∙ u, rw s g), Climb-Kept m h h' r ps q n k c)

  -- No block is stuck and climbed from at once.
  Stuck-Climb :
      (m : Table) (h : Store) (p : Ptr) (xs ps : List Ptr) (q : Ptr) (n : ℕ)
      → Stuck m h p xs
      → Climb blocks m h p ps q n
      → ⊥
  Stuck-Climb m h p [] [] q n (b, e, u, g) ((b', e', u', g'), top) =
      let same : b' ≡ b = ground arith in let g2 = rw same at g' in cc
  Stuck-Climb m h p [] (r ∷ ps) q n (b, e, u, g) ((b', e', u', g'), c) =
      let same : b' ≡ b = ground arith in let g2 = rw same at g' in cc
  Stuck-Climb m h p (x ∷ xs) [] q n ((b, e, u, g), s) ((b', e', u', g'), (qb, at_q, k)) =
      let same : b' ≡ b = ground arith in
      let g2 = rw same at g' in
      let here : x ≡ q = ground arith in
      let (xb, at_x, ux) = Stuck-start m h x xs s in
      let at_q2 = rw here at at_x in
      let same2 : xb ≡ qb = ground arith in let k2 = rw (sym same2) at k in cc
  Stuck-Climb m h p (x ∷ xs) (r ∷ ps) q n ((b, e, u, g), s) ((b', e', u', g'), c) =
      let same : b' ≡ b = ground arith in
      let g2 = rw same at g' in
      let here : r ≡ x = ground arith in Stuck-Climb m h x xs ps q n s (rw here at c)

  Stuck-apart :
      (m : Table) (h : Store) (x : Ptr) (xs : List Ptr) (p : Ptr) (ps : List Ptr) (q : Ptr) (n : ℕ)
      → Stuck m h x xs
      → Climb blocks m h p ps q n
      → (p == x) ≡ false
  Stuck-apart m h x xs p ps q n s c = elim (Bool-cases (p == x)) [
    | inr miss ↦ miss
    | inl hit ↦
        let here : p ≡ x = ground arith in absurd (Stuck-Climb m h x xs ps q n s (rw here at c))
  ]

  pub Stuck-Avoids :
      (m : Table) (h : Store) (x : Ptr) (xs : List Ptr) (p : Ptr) (ps : List Ptr) (q : Ptr) (n : ℕ)
      → Stuck m h x xs
      → Climb blocks m h p ps q n
      → Avoids x (p ∷ ps)
  Stuck-Avoids m h x xs p [] q n s c = (Stuck-apart m h x xs p [] q n s c, tt)
  Stuck-Avoids m h x xs p (r ∷ ps) q n s c =
      (Stuck-apart m h x xs p (r ∷ ps) q n s c, Stuck-Avoids m h x xs r ps q n s c.1)

  -- A block of known height is not on the way of a climb.
  pub known-Avoids :
      (m : Table) (h : Store) (x : Ptr) (b : Block) (k : ℕ) (p : Ptr) (ps : List Ptr) (q : Ptr)
      (n : ℕ)
      → h x ≡ some b
      → b.height ≡ some k
      → Climb blocks m h p ps q n
      → Avoids x (p ∷ ps)
  known-Avoids m h x b k p [] q n e known ((b', e', u', g'), top) =
      (apart blocks h p x b' b k e' u' e known, tt)
  known-Avoids m h x b k p (r ∷ ps) q n e known ((b', e', u', g'), c) =
      (apart blocks h p x b' b k e' u' e known, known-Avoids m h x b k r ps q n e known c)
