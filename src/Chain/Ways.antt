-- ===== src/Chain/Ways.antt =====
-- The ways over the blocks from a block back to older ones, by the hash of the block before.
use bitcoin_iterate.Prelude.{
  ℕ, suc, ◌<◌, ◌≡◌, refl, sym, ap, false, none, some, List, [], ◌∷◌, length, ◌==◌, All, Bool-cases,
  inl, inr, arith,
}
use bitcoin_iterate.Types.{Hash, Block}
use bitcoin_iterate.Htable.{Htable}
use bitcoin_iterate.Block.{Ptr, Store, Entry, block_eq, block_map_get}

-- No pointer of the list is `p`, and no two of a list are the same.
abbrev pub Avoids : Ptr → List Ptr → Type 0
Avoids p ps = All (λ q. (q == p) ≡ false) ps

abbrev pub Distinct : List Ptr → Type 0
Distinct [] = Unit {0}
Distinct (p ∷ ps) = Avoids p ps × Distinct ps

pub ==_flip : (p q : ℕ) → (p == q) ≡ false → (q == p) ≡ false
==_flip p q e = ground arith

-- A way that can be told from its first block: `Way p ps` goes from `p` over `ps`, what is behind a
-- place of it is a way too, and all ways from a block are as long.
pub record IsWay (Way : Ptr → List Ptr → Type 0) : Type 0 where
  pub rest : (p q : Ptr) (ps : List Ptr) → Way p (q ∷ ps) → Way q ps
  pub same_length : (p : Ptr) (ps qs : List Ptr) → Way p ps → Way p qs → length ps ≡ length qs

module _ (Way : Ptr → List Ptr → Type 0) (is : IsWay Way) where
  shorter :
      (x p : Ptr) (ps qs : List Ptr)
      → Way x qs
      → Way p ps
      → length ps < length qs
      → (p == x) ≡ false
  shorter x p ps qs wx wp short = elim (Bool-cases (p == x)) [
    | inl hit ↦
        let same : p ≡ x = ground arith in
        let even : length ps ≡ length qs = is.same_length x ps qs (rw same at wp) wx in
        absurd (omega arith)
    | inr miss ↦ miss
  ]

  -- A block from which the way is longer is not on the way from `p`.
  far :
      (x p : Ptr) (ps qs : List Ptr)
      → Way x qs
      → Way p ps
      → length ps < length qs
      → Avoids x (p ∷ ps)
  far x p [] qs wx wp short = (shorter x p [] qs wx wp short, tt)
  far x p (q ∷ ps) qs wx wp short =
      (shorter x p (q ∷ ps) qs wx wp short, far x q ps qs wx (is.rest p q ps wp) (omega arith))

  pub IsWay-Distinct : (p : Ptr) (ps : List Ptr) → Way p ps → Distinct (p ∷ ps)
  IsWay-Distinct p [] w = (tt, tt)
  IsWay-Distinct p (q ∷ ps) w = (
    far p q ps (q ∷ ps) w (is.rest p q ps w) (omega arith),
    IsWay-Distinct q ps (is.rest p q ps w),
  )

module _ (blocks : Htable Hash Entry block_eq) where
  open blocks use {Table}

  -- The way back from a block: each pointer of the list is that of the block before, by its hash,
  -- and the block before the last is not in the map.
  abbrev pub Back : Table → Store → Ptr → List Ptr → Type 0
  Back m h p [] = (b : Block) × (h p ≡ some b) × (block_map_get blocks m b.bh.prev_hash ≡ none)
  Back m h p (q ∷ ps) =
      ((b : Block) × (h p ≡ some b) × (block_map_get blocks m b.bh.prev_hash ≡ some q))
      × Back m h q ps

  -- The way back from `p` over `ps` to `q`: the heights of `p` and of `ps` are not known, and that of
  -- `q` is `n`.
  abbrev pub Climb : Table → Store → Ptr → List Ptr → (q : Ptr) → (n : ℕ) → Type 0
  Climb m h p [] q n =
      ((b : Block) × (h p ≡ some b)
        × (b.height ≡ none)
        × (block_map_get blocks m b.bh.prev_hash ≡ some q))
      × ((b : Block) × (h q ≡ some b) × (b.height ≡ some n))
  Climb m h p (r ∷ ps) q n =
      ((b : Block) × (h p ≡ some b)
        × (b.height ≡ none)
        × (block_map_get blocks m b.bh.prev_hash ≡ some r))
      × Climb m h r ps q n

  Back-IsWay : (m : Table) (h : Store) → IsWay (Back m h)
  Back-IsWay m h = record { rest = λ p q ps w. w.1; same_length = same_length }
    where
      same_length :
          (p : Ptr) (ps qs : List Ptr) → Back m h p ps → Back m h p qs → length ps ≡ length qs
      same_length p [] [] w w' = refl
      same_length p [] (q ∷ qs) (b, e, u) ((b', e', u'), w') =
          let same : b' ≡ b = ground arith in let u2 = rw same at u' in cc
      same_length p (q ∷ ps) [] ((b, e, u), w) (b', e', u') =
          let same : b' ≡ b = ground arith in let u2 = rw same at u' in cc
      same_length p (q ∷ ps) (r ∷ qs) ((b, e, u), w) ((b', e', u'), w') =
          let same : b' ≡ b = ground arith in
          let u2 = rw same at u' in
          let next : q ≡ r = ground arith in ap suc (same_length q ps qs w (rw (sym next) at w'))

  pub Back-Distinct :
      (m : Table) (h : Store) (p : Ptr) (ps : List Ptr) → Back m h p ps → Distinct (p ∷ ps)
  Back-Distinct m h = IsWay-Distinct (Back m h) (Back-IsWay m h)

  -- The block at the start of a climb has no known height.
  pub Climb-start :
      (m : Table) (h : Store) (p : Ptr) (ps : List Ptr) (q : Ptr) (n : ℕ)
      → Climb m h p ps q n
      → (b : Block) × (h p ≡ some b) × (b.height ≡ none)
  Climb-start m h p [] q n ((b, e, u, g), c) = (b, e, u)
  Climb-start m h p (r ∷ ps) q n ((b, e, u, g), c) = (b, e, u)

  pub Climb-top :
      (m : Table) (h : Store) (p : Ptr) (ps : List Ptr) (q : Ptr) (n : ℕ)
      → Climb m h p ps q n
      → (b : Block) × (h q ≡ some b) × (b.height ≡ some n)
  Climb-top m h p [] q n (step, top) = top
  Climb-top m h p (r ∷ ps) q n (step, c) = Climb-top m h r ps q n c

  -- Only a block of unknown height is climbed from.
  pub apart :
      (h : Store) (p q : Ptr) (b qb : Block) (n : ℕ)
      → h p ≡ some b
      → b.height ≡ none
      → h q ≡ some qb
      → qb.height ≡ some n
      → (p == q) ≡ false
  apart h p q b qb n e u e' k = elim (Bool-cases (p == q)) [
    | inl hit ↦
        let at : p ≡ q = ground arith in
        let same : qb ≡ b = ground arith in let k2 = rw same at k in cc
    | inr miss ↦ miss
  ]

  Climb-apart :
      (m : Table) (h : Store) (p : Ptr) (ps : List Ptr) (q : Ptr) (n : ℕ)
      → Climb m h p ps q n
      → (p == q) ≡ false
  Climb-apart m h p ps q n w =
      let (b, e, u) = Climb-start m h p ps q n w in
      let (qb, e', k) = Climb-top m h p ps q n w in apart h p q b qb n e u e' k

  Climb-IsWay : (m : Table) (h : Store) (q : Ptr) (n : ℕ) → IsWay (λ p ps. Climb m h p ps q n)
  Climb-IsWay m h q n = record { rest = λ p r ps w. w.1; same_length = same_length }
    where
      same_length :
          (p : Ptr) (ps qs : List Ptr)
          → Climb m h p ps q n
          → Climb m h p qs q n
          → length ps ≡ length qs
      same_length p [] [] w w' = refl
      same_length p [] (r ∷ qs) ((b, e, u, g), top) ((b', e', u', g'), w') =
          let same : b' ≡ b = ground arith in
          let g2 = rw same at g' in
          let at_top : r ≡ q = ground arith in
          let other = Climb-apart m h r qs q n w' in absurd (ground arith)
      same_length p (r ∷ ps) [] ((b, e, u, g), w) ((b', e', u', g'), top) =
          let same : b' ≡ b = ground arith in
          let g2 = rw same at g' in
          let at_top : r ≡ q = ground arith in
          let other = Climb-apart m h r ps q n w in absurd (ground arith)
      same_length p (r ∷ ps) (x ∷ qs) ((b, e, u, g), w) ((b', e', u', g'), w') =
          let same : b' ≡ b = ground arith in
          let g2 = rw same at g' in
          let next : r ≡ x = ground arith in ap suc (same_length r ps qs w (rw (sym next) at w'))

  pub Climb-Distinct :
      (m : Table) (h : Store) (p : Ptr) (ps : List Ptr) (q : Ptr) (n : ℕ)
      → Climb m h p ps q n
      → Distinct (q ∷ p ∷ ps)
  Climb-Distinct m h p ps q n c =
      (top p ps c, IsWay-Distinct (λ p ps. Climb m h p ps q n) (Climb-IsWay m h q n) p ps c)
    where
      top : (p : Ptr) (ps : List Ptr) → Climb m h p ps q n → Avoids q (p ∷ ps)
      top p [] w = (Climb-apart m h p [] q n w, tt)
      top p (r ∷ ps) w = (Climb-apart m h p (r ∷ ps) q n w, top r ps w.1)
