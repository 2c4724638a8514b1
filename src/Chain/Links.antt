-- ===== src/Chain/Links.antt =====
-- The links that `link_blocks` sets.
use mathlib.Core.List.{reverse_aux}
use bitcoin_iterate.Prelude.{
  ℕ, zero, suc, ◌<◌, ◌≡◌, refl, ◌∙◌, sym, ap, false, Option, none, some, List, [], ◌∷◌, reverse,
  length, ◌==◌, All, ok, arith,
}
use bitcoin_iterate.Types.{Hash, Block}
use bitcoin_iterate.Htable.{Htable}
use bitcoin_iterate.Chain.Ways.{Avoids, Distinct, ==_flip, Back, Back-Distinct}
use bitcoin_iterate.Block.{Ptr, Store, Entry, block_eq, block_map_get, load, write}
use bitcoin_iterate.Chain.{link_blocks_from, link_blocks}

pub write-same : (h : Store) (p : Ptr) (b : Block) → write h p b p ≡ some b
unfolding write
write-same h p b = ground arith

pub write-other : (h : Store) (p q : Ptr) (b : Block) → (q == p) ≡ false → write h p b q ≡ h q
unfolding write
write-other h p q b e = rw e

-- `ps` links up in `h`: the block of each pointer is as it was in `old`, but its `next` is the
-- pointer in front of it in the list, and that of the first is `next`.
abbrev pub Linked : (old h : Store) → List Ptr → (next : Option Ptr) → Type 0
Linked old h [] next = Unit {0}
Linked old h (p ∷ ps) next =
    ((b : Block) × (old p ≡ some b) × (h p ≡ some (record b { next = next })))
    × Linked old h ps (some p)

pub Linked-old :
    (old old' h : Store) (ps : List Ptr) (next : Option Ptr)
    → All (λ q. old' q ≡ old q) ps
    → Linked old' h ps next
    → Linked old h ps next
Linked-old old old' h [] next same l = tt
Linked-old old old' h (p ∷ ps) next same ((b, e, e'), l) =
    ((b, sym same.0 ∙ e, e'), Linked-old old old' h ps (some p) same.1 l)

-- From `o` along `next`: the blocks of `ps`, to the end.
abbrev pub Forward : Store → Option Ptr → List Ptr → Type 0
Forward h o [] = o ≡ none
Forward h o (p ∷ ps) = (o ≡ some p) × ((b : Block) × (h p ≡ some b) × Forward h b.next ps)

abbrev pub oldest : Ptr → List Ptr → Ptr
oldest p [] = p
oldest p (q ∷ ps) = oldest q ps

pub Linked-Forward :
    (old h : Store) (p : Ptr) (ps : List Ptr) (next : Option Ptr) (qs : List Ptr)
    → Linked old h (p ∷ ps) next
    → Forward h next qs
    → Forward h (some (oldest p ps)) (reverse_aux (p ∷ ps) qs)
Linked-Forward old h p [] next qs ((b, e, e'), l) fw = (refl, (record b { next = next }, e', fw))
Linked-Forward old h p (r ∷ ps) next qs ((b, e, e'), l) fw =
    Linked-Forward old h r ps (some p) (p ∷ qs) l (refl, (record b { next = next }, e', fw))

pub write-Avoids :
    (h : Store) (p : Ptr) (b : Block) (ps : List Ptr)
    → Avoids p ps
    → All (λ q. write h p b q ≡ h q) ps
write-Avoids h p b [] a = tt
write-Avoids h p b (q ∷ ps) a = (write-other h p q b a.0, write-Avoids h p b ps a.1)

module _ (blocks : Htable Hash Entry block_eq) where
  open blocks use {Table}

  Back-write :
      (m : Table) (h : Store) (p q : Ptr) (x : Block) (ps : List Ptr)
      → Avoids p (q ∷ ps)
      → Back blocks m h q ps
      → Back blocks m (write h p x) q ps
  Back-write m h p q x [] a (b, e, e') = (b, write-other h p q x a.0 ∙ e, e')
  Back-write m h p q x (r ∷ ps) a ((b, e, e'), back) =
      ((b, write-other h p q x a.0 ∙ e, e'), Back-write m h p r x ps a.1 back)

  link_blocks_from-none :
      (fuel : ℕ) (m : Table) (h : Store) (next : Option Ptr)
      → link_blocks_from blocks fuel m h none next ≡ ok h
  unfolding link_blocks_from
  link_blocks_from-none zero m h next = refl
  link_blocks_from-none (suc fuel) m h next = refl

  link_step :
      (n : ℕ) (m : Table) (h : Store) (p : Ptr) (next : Option Ptr) (b : Block)
      → h p ≡ some b
      → (o : Option Ptr) → block_map_get blocks m b.bh.prev_hash ≡ o
      → link_blocks_from blocks (suc n) m h (some p) next
        ≡ link_blocks_from blocks n m (write h p (record b { next = next })) o (some p)
  unfolding link_blocks_from load
  link_step n m h p next b e o e' =
      rw (load, e)
        (ap (λ o. link_blocks_from blocks n m (write h p (record b { next = next })) o (some p)) e')

  link_blocks_from-Linked :
      (fuel : ℕ) (m : Table) (h : Store) (p : Ptr) (ps : List Ptr) (next : Option Ptr)
      → Back blocks m h p ps
      → Distinct (p ∷ ps)
      → length ps < fuel
      → (h' : Store) × (link_blocks_from blocks fuel m h (some p) next ≡ ok h')
        × Linked h h' (p ∷ ps) next
        × ((q : Ptr) → Avoids q (p ∷ ps) → h' q ≡ h q)
  unfolding link_blocks_from load
  link_blocks_from-Linked zero m h p ps next back d fuel = absurd (omega arith)
  link_blocks_from-Linked (suc n) m h p [] next (b, e, e') d fuel = (
    write h p (record b { next = next }),
    link_step n m h p next b e none e'
        ∙ (link_blocks_from-none n m (write h p (record b { next = next })) (some p)),
    ((b, e, write-same h p _), tt),
    λ q a. write-other h p q _ (==_flip p q a.0),
  )
  link_blocks_from-Linked (suc n) m h p (q ∷ ps) next ((b, e, e'), back) d fuel =
      let b' = record b { next = next } in
      let h1 = write h p b' in
      let (h', run, linked, frame) =
        link_blocks_from-Linked n m h1 q ps (some p) (Back-write m h p q b' ps d.0 back) d.1
          (omega arith) in
      (
        h',
        link_step n m h p next b e (some q) e' ∙ run,
        (
          (b, e, frame p d.0 ∙ write-same h p b'),
          Linked-old h h1 h' (q ∷ ps) (some p) (write-Avoids h p b' (q ∷ ps) d.0) linked,
        ),
        λ r a. frame r a.1 ∙ write-other h p r b' (==_flip p r a.0),
      )

  -- From the best block back, every block gets as `next` the block that was before it on the way, and
  -- the best none; nothing but `next` of the blocks of the way is changed, and every other block stays
  -- as it is. From the last block of the way, `next` then leads over all blocks of the way to the best
  -- one, and ends there. There are as many rounds as the way has blocks.
  pub link_blocks-Forward :
      (fuel : ℕ) (m : Table) (h : Store) (best : Ptr) (ps : List Ptr)
      → Back blocks m h best ps
      → length ps < fuel
      → (h' : Store) × (link_blocks blocks fuel m h best ≡ ok h')
        × Linked h h' (best ∷ ps) none
        × ((q : Ptr) → Avoids q (best ∷ ps) → h' q ≡ h q)
        × Forward h' (some (oldest best ps)) (reverse (best ∷ ps))
  unfolding link_blocks
  link_blocks-Forward fuel m h best ps back enough =
      let (h', run, linked, frame) =
        link_blocks_from-Linked fuel m h best ps none back (Back-Distinct blocks m h best ps back)
          enough in
      (h', run, linked, frame, Linked-Forward h h' best ps none [] linked refl)

  -- A block that is not on the way back from the best one stays as it is.
  pub link_blocks-others :
      (fuel : ℕ) (m : Table) (h h' : Store) (best : Ptr) (ps : List Ptr) (q : Ptr)
      → Back blocks m h best ps
      → length ps < fuel
      → Avoids q (best ∷ ps)
      → link_blocks blocks fuel m h best ≡ ok h'
      → h' q ≡ h q
  unfolding link_blocks
  link_blocks-others fuel m h h' best ps q back enough a run =
      let (h2, run2, linked, frame) =
        link_blocks_from-Linked fuel m h best ps none back (Back-Distinct blocks m h best ps back)
          enough in
      let same : h' ≡ h2 = cc in rw same (frame q a)
