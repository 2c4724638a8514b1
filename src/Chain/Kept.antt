-- ===== src/Chain/Kept.antt =====
-- Changes of the store that keep the heights of the blocks.
use bitcoin_iterate.Prelude.{
  ℕ, ◌+◌, ◌<◌, ◌≡◌, refl, ◌∙◌, ap, Option, none, some, List, [], ◌∷◌, length, ◌==◌, ok, Bool-cases,
  inl, inr, arith,
}
use bitcoin_iterate.Types.{Hash, Block}
use bitcoin_iterate.Htable.{Htable}
use bitcoin_iterate.Chain.Ways.{Avoids, Back}
use bitcoin_iterate.Block.{Ptr, Store, Entry, block_eq, write}
use bitcoin_iterate.Chain.{link_blocks}
use bitcoin_iterate.Chain.Links.{Linked, write-same, write-other, link_blocks-others}
use bitcoin_iterate.Chain.Heights.{Heights}

-- Every block has the height that it had.
abbrev pub SameHeights : (old new : Store) → Type 0
SameHeights old new =
    (r : Ptr) (b : Block)
    → old r ≡ some b
    → (b' : Block) × (new r ≡ some b') × (b'.height ≡ b.height)

pub SameHeights-Heights :
    (old new : Store) (n : ℕ) (ps : List Ptr)
    → SameHeights old new
    → Heights old n ps
    → Heights new n ps
SameHeights-Heights old new n [] same hs = tt
SameHeights-Heights old new n (p ∷ ps) same ((b, at_p, known), hs) =
    let (b', at_p', e) = same p b at_p in
    ((b', at_p', e ∙ known), SameHeights-Heights old new (n + 1) ps same hs)

pub SameHeights-write :
    (h : Store) (p : Ptr) (b : Block) (next : Option Ptr)
    → h p ≡ some b
    → SameHeights h (write h p (record b { next = next }))
SameHeights-write h p b next at_p r rb at_r = elim (Bool-cases (r == p)) [
  | inl here ↦
      let at_here : r ≡ p = ground arith in
      let same : b ≡ rb = ground arith in
      (record b { next = next }, rw at_here (write-same h p _), ap (λ x. x.height) same)
  | inr other ↦ (rb, write-other h p r _ other ∙ at_r, refl)
]

Linked-height :
    (h h' : Store) (qs : List Ptr) (next : Option Ptr) (r : Ptr) (b : Block)
    → Linked h h' qs next
    → h r ≡ some b
    → (Avoids r qs → h' r ≡ h r)
    → (b' : Block) × (h' r ≡ some b') × (b'.height ≡ b.height)
Linked-height h h' [] next r b l at_r frame = (b, frame tt ∙ at_r, refl)
Linked-height h h' (q ∷ qs) next r b ((qb, at_q, now), l) at_r frame = elim (Bool-cases (q == r)) [
  | inl here ↦
      let at_here : q ≡ r = ground arith in
      let same : qb ≡ b = ground arith in
      (record qb { next = next }, rw at_here at now, ap (λ x. x.height) same)
  | inr other ↦ Linked-height h h' qs (some q) r b l at_r (λ a. frame (other, a))
]

module _ (blocks : Htable Hash Entry block_eq) where
  open blocks use {Table}

  -- The links change no height.
  pub link_blocks-SameHeights :
      (fuel : ℕ) (m : Table) (h h' : Store) (best : Ptr) (ps : List Ptr)
      → Back blocks m h best ps
      → length ps < fuel
      → Linked h h' (best ∷ ps) none
      → link_blocks blocks fuel m h best ≡ ok h'
      → SameHeights h h'
  link_blocks-SameHeights fuel m h h' best ps back enough l run r b at_r =
      Linked-height h h' (best ∷ ps) none r b l at_r
        (λ a. link_blocks-others blocks fuel m h h' best ps r back enough a run)
