-- ===== src/Ancestry.antt =====
-- What the heights of the blocks in a store mean: a block of height `n` has `n` ancestors.
pub mod Relinked
pub mod Owned
pub mod Ascent
pub mod Stuck
pub mod Found
pub mod Added
pub mod Read
pub mod Settled
pub mod Best
pub mod Line
use bitcoin_iterate.Prelude.{
  ℕ, zero, suc, ◌≤◌, ◌≡◌, refl, ◌∙◌, true, false, Option, none, some, ◌==◌, ◌⊎◌, inl, inr,
  Bool-cases, arith,
}
use bitcoin_iterate.Types.{Block}
use bitcoin_iterate.Utils.{is_zero}
use bitcoin_iterate.Block.{Ptr, Store, write}
use bitcoin_iterate.Chain.Links.{write-same, write-other}

-- From the block at a pointer, whose height is the number, by the hash of the block before, down to a
-- block that has none before.
pub data Ancestry (h : Store) : Ptr → ℕ → Type 0 where
  genesis :
      (p : Ptr) (b : Block)
      → h p ≡ some b
      → is_zero b.bh.prev_hash ≡ true
      → b.height ≡ some 0
      → Ancestry h p zero
  child :
      (p q : Ptr) (b qb : Block) (n : ℕ)
      → h p ≡ some b
      → h q ≡ some qb
      → qb.id ≡ b.bh.prev_hash
      → b.height ≡ some (suc n)
      → Ancestry h q n
      → Ancestry h p (suc n)

-- A block of a known height: one that has none before, or the one before is in the store, and its
-- height is less by one.
abbrev pub Parented : Store → Block → Type 0
Parented h b =
    ((is_zero b.bh.prev_hash ≡ true) × (b.height ≡ some 0))
    ⊎ ((q : Ptr) × (qb : Block) × (n : ℕ) × (h q ≡ some qb)
        × (qb.id ≡ b.bh.prev_hash)
        × (qb.height ≡ some n)
        × (b.height ≡ some (suc n)))

-- Every block of a known height has its parent, and nothing is behind the pointer that is the next one
-- to be allocated.
pub record IsRooted (h : Store) (fresh : Ptr) : Type 0 where
  pub parented : (p : Ptr) (b : Block) (n : ℕ) → h p ≡ some b → b.height ≡ some n → Parented h b
  pub unused : (p : Ptr) → fresh ≤ p → h p ≡ none

pub IsRooted-Ancestry :
    (n : ℕ) (h : Store) (fresh : Ptr) (p : Ptr) (b : Block)
    → IsRooted h fresh
    → h p ≡ some b
    → b.height ≡ some n
    → Ancestry h p n
IsRooted-Ancestry zero h fresh p b is e k = elim (is.parented p b 0 e k) [
  | inl (z, k0) ↦ Ancestry.genesis p b e z k0
  | inr (q, qb, m, e', parent, k', k2) ↦ absurd (ground arith)
]
IsRooted-Ancestry (suc n) h fresh p b is e k = elim (is.parented p b (suc n) e k) [
  | inl (z, k0) ↦ absurd (ground arith)
  | inr (q, qb, m, e', parent, k', k2) ↦
      let same : m ≡ n = ground arith in
      Ancestry.child p q b qb n e e' parent k
        (IsRooted-Ancestry n h fresh q qb is e' (rw same at k'))
]
