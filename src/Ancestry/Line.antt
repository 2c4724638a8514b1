-- ===== src/Ancestry/Line.antt =====
-- The ancestors of a block as the way back over the map.
use mathlib.Core.List.{reverse_aux}
use mathlib.Core.Path.{subst}
use bitcoin_iterate.Prelude.{
  ℕ, zero, suc, ◌≤◌, ◌<◌, ◌≡◌, refl, sym, ◌∙◌, ap, true, false, none, some, List, [], ◌∷◌, length,
  ◌==◌, All, if◌then◌else◌, Option-cases, Bool-cases, inl, inr, arith,
}
use bitcoin_iterate.Types.{Hash, Block}
use bitcoin_iterate.Utils.{is_zero}
use bitcoin_iterate.Htable.{Htable}
use bitcoin_iterate.Block.{Ptr, Store, Entry, block_eq, block_map_get}
use bitcoin_iterate.Chain.Ways.{Avoids, Distinct, Back}
use bitcoin_iterate.Chain.Heights.{Heights}
use bitcoin_iterate.Ancestry.{Ancestry}
use bitcoin_iterate.Ancestry.Owned.{Owned, Owned-get}

-- A list without a pointer.
without : Ptr → List Ptr → List Ptr
without x [] = []
without x (p ∷ ps) = if p == x then without x ps else p ∷ without x ps

without-Avoids : (x : Ptr) (ps : List Ptr) → Avoids x ps → without x ps ≡ ps
unfolding without
without-Avoids x [] a = refl
without-Avoids x (p ∷ ps) a = rw a.0 (ap (λ qs. p ∷ qs) (without-Avoids x ps a.1))

Avoids-without : (q x : Ptr) (ps : List Ptr) → Avoids q ps → Avoids q (without x ps)
unfolding without
Avoids-without q x [] a = tt
Avoids-without q x (p ∷ ps) a = elim (Bool-cases (p == x)) [
  | inl hit ↦ rw hit (Avoids-without q x ps a.1)
  | inr miss ↦ rw miss (a.0, Avoids-without q x ps a.1)
]

Distinct-without : (x : Ptr) (ps : List Ptr) → Distinct ps → Distinct (without x ps)
unfolding without
Distinct-without x [] d = tt
Distinct-without x (p ∷ ps) d = elim (Bool-cases (p == x)) [
  | inl hit ↦ rw hit (Distinct-without x ps d.1)
  | inr miss ↦ rw miss (Avoids-without p x ps d.0, Distinct-without x ps d.1)
]

length-without : (x : Ptr) (ps : List Ptr) → Distinct ps → length ps ≤ suc (length (without x ps))
unfolding without
length-without x [] d = omega arith
length-without x (p ∷ ps) d = elim (Bool-cases (p == x)) [
  | inl hit ↦
      let here : p ≡ x = ground arith in
      let same : without x ps ≡ ps = without-Avoids x ps (rw here at d.0) in
      rw (hit, same) (omega arith)
  | inr miss ↦ rw miss (omega (arith, length-without x ps d.1))
]

below_without : (n : ℕ) (ps : List Ptr) → All (λ p. p < suc n) ps → All (λ p. p < n) (without n ps)
unfolding without
below_without n [] a = tt
below_without n (p ∷ ps) a = elim (Bool-cases (p == n)) [
  | inl hit ↦ rw hit (below_without n ps a.1)
  | inr miss ↦ let under : p < suc n = a.0 in rw miss ((ground arith), below_without n ps a.1)
]

-- As many different pointers as there are numbers below `n`, at most.
pub Distinct-room : (n : ℕ) (ps : List Ptr) → Distinct ps → All (λ p. p < n) ps → length ps ≤ n
Distinct-room zero [] d a = omega arith
Distinct-room zero (p ∷ ps) d a = let under : p < 0 = a.0 in absurd (omega arith)
Distinct-room (suc n) ps d a = omega (
  arith,
  length-without n ps d,
  Distinct-room n (without n ps) (Distinct-without n ps d) (below_without n ps a),
)

module _ (blocks : Htable Hash Entry block_eq) where
  open blocks use {Table}

  -- The map finds every block by its id, and no block has the id that stands for none.
  pub record FindsAll (m : Table) (h : Store) : Type 0 where
    pub finds : (p : Ptr) (b : Block) → h p ≡ some b → block_map_get blocks m b.id ≡ some p
    pub named : (p : Ptr) (b : Block) → h p ≡ some b → is_zero b.id ≡ false

  -- The ancestors are the way back, and the heights along it, from the first block on, go up from 0;
  -- `above` is what stands above the block.
  pub Ancestry-Back :
      (m : Table) (h : Store) (p : Ptr) (n : ℕ) (above : List Ptr)
      → Owned blocks m h
      → FindsAll m h
      → Ancestry h p n
      → Heights h (suc n) above
      → (ps : List Ptr) × (root : Ptr) × (chain : List Ptr) × Back blocks m h p ps
        × (length ps ≡ n)
        × (reverse_aux (p ∷ ps) above ≡ root ∷ chain)
        × Heights h 0 (root ∷ chain)
        × ((b : Block) × (h root ≡ some b) × (is_zero b.bh.prev_hash ≡ true))
  Ancestry-Back m h _ _ above own fa (Ancestry.genesis p b e z k) hs =
      ([], p, above, (b, e, outside), refl, refl, ((b, e, k), hs), (b, e, z))
    where
      outside : block_map_get blocks m b.bh.prev_hash ≡ none
      outside = elim (Option-cases (block_map_get blocks m b.bh.prev_hash)) [
        | inl gone ↦ gone
        | inr (q, g) ↦
            let (qb, at_q, i) = Owned-get blocks m h b.bh.prev_hash q own g in
            let named : is_zero qb.id ≡ false = fa.named q qb at_q in
            let zeros : is_zero qb.id ≡ true = ap is_zero i ∙ z in absurd (ground arith)
      ]
  Ancestry-Back m h _ _ above own fa (Ancestry.child p q b qb n e e' i k anc) hs =
      let (ps, root, chain, back, long, way, heights, first) =
        Ancestry-Back m h q n (p ∷ above) own fa anc
          ((b, e, k), subst (λ j. Heights h j above) (omega arith) hs) in
      (
        q ∷ ps,
        root,
        chain,
        ((b, e, ap (block_map_get blocks m) (sym i) ∙ fa.finds q qb e'), back),
        ap suc long,
        way,
        heights,
        first,
      )
