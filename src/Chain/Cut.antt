-- ===== src/Chain/Cut.antt =====
-- The chain behind `set_iteration_end`, cut off at the end of the run.
use bitcoin_iterate.Prelude.{
  ℕ, zero, suc, ◌≤◌, ◌<◌, ◌≡◌, refl, ◌∙◌, Option, none, some, List, [], ◌∷◌, length, get_elem?,
  get_elem?-exists, take, ok, arith,
}
use bitcoin_iterate.Types.{Block}
use bitcoin_iterate.Chain.Ways.{Avoids, Distinct}
use bitcoin_iterate.Block.{Ptr, Store}
use bitcoin_iterate.Chain.{set_iteration_end}
use bitcoin_iterate.Chain.Links.{Forward}
use bitcoin_iterate.Chain.Heights.{Heights}
use bitcoin_iterate.Chain.Ends.{block_of, set_iteration_end-take, Ended}

-- Up to the block of the last height, if one is given.
abbrev pub up_to : (block_end : Option ℕ) → List Ptr → List Ptr
up_to none ps = ps
up_to (some n) ps = take (suc n) ps

pub length-take : (i : ℕ) (ps : List Ptr) → length (take i ps) ≤ length ps
length-take zero ps = omega arith
length-take (suc i) [] = omega arith
length-take (suc i) (p ∷ ps) = omega (arith, length-take i ps)

Distinct-take : (i : ℕ) (ps : List Ptr) → Distinct ps → Distinct (take i ps)
Distinct-take zero ps d = tt
Distinct-take (suc i) [] d = tt
Distinct-take (suc i) (p ∷ ps) d = (avoids i ps d.0, Distinct-take i ps d.1)
  where
    avoids : (i : ℕ) (ps : List Ptr) → Avoids p ps → Avoids p (take i ps)
    avoids zero ps a = tt
    avoids (suc i) [] a = tt
    avoids (suc i) (q ∷ ps) a = (a.0, avoids i ps a.1)

get_elem?-take : (i : ℕ) (ps : List Ptr) → get_elem? (take (suc i) ps) i ≡ get_elem? ps i
get_elem?-take i [] = refl
get_elem?-take zero (p ∷ ps) = refl
get_elem?-take (suc i) (p ∷ ps) = get_elem?-take i ps

-- The end of the run is on the chain, or none is asked for.
abbrev pub EndsIn : (block_end : Option ℕ) → List Ptr → Type 0
EndsIn none ps = Unit {0}
EndsIn (some n) ps = n < length ps

-- The store behind `set_iteration_end`: the chain goes from the first block over `rest` to its end.
pub record IsCut (h : Store) (best genesis : Ptr) (rest : List Ptr) : Type 0 where
  pub has_best : (b : Block) × (h best ≡ some b)
  pub forward : Forward h (some genesis) (genesis ∷ rest)
  pub heights : Heights h 0 (genesis ∷ rest)
  pub distinct : Distinct (genesis ∷ rest)

pub set_iteration_end-IsCut :
    (fuel : ℕ) (h : Store) (block_end : Option ℕ) (best genesis : Ptr) (ps : List Ptr)
    → IsCut h best genesis ps
    → EndsIn block_end (genesis ∷ ps)
    → length ps < fuel
    → (last : Ptr) × (h' : Store) × (rest : List Ptr) × (set_iteration_end fuel h block_end best
          genesis
        ≡ ok (last, h'))
      × (genesis ∷ rest ≡ up_to block_end (genesis ∷ ps))
      × (length rest ≤ length ps)
      × IsCut h' last genesis rest
unfolding set_iteration_end
set_iteration_end-IsCut fuel h none best genesis ps c e enough =
    (best, h, ps, refl, refl, omega arith, c)
set_iteration_end-IsCut fuel h (some n) best genesis ps c e enough =
    let (last, at_end) = get_elem?-exists (genesis ∷ ps) n e in
    let (h', run, fw, hs) : Ended h genesis (take (suc n) (genesis ∷ ps)) (some last)
        (set_iteration_end fuel h (some n) best genesis) =
      rw at_end at
        (set_iteration_end-take fuel h n best genesis ps c.forward c.heights c.distinct enough) in
    (
      last,
      h',
      take n ps,
      run,
      refl,
      length-take n ps,
      record {
        has_best =
            block_of h' (some genesis) (genesis ∷ take n ps) n last fw
              (get_elem?-take n (genesis ∷ ps) ∙ at_end);
        forward = fw;
        heights = hs;
        distinct = Distinct-take (suc n) (genesis ∷ ps) c.distinct;
      },
    )
