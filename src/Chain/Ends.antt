-- ===== src/Chain/Ends.antt =====
-- The blocks where the run begins and ends: `set_iteration_start` and `set_iteration_end` of iterate.c.
use bitcoin_iterate.Prelude.{
  ℕ, zero, suc, ◌+◌, ◌<◌, ◌≡◌, Option-cases, inl, inr, refl, ◌∙◌, ap, Bool, true, false, Option,
  none, some, List, [], ◌∷◌, length, get_elem?, take, ◌==◌, Result, ok, err, ◌>>=◌, or_fail,
  no_block_end, no_block_start, if◌then◌else◌, arith,
}
use bitcoin_iterate.Types.{Block}
use bitcoin_iterate.Chain.Ways.{Avoids, Distinct, ==_flip}
use bitcoin_iterate.Block.{Ptr, Store, load, write}
use bitcoin_iterate.Chain.{find_height, has_height, set_iteration_end, set_iteration_start}
use bitcoin_iterate.Chain.Links.{Forward, write-same, write-other}
use bitcoin_iterate.Chain.Heights.{Heights}
use bitcoin_iterate.Chain.Kept.{SameHeights-write, SameHeights-Heights}

-- What the loop does with the answer of its test.
go_on : ℕ → Store → Ptr → (n : ℕ) → Option Ptr → Bool → Result (Option Ptr)
go_on fuel h b n next true = ok (some b)
go_on fuel h b n none false = ok none
go_on fuel h b n (some next) false = find_height fuel h next n

find_height_step :
    (fuel : ℕ) (h : Store) (p : Ptr) (n : ℕ) (b : Block) (k : ℕ) (next : Option Ptr) (hit : Bool)
    → h p ≡ some b
    → b.height ≡ some k
    → b.next ≡ next
    → (n == k) ≡ hit
    → find_height (suc fuel) h p n ≡ go_on fuel h p n next hit
unfolding find_height load go_on
find_height_step fuel h p n b k next hit at_p known e test =
    rw (load, at_p)
      (ap (λ o. searched o b.next) known
        ∙ ap (λ t. go_on fuel h p n b.next t) test
        ∙ ap (λ o. go_on fuel h p n o hit) e)
  where
    searched : Option ℕ → Option Ptr → Result (Option Ptr)
    searched o next = elim (has_height o n) [
      | true ↦ ok (some p)
      | false ↦ elim next [ none ↦ ok none | some q ↦ find_height fuel h q n ]
    ]

-- From a block with the height `k` along a chain of consecutive heights, the search for the height
-- `k + i` finds the `i`-th block, or the end.
find_height-get_elem? :
    (fuel : ℕ) (h : Store) (p : Ptr) (ps : List Ptr) (k i : ℕ)
    → Forward h (some p) (p ∷ ps)
    → Heights h k (p ∷ ps)
    → length ps < fuel
    → find_height fuel h p (k + i) ≡ ok (get_elem? (p ∷ ps) i)
unfolding go_on
find_height-get_elem? zero h p ps k i fw hs enough = absurd (omega arith)
find_height-get_elem? (suc fuel) h p ps k zero (e, (b, at_p, fw)) ((b', at_p', known), hs) enough =
    let same : b' ≡ b = ground arith in
    find_height_step fuel h p (k + 0) b k b.next true at_p (rw same at known) refl (ground arith)
find_height-get_elem? (suc fuel) h p [] k (suc i) (e, (b, at_p, fw)) ((b', at_p', known), hs)
      enough =
    let same : b' ≡ b = ground arith in
    find_height_step fuel h p (k + suc i) b k none false at_p (rw same at known) fw (ground arith)
find_height-get_elem? (suc fuel) h p (q ∷ ps) k (suc i) (e, (b, at_p, fw)) ((b', at_p', known), hs)
      enough =
    let same : b' ≡ b = ground arith in
    find_height_step fuel h p (k + suc i) b k (some q) false at_p (rw same at known) fw.0
      (ground arith)
    ∙ (ap (λ j. find_height fuel h q j) (omega arith)
        ∙ find_height-get_elem? fuel h q ps (k + 1) i (refl, fw.1) hs (omega arith))

pub Avoids-get_elem? :
    (q p : Ptr) (ps : List Ptr) (i : ℕ) → Avoids q ps → get_elem? ps i ≡ some p → (q == p) ≡ false
Avoids-get_elem? q p [] i a at_i = cc
Avoids-get_elem? q p (r ∷ ps) zero a at_i =
    let same : r ≡ p = ground arith in ==_flip p q (rw same at a.0)
Avoids-get_elem? q p (r ∷ ps) (suc i) a at_i = Avoids-get_elem? q p ps i a.1 at_i

-- The way along `next` that is cut off at a block of it.
Forward-take :
    (h : Store) (o : Option Ptr) (ps : List Ptr) (i : ℕ) (p : Ptr) (b : Block)
    → Forward h o ps
    → Distinct ps
    → get_elem? ps i ≡ some p
    → h p ≡ some b
    → Forward (write h p (record b { next = none })) o (take (suc i) ps)
Forward-take h o [] i p b fw d at_i at_p = cc
Forward-take h o (q ∷ ps) zero p b (e, (b', at_q, fw)) d at_i at_p =
    let same : q ≡ p = ground arith in
    (e, (record b { next = none }, rw same (write-same h p _), refl))
Forward-take h o (q ∷ ps) (suc i) p b (e, (b', at_q, fw)) d at_i at_p = (
  e,
  (
    b',
    write-other h p q _ (Avoids-get_elem? q p ps i d.0 at_i) ∙ at_q,
    Forward-take h b'.next ps i p b fw d.1 at_i at_p,
  ),
)

pub block_of :
    (h : Store) (o : Option Ptr) (ps : List Ptr) (i : ℕ) (p : Ptr)
    → Forward h o ps
    → get_elem? ps i ≡ some p
    → (b : Block) × (h p ≡ some b)
block_of h o [] i p fw at_i = cc
block_of h o (q ∷ ps) zero p (e, (b, at_q, fw)) at_i =
    (b, let same : q ≡ p = ground arith in rw same at at_q)
block_of h o (q ∷ ps) (suc i) p (e, (b, at_q, fw)) at_i = block_of h b.next ps i p fw at_i

Heights-take : (h : Store) (n i : ℕ) (ps : List Ptr) → Heights h n ps → Heights h n (take i ps)
Heights-take h n zero ps hs = tt
Heights-take h n (suc i) [] hs = tt
Heights-take h n (suc i) (p ∷ ps) (at_p, hs) = (at_p, Heights-take h (n + 1) i ps hs)

-- What the end of the run is where `at_end` is the block of the height: the block, and the chain is
-- cut off at it; or the message that there is none.
abbrev pub Ended :
    Store → (genesis : Ptr) → List Ptr → (at_end : Option Ptr) → Result (Ptr × Store) → Type 0
Ended h genesis ps none r = r ≡ err no_block_end
Ended h genesis ps (some b) r =
    (h' : Store) × (r ≡ ok (b, h')) × Forward h' (some genesis) ps × Heights h' 0 ps

pub set_iteration_end-take :
    (fuel : ℕ) (h : Store) (block_end : ℕ) (best genesis : Ptr) (ps : List Ptr)
    → Forward h (some genesis) (genesis ∷ ps)
    → Heights h 0 (genesis ∷ ps)
    → Distinct (genesis ∷ ps)
    → length ps < fuel
    → Ended h genesis
        (take (suc block_end) (genesis ∷ ps))
        (get_elem? (genesis ∷ ps) block_end)
        (set_iteration_end fuel h (some block_end) best genesis)
unfolding set_iteration_end load
set_iteration_end-take fuel h block_end best genesis ps fw hs d enough =
    let found : find_height fuel h genesis block_end ≡ ok (get_elem? (genesis ∷ ps) block_end) =
      ap (λ j. find_height fuel h genesis j) (omega arith)
      ∙ find_height-get_elem? fuel h genesis ps 0 block_end fw hs enough in
    elim (Option-cases (get_elem? (genesis ∷ ps) block_end)) [
      | inl missing ↦ rw (found, missing) refl
      | inr (p, there) ↦
          let (b, at_p) = block_of h (some genesis) (genesis ∷ ps) block_end p fw there in
          rw (found, there)
            let h' = write h p (record b { next = none }) in
              (
                h',
                rw at_p refl,
                Forward-take h (some genesis) (genesis ∷ ps) block_end p b fw d there at_p,
                SameHeights-Heights h h' 0 (take (suc block_end) (genesis ∷ ps))
                    (SameHeights-write h p b none at_p)
                    (Heights-take h 0 (suc block_end) (genesis ∷ ps) hs),
              )
    ]

-- The first block of the run, where `at_start` is the block of the height.
pub set_iteration_start-get_elem? :
    (fuel : ℕ) (h : Store) (block_start : ℕ) (start : Option Ptr) (genesis : Ptr) (ps : List Ptr)
    → Forward h (some genesis) (genesis ∷ ps)
    → Heights h 0 (genesis ∷ ps)
    → length ps < fuel
    → set_iteration_start fuel h block_start start genesis ≡ (
        if block_start == 0
        then ok start
        else (or_fail (get_elem? (genesis ∷ ps) block_start) no_block_start >>= λ b. ok (some b)))
unfolding set_iteration_start
set_iteration_start-get_elem? fuel h block_start start genesis ps fw hs enough =
    let found : find_height fuel h genesis block_start ≡ ok (get_elem? (genesis ∷ ps) block_start) =
      ap (λ j. find_height fuel h genesis j) (omega arith)
      ∙ find_height-get_elem? fuel h genesis ps 0 block_start fw hs enough in
    rw found refl
