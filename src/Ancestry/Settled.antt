-- ===== src/Ancestry/Settled.antt =====
-- What `set_height` settles for good: a height that is known, or that cannot be.
use mathlib.Core.List.{reverse_aux}
use bitcoin_iterate.Prelude.{
  ℕ, ◌+◌, ◌<◌, ◌≡◌, ◌∙◌, Bool, true, false, Option, none, some, List, [], ◌∷◌, reverse, length,
  ◌==◌, All, ok, ◌>>=◌, Holds, Holds-ok, Holds-err, Holds_at, Result-cases, Option-cases, ◌⊎◌, inl,
  inr, length-reverse_aux, arith,
}
use bitcoin_iterate.Types.{Hash, Block}
use bitcoin_iterate.Htable.{Htable}
use bitcoin_iterate.Block.{Ptr, Store, Entry, block_eq, walk_back, set_height}
use bitcoin_iterate.Chain.Ways.{Avoids, Climb}
use bitcoin_iterate.Chain.Links.{oldest}
use bitcoin_iterate.Chain.Heights.{Heights, set_forward-Heights, after_walk, set_height_lem}
use bitcoin_iterate.Ancestry.Relinked.{IsRelinked}
use bitcoin_iterate.Ancestry.Stuck.{
  Stuck, Stuck-Kept, Stuck-same, Stuck-Avoids, Climb-Kept, known-Avoids,
}
use bitcoin_iterate.Ancestry.Found.{Finds, Climbed, walk_back-Finds, climbed}

-- The block at a pointer has the height `n`.
abbrev pub HasHeight : Store → Ptr → (n : ℕ) → Type 0
HasHeight h p n = (b : Block) × (h p ≡ some b) × (b.height ≡ some n)

All-reverse_aux :
    (P : Ptr → Type 0) (ps qs : List Ptr) → All P ps → All P qs → All P (reverse_aux ps qs)
All-reverse_aux P [] qs a a' = a'
All-reverse_aux P (p ∷ ps) qs a a' = All-reverse_aux P ps (p ∷ qs) a.1 (a.0, a')

All-behind_reverse_aux :
    (P : Ptr → Type 0) (ps qs : List Ptr) → All P (reverse_aux ps qs) → All P qs
All-behind_reverse_aux P [] qs a = a
All-behind_reverse_aux P (p ∷ ps) qs a = (All-behind_reverse_aux P ps (p ∷ qs) a).1

Heights-All :
    (h : Store) (n : ℕ) (ps : List Ptr) → Heights h n ps → All (λ p. (k : ℕ) × HasHeight h p k) ps
Heights-All h n [] hs = tt
Heights-All h n (p ∷ ps) (at_p, hs) = ((n, at_p), Heights-All h (n + 1) ps hs)

module _ (blocks : Htable Hash Entry block_eq) (m : blocks.Table) where
  -- What is settled stays so.
  pub record Keeps (h h' : Store) : Type 0 where
    pub known : (r : Ptr) (n : ℕ) → HasHeight h r n → HasHeight h' r n
    pub stuck : (r : Ptr) (rs : List Ptr) → Stuck blocks m h r rs → Stuck blocks m h' r rs

  abbrev pub Settled : Store → Ptr → Type 0
  Settled h p = ((n : ℕ) × HasHeight h p n) ⊎ ((ps : List Ptr) × Stuck blocks m h p ps)

  -- Stores that have the same blocks but for `next`, and then a store that is the same but on the way
  -- of a climb.
  keeps :
      (h h2 h3 : Store) (b : Ptr) (ps : List Ptr) (q : Ptr) (n : ℕ)
      → IsRelinked h h2
      → Climb blocks m h b ps q n
      → ((r : Ptr) → Avoids r (reverse (b ∷ ps)) → h3 r ≡ h2 r)
      → Keeps h h3
  keeps h h2 h3 b ps q n l c frame = record {
    known = λ r k has.
        let (x, at_r, known) = has in
        let (x2, at_r2, i, t, s) = l.to r x at_r in
        (
          x2,
          frame r (
                All-reverse_aux (λ y. (y == r) ≡ false) (b ∷ ps) []
                  (known-Avoids blocks m h r x k b ps q n at_r known c) tt)
              ∙ at_r2,
          t ∙ known,
        );
    stuck = λ r rs s.
        Stuck-same blocks m h2 h3 r rs
          (λ x xs sx. frame x (
            All-reverse_aux (λ y. (y == x) ≡ false) (b ∷ ps) []
              (Stuck-Avoids blocks m h2 x xs b ps q n sx (Climb-Kept blocks m h h2 b ps q n l.to c))
              tt))
          (Stuck-Kept blocks m h h2 r rs l.to s);
  }

  relinked-Keeps : (h h' : Store) → IsRelinked h h' → Keeps h h'
  relinked-Keeps h h' l = record {
    known = λ r k has.
        let (x, at_r, known) = has in
        let (x2, at_r2, i, t, s) = l.to r x at_r in (x2, at_r2, t ∙ known);
    stuck = λ r rs s. Stuck-Kept blocks m h h' r rs l.to s;
  }

  abbrev pub Settles : Store → Ptr → Bool × Store → Type 0
  Settles h p r = Keeps h r.1 × Settled r.1 p

  climbed-Settles :
      (fuel : ℕ) (h : Store) (b : Ptr) (ps : List Ptr) (q : Ptr) (n : ℕ)
      → Climb blocks m h b ps q n
      → length ps < fuel
      → Holds (Settles h b) (walk_back blocks fuel m h b >>= after_walk blocks fuel b)
  climbed-Settles fuel h b ps q n c short =
      let (h2, qb, run, l, at_q, k, fw, d) = climbed blocks fuel m h b ps q n c short in
      let (h3, run', heights, frame) =
        set_forward-Heights fuel h2 q qb n (some (oldest b ps)) (reverse (b ∷ ps)) at_q k fw d
          (omega (arith, length-reverse_aux ps (b ∷ []))) in
      let known =
        (All-behind_reverse_aux (λ p. (k : ℕ) × HasHeight h3 p k) ps (b ∷ [])
          (Heights-All h3 (n + 1) (reverse (b ∷ ps)) heights)).0 in
      rw (run, run')
        (Holds-ok (Settles h b) (true, h3) (keeps h h2 h3 b ps q n l c frame, inl known))

  pub set_height-Settles :
      (fuel : ℕ) (h : Store) (b : Ptr) (blk : Block)
      → h b ≡ some blk
      → Holds (Settles h b) (set_height blocks fuel m h b)
  set_height-Settles fuel h b blk at_b = elim (Option-cases blk.height) [
    | inr (n, known) ↦ rw (set_height_lem blocks fuel m h b blk (some n) at_b known) (
        Holds-ok (Settles h b) (true, h)
          (record { known = λ r k has. has; stuck = λ r rs s. s }, inl (n, (blk, at_b, known))))
    | inl unknown ↦
        rw (set_height_lem blocks fuel m h b blk none at_b unknown)
          (elim (Result-cases (walk_back blocks fuel m h b)) [
            | inl (stop, e) ↦ rw e (Holds-err (Settles h b) stop)
            | inr ((o, h1), e) ↦
                let (l, found) : Finds blocks fuel m h b (o, h1) =
                  Holds_at (Finds blocks fuel m h b) (walk_back blocks fuel m h b) (o, h1)
                    (walk_back-Finds blocks fuel m h b blk at_b unknown) e in
                ended o h1 e l found
          ])
  ]
    where
      ended :
          (o : Option Ptr) (h1 : Store)
          → walk_back blocks fuel m h b ≡ ok (o, h1)
          → IsRelinked h h1
          → Climbed blocks fuel m h b o
          → Holds (Settles h b) (walk_back blocks fuel m h b >>= after_walk blocks fuel b)
      ended none h1 e l (ps, s) = rw e (
          Holds-ok (Settles h b) (false, h1)
            (relinked-Keeps h h1 l, inr (ps, Stuck-Kept blocks m h h1 b ps l.to s)))
      ended (some q) h1 e l (ps, n, c, short) = climbed-Settles fuel h b ps q n c short
