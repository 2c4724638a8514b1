-- ===== src/Chain/Climb.antt =====
-- The loop of `set_height` that goes back to a block whose height is known.
use bitcoin_iterate.Prelude.{
  ℕ, zero, suc, ◌<◌, ◌≡◌, ◌∙◌, ap, false, Option, none, some, List, [], ◌∷◌, length, ◌==◌, Result,
  ok, ◌>>=◌, arith,
}
use bitcoin_iterate.Types.{Hash, Block}
use bitcoin_iterate.Htable.{Htable}
use bitcoin_iterate.Chain.Ways.{==_flip, Avoids, Climb, Climb-start, Distinct}
use bitcoin_iterate.Block.{Ptr, Store, Entry, block_eq, block_map_get, load, write, walk_back}
use bitcoin_iterate.Chain.Links.{Linked, Linked-old, oldest, write-same, write-other, write-Avoids}

module _ (blocks : Htable Hash Entry block_eq) where
  open blocks use {Table}

  Climb-write :
      (m : Table) (h : Store) (x : Ptr) (xb : Block) (p : Ptr) (ps : List Ptr) (q : Ptr) (n : ℕ)
      → Avoids x (p ∷ ps)
      → (q == x) ≡ false
      → Climb blocks m h p ps q n
      → Climb blocks m (write h x xb) p ps q n
  Climb-write m h x xb p [] q n a other ((b, e, u, g), (qb, e', k)) =
      ((b, write-other h x p xb a.0 ∙ e, u, g), (qb, write-other h x q xb other ∙ e', k))
  Climb-write m h x xb p (r ∷ ps) q n a other ((b, e, u, g), c) =
      ((b, write-other h x p xb a.0 ∙ e, u, g), Climb-write m h x xb r ps q n a.1 other c)

  -- A change of `next` at the block where the way begins.
  Climb-next :
      (m : Table) (h : Store) (p : Ptr) (b : Block) (next : Option Ptr) (ps : List Ptr) (q : Ptr)
      (n : ℕ)
      → h p ≡ some b
      → Avoids p ps
      → (q == p) ≡ false
      → Climb blocks m h p ps q n
      → Climb blocks m (write h p (record b { next = next })) p ps q n
  Climb-next m h p b next [] q n at_p a other ((b2, e, u, g), (qb, e', k)) =
      let same : b2 ≡ b = ground arith in
      (
        (record b { next = next }, write-same h p _, rw same at u, rw same at g),
        (qb, write-other h p q _ other ∙ e', k),
      )
  Climb-next m h p b next (r ∷ ps) q n at_p a other ((b2, e, u, g), c) =
      let same : b2 ≡ b = ground arith in
      (
        (record b { next = next }, write-same h p _, rw same at u, rw same at g),
        Climb-write m h p (record b { next = next }) r ps q n a other c,
      )

  -- What a round of the loop does once it has the previous block.
  abbrev pub walk_on :
      ℕ
      → Table
      → Store
      → (p prev : Ptr) → (pb : Block) → (height : Option ℕ) → Result (Option Ptr × Store)
  walk_on fuel m h p prev pb none =
      walk_back blocks fuel m (write h prev (record pb { next = some p })) prev
  walk_on fuel m h p prev pb (some n) = ok (some prev, write h prev (record pb { next = some p }))

  abbrev pub walk_prev : ℕ → Table → Store → (p : Ptr) → Option Ptr → Result (Option Ptr × Store)
  walk_prev fuel m h p none = ok (none, h)
  walk_prev fuel m h p (some prev) = load h prev >>= λ pb. walk_on fuel m h p prev pb pb.height

  pub walk_back_step :
      (fuel : ℕ) (m : Table) (h : Store) (p q : Ptr) (b qb : Block) (known : Option ℕ)
      → h p ≡ some b
      → block_map_get blocks m b.bh.prev_hash ≡ some q
      → h q ≡ some qb
      → qb.height ≡ known
      → walk_back blocks (suc fuel) m h p ≡ walk_on fuel m h p q qb known
  unfolding walk_back load
  walk_back_step fuel m h p q b qb known at_p g at_q k =
      rw (load, at_p)
        (ap (walk_prev fuel m h p) g ∙ rw (load, at_q) (ap (walk_on fuel m h p q qb) k))

  -- The loop back: from `p` to `q`, with `next` set on the way.
  pub walk_back-Linked :
      (fuel : ℕ) (m : Table) (h : Store) (p : Ptr) (ps : List Ptr) (q : Ptr) (n : ℕ)
      → Climb blocks m h p ps q n
      → Distinct (q ∷ p ∷ ps)
      → length ps < fuel
      → (h' : Store) × (qb : Block) × (walk_back blocks fuel m h p ≡ ok (some q, h'))
        × Linked h h' ps (some p)
        × (h' q ≡ some (record qb { next = some (oldest p ps) }))
        × (qb.height ≡ some n)
        × ((r : Ptr) → Avoids r (q ∷ ps) → h' r ≡ h r)
  walk_back-Linked zero m h p ps q n c d enough = absurd (omega arith)
  walk_back-Linked (suc fuel) m h p [] q n ((b, at_p, u, g), (qb, at_q, k)) d enough =
      let q' = record qb { next = some p } in
      (
        write h q q',
        qb,
        walk_back_step fuel m h p q b qb (some n) at_p g at_q k,
        tt,
        write-same h q q',
        k,
        λ r a. write-other h q r q' (==_flip q r a.0),
      )
  walk_back-Linked (suc fuel) m h p (r ∷ ps) q n ((b, at_p, u, g), c) d enough =
      let (rb, at_r, unknown) = Climb-start blocks m h r ps q n c in
      let r' = record rb { next = some p } in
      let h1 = write h r r' in
      let apart : (r == q) ≡ false = d.0.1.0 in
      let (h', qb, run, linked, at_q, k, frame) =
        walk_back-Linked fuel m h1 r ps q n
          (Climb-next m h r rb (some p) ps q n at_r d.1.1.0 (==_flip r q apart) c)
          ((apart, d.0.1.1), d.1.1) (omega arith) in
      (
        h',
        qb,
        walk_back_step fuel m h p r b rb none at_p g at_r unknown ∙ run,
        (
          (rb, at_r, frame r (==_flip r q apart, d.1.1.0) ∙ write-same h r r'),
          Linked-old h h1 h' ps (some r) (write-Avoids h r r' ps d.1.1.0) linked,
        ),
        at_q,
        k,
        λ x a. frame x (a.0, a.1.1) ∙ write-other h r x r' (==_flip r x a.1.0),
      )
