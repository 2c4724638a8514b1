-- ===== src/Ancestry/Ascent.antt =====
-- The forward loop of `set_height`: it keeps the store rooted.
use mathlib.Core.List.{reverse_aux}
use mathlib.Core.Path.{subst}
use bitcoin_iterate.Prelude.{
  inr, ℕ, zero, suc, ◌+◌, ◌≡◌, refl, sym, ◌∙◌, ap, Option, none, some, List, [], ◌∷◌, out_of_fuel,
  Holds, Holds-ok, Holds-err, Holds-mono, arith,
}
use bitcoin_iterate.Types.{Hash, Block}
use bitcoin_iterate.Htable.{Htable}
use bitcoin_iterate.Block.{Ptr, Store, Entry, block_eq, write, set_forward}
use bitcoin_iterate.Chain.Ways.{Avoids, Distinct, Climb}
use bitcoin_iterate.Chain.Links.{Forward, write-same, write-other}
use bitcoin_iterate.Chain.Heights.{set_forward_step, set_forward_end, Forward-write}
use bitcoin_iterate.Ancestry.{Parented, IsRooted}
use bitcoin_iterate.Ancestry.Relinked.{
  Kept, Named, Named-refl, Named-trans, write_height-IsRooted, write_height-Named,
}
use bitcoin_iterate.Ancestry.Owned.{Owned, Owned-get}

-- The blocks of a list, each of unknown height, have the hash of the one in front as that of the block
-- before, and the first the given one.
abbrev pub Ascent : Store → (id : Hash) → List Ptr → Type 0
Ascent h id [] = Unit {0}
Ascent h id (p ∷ ps) =
    (b : Block) × (h p ≡ some b) × (b.height ≡ none) × (id ≡ b.bh.prev_hash) × Ascent h b.id ps

Ascent-write :
    (h : Store) (p : Ptr) (x : Block) (id : Hash) (ps : List Ptr)
    → Avoids p ps
    → Ascent h id ps
    → Ascent (write h p x) id ps
Ascent-write h p x id [] a up = tt
Ascent-write h p x id (q ∷ ps) a (b, e, u, i, up) =
    (b, write-other h p q x a.0 ∙ e, u, i, Ascent-write h p x b.id ps a.1 up)

pub Ascent-Kept :
    (h h' : Store) (id id' : Hash) (ps : List Ptr)
    → Kept h h'
    → id' ≡ id
    → Ascent h id ps
    → Ascent h' id' ps
Ascent-Kept h h' id id' [] k same up = tt
Ascent-Kept h h' id id' (q ∷ ps) k same (b, e, u, i, up) =
    let (b', e', i', t, s) = k q b e in
    (
      b',
      e',
      t ∙ u,
      same ∙ (i ∙ ap (λ y. y.prev_hash) (sym s)),
      Ascent-Kept h h' b.id b'.id ps k i' up,
    )

-- What the changes of heights leave.
abbrev pub Stays : Store → (fresh : Ptr) → Store → Type 0
Stays h fresh h' = IsRooted h' fresh × Named h h'

pub set_forward-Stays :
    (fuel : ℕ) (h : Store) (fresh prev : Ptr) (pb : Block) (n : ℕ) (o : Option Ptr) (ps : List Ptr)
    → h prev ≡ some pb
    → pb.height ≡ some n
    → Forward h o ps
    → Ascent h pb.id ps
    → Distinct ps
    → IsRooted h fresh
    → Holds (Stays h fresh) (set_forward fuel h prev o)
unfolding set_forward
set_forward-Stays fuel h fresh prev pb n o [] at_prev known fw up d is =
    rw (fw, set_forward_end fuel h prev) (Holds-ok (Stays h fresh) h (is, Named-refl h))
set_forward-Stays zero h fresh prev pb n o (q ∷ ps) at_prev known (e, (b, at_q, fw)) up d is =
    rw e (Holds-err (Stays h fresh) out_of_fuel)
set_forward-Stays (suc fuel) h fresh prev pb n o (q ∷ ps) at_prev known (e, (b, at_q, fw))
      (b0, at_q0, u0, i0, up) d is =
    let same : b0 ≡ b = ground arith in
    let b' = record b { height = some (n + 1) } in
    let h1 = write h q b' in
    let parent : Parented h b' =
      inr
        (prev, pb, n, at_prev, i0 ∙ ap (λ y. y.bh.prev_hash) same, known, ap some (omega arith)) in
    let rooted : IsRooted h1 fresh =
      write_height-IsRooted h fresh q b (some (n + 1)) at_q (ap (λ y. y.height) (sym same) ∙ u0)
        parent is in
    let ih =
      set_forward-Stays fuel h1 fresh q b' (n + 1) b.next ps (write-same h q b') refl
        (Forward-write h q b' b.next ps d.0 fw)
        (Ascent-write h q b' b.id ps d.0 (subst (λ y. Ascent h y.id ps) same up)) d.1 rooted in
    rw (e, set_forward_step fuel h prev q pb b n at_q at_prev known)
      (Holds-mono (Stays h1 fresh) (Stays h fresh) (set_forward fuel h1 q b.next)
        (λ h' s. (s.0, Named-trans h h1 h' (write_height-Named h q b (some (n + 1)) at_q) s.1)) ih)

module _ (blocks : Htable Hash Entry block_eq) where
  open blocks use {Table}

  -- The way up is the way back, turned round.
  pub Climb-Ascent :
      (m : Table) (h : Store) (p : Ptr) (ps : List Ptr) (q : Ptr) (n : ℕ) (above : List Ptr)
      → Owned blocks m h
      → Climb blocks m h p ps q n
      → ((b : Block) → h p ≡ some b → Ascent h b.id above)
      → (qb : Block) × (h q ≡ some qb)
        × (qb.height ≡ some n)
        × Ascent h qb.id (reverse_aux (p ∷ ps) above)
  Climb-Ascent m h p [] q n above own ((b, e, u, g), (qb, e', k)) up =
      let (qb2, e2, i) = Owned-get blocks m h b.bh.prev_hash q own g in
      let same : qb2 ≡ qb = ground arith in
      (qb, e', k, (b, e, u, ap (λ y. y.id) (sym same) ∙ i, up b e))
  Climb-Ascent m h p (r ∷ ps) q n above own ((b, e, u, g), c) up =
      Climb-Ascent m h r ps q n (p ∷ above) own c (λ rb at_r.
        let (rb2, e2, i) = Owned-get blocks m h b.bh.prev_hash r own g in
        let same : rb2 ≡ rb = ground arith in (b, e, u, ap (λ y. y.id) (sym same) ∙ i, up b e))
