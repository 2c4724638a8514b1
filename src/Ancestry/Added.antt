-- ===== src/Ancestry/Added.antt =====
-- What `add_block` leaves.
use bitcoin_iterate.Prelude.{
  ℕ, ◌+◌, ◌%◌, ◌^◌, ◌≡◌, refl, ap, Bool, true, false, Option, none, some, ◌==◌, if◌then◌else◌,
  Result, ok, ◌>>=◌, Holds, Holds-ok, Holds-then, Bool-cases, inl, inr, arith,
}
use bitcoin_iterate.Types.{Hash, Block}
use bitcoin_iterate.Utils.{is_zero}
use bitcoin_iterate.Htable.{Htable}
use bitcoin_iterate.Block.{
  Ptr, Store, Entry, Chain, block_eq, block_map_get, write, load, set_height, add_block,
}
use bitcoin_iterate.Ancestry.{IsRooted, Parented}
use bitcoin_iterate.Ancestry.Relinked.{write_height-IsRooted, write_height-Named}
use bitcoin_iterate.Ancestry.Owned.{Owned, Owned-get, Owned-del, Owned-add, Owned-Named, owned_at}
use bitcoin_iterate.Ancestry.Found.{Left, set_height-Stays}

module _ (blocks : Htable Hash Entry block_eq) where
  open blocks use {Table, add, del, get}

  -- The map behind the new entry.
  abbrev entered : Table → Ptr → Block → Table
  entered m b blk =
      add (record { id = blk.id; ptr = b })
        (elim (get blk.id m) [ none ↦ m | some old ↦ del old m ])

  entered-Owned :
      (m : Table) (h : Store) (b : Ptr) (blk : Block)
      → h b ≡ some blk
      → Owned blocks m h
      → Owned blocks (entered m b blk) h
  entered-Owned m h b blk at_b own =
      Owned-add blocks (elim (get blk.id m) [ none ↦ m | some old ↦ del old m ]) h
        (record { id = blk.id; ptr = b })
        (owned_at h (record { id = blk.id; ptr = b }) blk at_b refl) (rest (get blk.id m) refl)
    where
      rest :
          (o : Option Entry)
          → get blk.id m ≡ o
          → Owned blocks (elim o [ none ↦ m | some old ↦ del old m ]) h
      rest none g = own
      rest (some old) g = Owned-del blocks m h blk.id old g own

  -- What `add_block` does once the entry is in the map, and what with the height of the block before.
  abbrev at_parent : ℕ → Table → Chain → Ptr → Block → Option ℕ → Result (Bool × Table × Chain)
  at_parent fuel m c b blk (some n) = ok (
    true,
    m,
    record c { store = write c.store b (record blk { height = some (n + 1) }); num_misses = 0 },
  )
  at_parent fuel m c b blk none =
      if c.num_misses % 1000 == 0
      then (set_height blocks fuel m c.store b >>= λ r. ok (
        r.0,
        m,
        record c { store = r.1; num_misses = if r.0 then 0 else (c.num_misses + 1) % 2 ^ 64 },
      ))
      else ok (false, m, record c { num_misses = (c.num_misses + 1) % 2 ^ 64 })

  abbrev with_parent : ℕ → Table → Chain → Ptr → Block → Option Ptr → Result (Bool × Table × Chain)
  with_parent fuel m c b blk none = ok (false, m, c)
  with_parent fuel m c b blk (some q) = load c.store q >>= λ qb. at_parent fuel m c b blk qb.height

  add_block_lem :
      (fuel : ℕ) (m : Table) (c : Chain) (b : Ptr) (blk : Block)
      → c.store b ≡ some blk
      → add_block blocks fuel m c b ≡ (
          if is_zero blk.bh.prev_hash
          then ok (
            true,
            entered m b blk,
            record {
              store = write c.store b (record blk { height = some 0 });
              genesis = some b;
              num_misses = 0;
            },
          )
          else with_parent fuel
              (entered m b blk)
              c
              b
              blk
              (block_map_get blocks (entered m b blk) blk.bh.prev_hash))
  unfolding add_block load
  add_block_lem fuel m c b blk at_b = rw (load, at_b) refl

  -- The map and the store are as they should be.
  abbrev pub Sound : (fresh : Ptr) → Table → Store → Type 0
  Sound fresh m h = IsRooted h fresh × Owned blocks m h

  abbrev pub Adds : (fresh : Ptr) → Bool × Table × Chain → Type 0
  Adds fresh r = Sound fresh r.1 (r.2).store

  assigned-Sound :
      (m : Table) (h : Store) (fresh b : Ptr) (blk : Block) (height : Option ℕ)
      → h b ≡ some blk
      → blk.height ≡ none
      → Parented h (record blk { height = height })
      → IsRooted h fresh
      → Owned blocks m h
      → Sound fresh m (write h b (record blk { height = height }))
  assigned-Sound m h fresh b blk height at_b u parent is own = (
    write_height-IsRooted h fresh b blk height at_b u parent is,
    Owned-Named blocks m h (write h b (record blk { height = height }))
        (write_height-Named h b blk height at_b) own,
  )

  at_parent-Adds :
      (fuel : ℕ) (m : Table) (c : Chain) (fresh b q : Ptr) (blk qb : Block) (height : Option ℕ)
      → c.store b ≡ some blk
      → blk.height ≡ none
      → c.store q ≡ some qb
      → qb.id ≡ blk.bh.prev_hash
      → qb.height ≡ height
      → IsRooted c.store fresh
      → Owned blocks m c.store
      → Holds (Adds fresh) (at_parent fuel m c b blk height)
  at_parent-Adds fuel m c fresh b q blk qb (some n) at_b u at_q i k is own =
      let parent : Parented c.store (record blk { height = some (n + 1) }) =
        inr (q, qb, n, at_q, i, k, ap some (omega arith)) in
      Holds-ok (Adds fresh)
        (
          true,
          m,
          record c {
            store = write c.store b (record blk { height = some (n + 1) });
            num_misses = 0;
          },
        )
        (assigned-Sound m c.store fresh b blk (some (n + 1)) at_b u parent is own)
  at_parent-Adds fuel m c fresh b q blk qb none at_b u at_q i k is own =
      elim (Bool-cases (c.num_misses % 1000 == 0)) [
        | inr e ↦ rw e (
            Holds-ok (Adds fresh) (false, m, record c { num_misses = (c.num_misses + 1) % 2 ^ 64 })
              (is, own))
        | inl e ↦ rw e (
            Holds-then (Left blocks c.store fresh) (Adds fresh) (set_height blocks fuel m c.store b)
              (λ r. ok (
                r.0,
                m,
                record c {
                  store = r.1;
                  num_misses = if r.0 then 0 else (c.num_misses + 1) % 2 ^ 64;
                },
              ))
              (set_height-Stays blocks fuel m c.store fresh b blk at_b own is)
              (λ r s.
                Holds-ok (Adds fresh)
                  (
                    r.0,
                    m,
                    record c {
                      store = r.1;
                      num_misses = if r.0 then 0 else (c.num_misses + 1) % 2 ^ 64;
                    },
                  )
                  (s.0, Owned-Named blocks m c.store r.1 s.1 own)))
      ]

  with_parent-Adds :
      (fuel : ℕ) (m : Table) (c : Chain) (fresh b : Ptr) (blk : Block) (o : Option Ptr)
      → block_map_get blocks m blk.bh.prev_hash ≡ o
      → c.store b ≡ some blk
      → blk.height ≡ none
      → IsRooted c.store fresh
      → Owned blocks m c.store
      → Holds (Adds fresh) (with_parent fuel m c b blk o)
  unfolding load
  with_parent-Adds fuel m c fresh b blk none g at_b u is own =
      Holds-ok (Adds fresh) (false, m, c) (is, own)
  with_parent-Adds fuel m c fresh b blk (some q) g at_b u is own =
      let (qb, at_q, i) = Owned-get blocks m c.store blk.bh.prev_hash q own g in
      rw (load, at_q) (at_parent-Adds fuel m c fresh b q blk qb qb.height at_b u at_q i refl is own)

  pub add_block-Adds :
      (fuel : ℕ) (m : Table) (c : Chain) (fresh b : Ptr) (blk : Block)
      → c.store b ≡ some blk
      → blk.height ≡ none
      → IsRooted c.store fresh
      → Owned blocks m c.store
      → Holds (Adds fresh) (add_block blocks fuel m c b)
  add_block-Adds fuel m c fresh b blk at_b u is own =
      let m' = entered m b blk in
      let own' = entered-Owned m c.store b blk at_b own in
      rw (add_block_lem fuel m c b blk at_b) (elim (Bool-cases (is_zero blk.bh.prev_hash)) [
        | inl z ↦ rw z (
            Holds-ok (Adds fresh)
              (
                true,
                m',
                record {
                  store = write c.store b (record blk { height = some 0 });
                  genesis = some b;
                  num_misses = 0;
                },
              )
              (assigned-Sound m' c.store fresh b blk (some 0) at_b u (inl (z, refl)) is own'))
        | inr nz ↦ rw nz (
            with_parent-Adds fuel m' c fresh b blk (block_map_get blocks m' blk.bh.prev_hash) refl
              at_b u is own')
      ])
