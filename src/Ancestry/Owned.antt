-- ===== src/Ancestry/Owned.antt =====
-- The map of blocks: every entry has the id of the block that it points to.
use mathlib.Core.List.{Mem, mem-cons_self, mem-cons_of_mem, eq-or-mem_of_mem-cons}
use mathlib.Core.List.Perm
use mathlib.Core.Logic.Or
use mathlib.Core.Bool.{Bool-set}
use mathlib.Core.Path.{subst}
use bitcoin_iterate.Prelude.{
  ◌≡◌, sym, ◌∙◌, Bool, true, false, none, some, inl, inr, Option-cases, arith,
}
use bitcoin_iterate.Prelude.Bytes.{bytes_eq, bytes_eq_sound, bytes_eq_refl}
use bitcoin_iterate.Types.{Hash, Block}
use bitcoin_iterate.Htable.{Htable}
use bitcoin_iterate.Block.{Ptr, Store, Entry, block_eq, block_map_get}
use bitcoin_iterate.Ancestry.Relinked.{Named}

abbrev pub owned : Store → Entry → Bool
owned h e = elim (h e.ptr) [ none ↦ false | some b ↦ bytes_eq b.id e.id ]

owned_block :
    (h : Store) (e : Entry) → owned h e ≡ true → (b : Block) × (h e.ptr ≡ some b) × (b.id ≡ e.id)
owned_block h e o = elim (Option-cases (h e.ptr)) [
  | inl missing ↦ absurd (ground arith)
  | inr (b, at) ↦ (b, at, bytes_eq_sound b.id e.id (ground arith))
]

pub owned_at :
    (h : Store) (e : Entry) (b : Block) → h e.ptr ≡ some b → b.id ≡ e.id → owned h e ≡ true
owned_at h e b at i = rw (owned, at, i) (bytes_eq_refl e.id)

pub owned-Named : (h h' : Store) (e : Entry) → Named h h' → owned h e ≡ true → owned h' e ≡ true
owned-Named h h' e k o =
    let (b, at, i) = owned_block h e o in
    let (b', at', i') = k e.ptr b at in owned_at h' e b' at' (i' ∙ i)

module _ (blocks : Htable Hash Entry block_eq) where
  open blocks use {Table, add, del, get, elements, elements-add, elements-del, get-matches}

  abbrev pub Owned : Table → Store → Type 0
  Owned m h = (e : Entry) → Mem e (elements m) → owned h e ≡ true

  -- What the map finds is the block that is asked for.
  pub Owned-get :
      (m : Table) (h : Store) (key : Hash) (p : Ptr)
      → Owned m h
      → block_map_get blocks m key ≡ some p
      → (b : Block) × (h p ≡ some b) × (b.id ≡ key)
  unfolding block_eq
  Owned-get m h key p own g = elim (Option-cases (get key m)) [
    | inl missing ↦ absurd (ground arith)
    | inr (e, there) ↦
        let (b, at, i) =
          owned_block h e (own e ((Perm.mem_iff (elements-del key m e there)).1 mem-cons_self)) in
        let here : e.ptr ≡ p = ground arith in
        (b, rw here at at, i ∙ bytes_eq_sound e.id key (get-matches key m e there))
  ]

  pub Owned-Named : (m : Table) (h h' : Store) → Named h h' → Owned m h → Owned m h'
  Owned-Named m h h' k own e mem = owned-Named h h' e k (own e mem)

  pub Owned-del :
      (m : Table) (h : Store) (key : Hash) (e : Entry)
      → get key m ≡ some e
      → Owned m h
      → Owned (del e m) h
  Owned-del m h key e there own x mem =
      own x ((Perm.mem_iff (elements-del key m e there)).1 (mem-cons_of_mem e mem))

  pub Owned-add :
      (m : Table) (h : Store) (e : Entry) → owned h e ≡ true → Owned m h → Owned (add e m) h
  Owned-add m h e o own x mem =
      Or.elim (Bool-set (owned h x) true)
        (eq-or-mem_of_mem-cons ((Perm.mem_iff (elements-add e m)).0 mem))
        (λ same. subst (λ y. owned h y ≡ true) (sym same) o) (own x)
