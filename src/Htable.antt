-- ===== src/Htable.antt =====
-- The hash tables of ccan/htable, which block.h and utxo.h instantiate by HTABLE_DEFINE_TYPE: an
-- interface, with what htable.h and htable_type.h document. `eqfn` is the program's
-- comparison that an instantiation names.
pub mod ListTable
use mathlib.Core.List.{Perm, Mem}
use bitcoin_iterate.Prelude.{ℕ, ◌≡◌, Bool, true, false, Option, none, some, List, [], ◌∷◌, All}

-- `first` and `next` walk over `elements`. An element may stand in a table more than once.
pub record Htable (K E : Type 0) (eqfn : E → K → Bool) : Type 1 where
  pub Table : Type 0
  pub init : Table
  pub add : E → Table → Table
  pub del : E → Table → Table
  pub get : K → Table → Option E
  pub elements : Table → List E
  pub elements-init : elements init ≡ []
  pub elements-add : (e : E) (t : Table) → Perm (elements (add e t)) (e ∷ elements t)
  pub get-none : (k : K) (t : Table) → get k t ≡ none → All (λ e. eqfn e k ≡ false) (elements t)
  pub get-matches : (k : K) (t : Table) (e : E) → get k t ≡ some e → eqfn e k ≡ true
  pub elements-del :
      (k : K) (t : Table) (e : E) → get k t ≡ some e → Perm (elements t) (e ∷ elements (del e t))
