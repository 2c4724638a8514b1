-- ===== src/Iterate/Ledger.antt =====
-- What a transaction does to the set of unspent outputs.
use mathlib.Core.List.{Perm, perm_middle}
use mathlib.Core.List.Perm
use bitcoin_iterate.Prelude.{
  ℕ, ◌≡◌, refl, true, ◌⊎◌, inl, inr, List, [], ◌∷◌, ◌++◌, length, ◌==◌, if◌then◌else◌, Bool-cases,
  Result, ok, err, unknown_utxo, All, ap, false,
}
use bitcoin_iterate.Types.{Hash, Block, Input, Transaction, Utxo}
use bitcoin_iterate.Htable.{Htable}
use bitcoin_iterate.Utxo.{OutPoint, keyof_input, utxohash_eq, guess_output_types}
use bitcoin_iterate.Utxo.Set.{made, add_utxos-made, release_utxo_total}
use bitcoin_iterate.Iterate.{release_utxos, spend_and_add}

perm_front : {A : Type 0} (a b c : List A) → Perm (a ++ (b ++ c)) (b ++ (a ++ c))
perm_front [] b c = Perm.refl (b ++ c)
perm_front (x ∷ a) b c =
    Perm.trans (Perm.cons x (perm_front a b c)) (Perm.symm (perm_middle b (a ++ c)))

-- The outputs that the inputs spend, one by one.
pub data Spends : List Input → List Utxo → Type 0 where
  none_spent : Spends [] []
  spend :
      (i : Input) (is : List Input) (u : Utxo) (us : List Utxo)
      → utxohash_eq u (keyof_input i) ≡ true
      → Spends is us
      → Spends (i ∷ is) (u ∷ us)

-- An input that names none of the outputs that are left once those of the inputs before it are spent.
abbrev pub Unnamed : List Utxo → List Input → Type 0
Unnamed us is =
    (before : List Input) × (i : Input) × (after : List Input) × (spent left : List Utxo) × (is
      ≡ before ++ (i ∷ after))
    × Spends before spent
    × Perm us (spent ++ left)
    × All (λ u. utxohash_eq u (keyof_input i) ≡ false) left

module _ (sha256 : List ℕ → Hash) (utxos : Htable OutPoint Utxo utxohash_eq) where
  open utxos use {Table, elements}

  -- The set before and the set after `release_utxos`, or the end of the run.
  abbrev Released : Table → List Input → Result Table → Type 0
  Released m is r =
      ((m' : Table) × (spent : List Utxo) × (r ≡ ok m')
        × Spends is spent
        × Perm (elements m) (spent ++ elements m'))
      ⊎ ((r ≡ err unknown_utxo) × Unnamed (elements m) is)

  release_utxos-Released :
      (m : Table) (is : List Input) → Released m is (release_utxos sha256 utxos m is)
  unfolding release_utxos
  release_utxos-Released m [] = inl (m, [], refl, Spends.none_spent, Perm.refl (elements m))
  release_utxos-Released m (i ∷ is) = elim (release_utxo_total utxos m i) [
    | inr (e, unknown) ↦ inr (
      rw e,
      ([], i, is, [], elements m, refl, Spends.none_spent, Perm.refl (elements m), unknown),
    )
    | inl (u, m1, e, same, p) ↦ elim (release_utxos-Released m1 is) [
      | inr (e', (before, j, after, spent, left, split, spends, p', unknown)) ↦ inr (
        rw (e, e'),
        (
          i ∷ before,
          j,
          after,
          u ∷ spent,
          left,
          ap (λ is. i ∷ is) split,
          Spends.spend i before u spent same spends,
          Perm.trans p (Perm.cons u p'),
          unknown,
        ),
      )
      | inl (m', spent, e', spends, p') ↦ inl (
        m',
        u ∷ spent,
        rw (e, e'),
        Spends.spend i is u spent same spends,
        Perm.trans p (Perm.cons u p'),
      )
    ]
  ]

  -- A transaction takes from the set, for each of its inputs, one output that the input names, and
  -- puts in the outputs that it makes; the first transaction of a block takes none. Otherwise the
  -- transaction is not the first of the block, and one of its inputs names no output of those that the
  -- inputs before it leave in the set, and the run ends.
  pub spend_and_add_total :
      (m : Table) (b : Block) (t : Transaction) (txnum : ℕ)
      → t.output_count ≡ length t.output
      → ((m' : Table) × (spent : List Utxo) × (spend_and_add sha256 utxos m b t txnum ≡ ok m')
          × Spends (if txnum == 0 then [] else t.input) spent
          × Perm
              (spent ++ elements m')
              (made b t txnum (guess_output_types t) 0 t.output ++ elements m))
        ⊎ ((spend_and_add sha256 utxos m b t txnum ≡ err unknown_utxo)
            × ((txnum == 0) ≡ false)
            × Unnamed (elements m) t.input)
  unfolding spend_and_add
  spend_and_add_total m b t txnum count = elim (Bool-cases (txnum == 0)) [
    | inl z ↦
        let (m', run, p) = add_utxos-made utxos m b t txnum count in
        inl (m', [], rw z run, rw z Spends.none_spent, p)
    | inr z ↦ elim (release_utxos-Released m t.input) [
      | inr (e, unnamed) ↦ inr (rw (z, e), z, unnamed)
      | inl (m1, spent, e, spends, p) ↦
          let (m', run, p') = add_utxos-made utxos m1 b t txnum count in
          inl (
            m',
            spent,
            rw (z, e) run,
            rw z spends,
            Perm.trans (Perm.append_left spent p') (
                Perm.trans
                  (perm_front spent (made b t txnum (guess_output_types t) 0 t.output)
                    (elements m1))
                  (Perm.append_left (made b t txnum (guess_output_types t) 0 t.output)
                    (Perm.symm p))),
          )
    ]
  ]
