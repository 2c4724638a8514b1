-- ===== src/Utxo/Set.antt =====
-- What adding and releasing do to the set of unspent outputs.
use mathlib.Core.List.{Perm, perm_middle}
use mathlib.Core.List.Perm
use mathlib.Core.Path.{subst}
use bitcoin_iterate.Prelude.{
  ℕ, ◌+◌, ◌%◌, ◌<◌, ◌≡◌, refl, sym, ◌∙◌, ◌⊎◌, inl, inr, true, false, none, some, List, [], ◌∷◌,
  ◌++◌, length, length-append, append_assoc, get_elem?, get_elem?-append_at, get_elem?-exists,
  get_elem?-lt, if◌then◌else◌, ◌==◌, replicate, length-replicate, Bool-cases, Option-cases, All,
  arith, ok, err, unknown_utxo,
}
use bitcoin_iterate.Types.{
  Block, Input, Output, Transaction, Utxo, unknown_output, payment_output, change_output,
}
use bitcoin_iterate.Htable.{Htable}
use bitcoin_iterate.Utxo.{
  OutPoint, keyof_input, utxohash_eq, is_unspendable, guess_output_types, new_utxo, add_utxo,
  add_utxos_from, add_utxos, release_utxo,
}

-- One type for each output.
length-guess_output_types :
    (t : Transaction)
    → t.output_count ≡ length t.output
    → length (guess_output_types t) ≡ t.output_count
unfolding guess_output_types
length-guess_output_types t h = ground (arith, length-replicate t.output_count unknown_output)

-- A transaction with two outputs, exactly one of them a multiple of 1000 satoshis, pays with that
-- one and takes change with the other. Every output of any other transaction is unknown.
abbrev pub Guess : List Output → List ℕ → Type 0
Guess (a ∷ b ∷ []) types = types ≡ (
    if a.amount % 1000 == 0
    then (if b.amount % 1000 == 0
        then unknown_output ∷ unknown_output ∷ []
        else payment_output ∷ change_output ∷ [])
    else (if b.amount % 1000 == 0
        then change_output ∷ payment_output ∷ []
        else unknown_output ∷ unknown_output ∷ []))
Guess outputs types = types ≡ replicate (length outputs) unknown_output

pub guess_output_types-Guess :
    (t : Transaction) → t.output_count ≡ length t.output → Guess t.output (guess_output_types t)
unfolding guess_output_types
guess_output_types-Guess t h = go t.output h
  where
    go :
        (os : List Output)
        → t.output_count ≡ length os
        → Guess os (guess_output_types (record t { output = os }))
    go [] e = rw e
    go (a ∷ []) e = rw e
    go (a ∷ b ∷ []) e = rw e (ground arith)
    go (a ∷ b ∷ c ∷ os) e = rw e (ground arith)

-- The unspent outputs that a transaction makes: one for each spendable output, in order.
abbrev pub made : Block → Transaction → (txnum : ℕ) → (types : List ℕ) → ℕ → List Output → List Utxo
made b t txnum types i [] = []
made b t txnum types i (o ∷ os) =
    let rest = made b t txnum types (i + 1) os in
    if is_unspendable o
    then rest
    else new_utxo b t txnum i (elim (get_elem? types i) [ none ↦ unknown_output | some g ↦ g ]) o
      ∷ rest

module _ (utxos : Htable OutPoint Utxo utxohash_eq) where
  open utxos use {Table, add, del, get, elements, elements-add, elements-del}

  -- One output.
  add_utxo_skip :
      (m : Table) (b : Block) (t : Transaction) (txnum i : ℕ) (types : List ℕ) (o : Output)
      → get_elem? t.output i ≡ some o
      → is_unspendable o ≡ true
      → add_utxo utxos m b t txnum i types ≡ ok m
  unfolding add_utxo
  add_utxo_skip m b t txnum i types o e u = rw (e, u)

  add_utxo_add :
      (m : Table) (b : Block) (t : Transaction) (txnum i : ℕ) (types : List ℕ) (o : Output) (g : ℕ)
      → get_elem? t.output i ≡ some o
      → is_unspendable o ≡ false
      → get_elem? types i ≡ some g
      → add_utxo utxos m b t txnum i types ≡ ok (add (new_utxo b t txnum i g o) m)
  unfolding add_utxo
  add_utxo_add m b t txnum i types o g e u e' = rw (e, u, e')

  Added : (m m' : Table) → List Utxo → Type 0
  Added m m' us = Perm (elements m') (us ++ elements m)

  Added-cons :
      (m m' : Table) (u : Utxo) (us : List Utxo)
      → Perm (elements m') (us ++ elements (add u m))
      → Perm (elements m') (u ∷ (us ++ elements m))
  Added-cons m m' u us p =
      Perm.trans p
        (Perm.trans (Perm.append_left us (elements-add u m)) (perm_middle us (elements m)))

  add_utxos_from-made :
      (m : Table) (b : Block) (t : Transaction) (txnum : ℕ) (types : List ℕ)
      (front back : List Output)
      → t.output ≡ front ++ back
      → length types ≡ length t.output
      → (m' : Table) × (add_utxos_from utxos (length front) (length back) m b t txnum types ≡ ok m')
        × Perm (elements m') (made b t txnum types (length front) back ++ elements m)
  unfolding add_utxos_from
  add_utxos_from-made m b t txnum types front [] e l = (m, refl, Perm.refl (elements m))
  add_utxos_from-made m b t txnum types front (o ∷ os) e l =
      let i = length front in
      let here : get_elem? t.output i ≡ some o = rw e (get_elem?-append_at front o os) in
      let room : i < length types = omega (arith, get_elem?-lt t.output i o here, l) in
      let (g, eg) = get_elem?-exists types i room in
      let front' = front ++ (o ∷ []) in
      let e' : t.output ≡ front' ++ os = rw append_assoc e in
      let next : length front' ≡ i + 1 = omega (arith, length-append front (o ∷ [])) in
      elim (Bool-cases (is_unspendable o)) [
        | inl u ↦
            let (m', run, p) = add_utxos_from-made m b t txnum types front' os e' l in
            (
              m',
              rw (add_utxo_skip m b t txnum i types o here u) (rw next at run),
              rw u (rw next at p),
            )
        | inr u ↦
            let new = new_utxo b t txnum i g o in
            let (m', run, p) = add_utxos_from-made (add new m) b t txnum types front' os e' l in
            (
              m',
              rw (add_utxo_add m b t txnum i types o g here u eg) (rw next at run),
              rw (u, eg) (Added-cons m m' new _ (rw next at p)),
            )
      ]

  -- `add_utxos` adds the unspent outputs that the transaction makes, and nothing else, with the
  -- types that it guesses.
  pub add_utxos-made :
      (m : Table) (b : Block) (t : Transaction) (txnum : ℕ)
      → t.output_count ≡ length t.output
      → (m' : Table) × (add_utxos utxos m b t txnum ≡ ok m')
        × Perm (elements m') (made b t txnum (guess_output_types t) 0 t.output ++ elements m)
  unfolding add_utxos
  add_utxos-made m b t txnum count =
      let (m', run, p) =
        add_utxos_from-made m b t txnum (guess_output_types t) [] t.output refl
          (length-guess_output_types t count ∙ count) in
      (
        m',
        subst (λ n. add_utxos_from utxos 0 n m b t txnum (guess_output_types t) ≡ ok m') (sym count)
            run,
        p,
      )

  -- `release_utxo` takes one output out of the set, which the input's hash and index name, and
  -- leaves the others; or no output of the set has that name, and the run ends.
  pub release_utxo_total :
      (m : Table) (i : Input)
      → ((u : Utxo) × (m' : Table) × (release_utxo utxos m i ≡ ok m')
          × (utxohash_eq u (keyof_input i) ≡ true)
          × Perm (elements m) (u ∷ elements m'))
        ⊎ (release_utxo utxos m i ≡ err unknown_utxo)
          × All (λ u. utxohash_eq u (keyof_input i) ≡ false) (elements m)
  unfolding release_utxo
  release_utxo_total m i = elim (Option-cases (get (keyof_input i) m)) [
    | inl e ↦ inr (rw e, utxos.get-none (keyof_input i) m e)
    | inr (u, e) ↦ inl (
      u,
      del u m,
      rw e,
      utxos.get-matches (keyof_input i) m u e,
      elements-del (keyof_input i) m u e,
    )
  ]
