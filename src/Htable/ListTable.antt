-- ===== src/Htable/ListTable.antt =====
-- A table as a list, newest first: it meets the interface, if keys that match one element match
-- the same elements.
use mathlib.Core.List.{Perm}
use mathlib.Core.List.Perm
use bitcoin_iterate.Prelude.{
  ◌≡◌, refl, Bool, true, false, Option, none, some, List, [], ◌∷◌, All, if◌then◌else◌, Bool-cases,
  inl, inr, arith,
}
use bitcoin_iterate.Htable.{Htable}

module _ {K E : Type 0} (eqfn : E → K → Bool) where
  unfoldable pub find : K → List E → Option E
  find k [] = none
  find k (e ∷ t) = if eqfn e k then some e else find k t

  unfoldable pub erase : K → List E → List E
  erase k [] = []
  erase k (e ∷ t) = if eqfn e k then t else e ∷ erase k t

  pub find-none : (k : K) (t : List E) → find k t ≡ none → All (λ e. eqfn e k ≡ false) t
  unfolding find
  find-none k [] h = tt
  find-none k (e ∷ t) h = elim (Bool-cases (eqfn e k)) [
    | inl hit ↦ absurd (ground arith)
    | inr miss ↦ (miss, find-none k t (ground arith))
  ]

  pub find-matches : (k : K) (t : List E) (e : E) → find k t ≡ some e → eqfn e k ≡ true
  unfolding find
  find-matches k [] e h = cc
  find-matches k (x ∷ t) e h = ground (arith, find-matches k t e)

  erase-perm : (k : K) (t : List E) (e : E) → find k t ≡ some e → Perm t (e ∷ erase k t)
  unfolding find erase
  erase-perm k [] e h = cc
  erase-perm k (x ∷ t) e h = elim (Bool-cases (eqfn x k)) [
    | inl hit ↦ let same : x ≡ e = ground arith in rw (hit, same) (Perm.refl (e ∷ t))
    | inr miss ↦
        rw miss
          (Perm.trans (Perm.cons x (erase-perm k t e (ground arith))) (Perm.swap e x (erase k t)))
  ]

  erase_congr : (k j : K) (t : List E) → ((x : E) → eqfn x k ≡ eqfn x j) → erase k t ≡ erase j t
  unfolding erase
  erase_congr k j [] h = refl
  erase_congr k j (x ∷ t) h = rw (h x, erase_congr k j t h)

  module _ (keyof : E → K)
      (congr : (e : E) (k : K) → eqfn e k ≡ true → (x : E) → eqfn x k ≡ eqfn x (keyof e)) where
    pub del-perm : (k : K) (t : List E) (e : E) → find k t ≡ some e → Perm t (e ∷ erase (keyof e) t)
    del-perm k t e h =
        rw (erase_congr k (keyof e) t (congr e k (find-matches k t e h))) at (erase-perm k t e h)

    abbrev pub list_table : Htable K E eqfn
    list_table = record {
      Table = List E;
      init = [];
      add = λ e t. e ∷ t;
      del = λ e t. erase (keyof e) t;
      get = find;
      elements = λ t. t;
      elements-init = refl;
      elements-add = λ e t. Perm.refl (e ∷ t);
      get-none = find-none;
      get-matches = find-matches;
      elements-del = del-perm;
    }
