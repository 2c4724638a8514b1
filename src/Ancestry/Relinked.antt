-- ===== src/Ancestry/Relinked.antt =====
-- Changes of a store that keep its blocks rooted: of `next`, and of a height that was not known.
use mathlib.Core.Path.{subst}
use bitcoin_iterate.Prelude.{
  ℕ, ◌≤◌, ◌≡◌, refl, sym, ◌∙◌, ap, Option, none, some, ◌==◌, inl, inr, Option-cases, Bool-cases,
  arith,
}
use bitcoin_iterate.Types.{Block}
use bitcoin_iterate.Block.{Ptr, Store, write}
use bitcoin_iterate.Chain.Links.{write-same, write-other}
use bitcoin_iterate.Ancestry.{Parented, IsRooted}

-- Every block of `h` is in `h'`, but for its `next`.
abbrev pub Kept : (h h' : Store) → Type 0
Kept h h' =
    (r : Ptr) (b : Block)
    → h r ≡ some b
    → (b' : Block) × (h' r ≡ some b') × (b'.id ≡ b.id) × (b'.height ≡ b.height) × (b'.bh ≡ b.bh)

-- Every block of `h` is in `h'`, by its id.
abbrev pub Named : (h h' : Store) → Type 0
Named h h' = (r : Ptr) (b : Block) → h r ≡ some b → (b' : Block) × (h' r ≡ some b') × (b'.id ≡ b.id)

pub Named-refl : (h : Store) → Named h h
Named-refl h r b e = (b, e, refl)

pub Named-trans : (h h' h'' : Store) → Named h h' → Named h' h'' → Named h h''
Named-trans h h' h'' k k' r b e =
    let (b', e', i) = k r b e in let (b'', e'', i') = k' r b' e' in (b'', e'', i' ∙ i)

pub Kept-Named : (h h' : Store) → Kept h h' → Named h h'
Kept-Named h h' k r b e = let (b', e', i, t, s) = k r b e in (b', e', i)

pub write_height-Named :
    (h : Store) (p : Ptr) (b : Block) (height : Option ℕ)
    → h p ≡ some b
    → Named h (write h p (record b { height = height }))
write_height-Named h p b height at_p r x e = elim (Bool-cases (r == p)) [
  | inl hit ↦
      let at : r ≡ p = ground arith in
      let same : b ≡ x = ground arith in
      (record b { height = height }, rw at (write-same h p _), ap (λ y. y.id) same)
  | inr miss ↦ (x, write-other h p r _ miss ∙ e, refl)
]

-- The stores have the same blocks, but for `next`.
pub record IsRelinked (h h' : Store) : Type 0 where
  pub to : Kept h h'
  pub from : Kept h' h

pub IsRelinked-refl : (h : Store) → IsRelinked h h
IsRelinked-refl h = record {
  to = λ r b e. (b, e, refl, refl, refl);
  from = λ r b e. (b, e, refl, refl, refl);
}

Kept-trans : (h h' h'' : Store) → Kept h h' → Kept h' h'' → Kept h h''
Kept-trans h h' h'' k k' r b e =
    let (b', e', i, t, s) = k r b e in
    let (b'', e'', i', t', s') = k' r b' e' in (b'', e'', i' ∙ i, t' ∙ t, s' ∙ s)

pub IsRelinked-trans : (h h' h'' : Store) → IsRelinked h h' → IsRelinked h' h'' → IsRelinked h h''
IsRelinked-trans h h' h'' k k' = record {
  to = Kept-trans h h' h'' k.to k'.to;
  from = Kept-trans h'' h' h k'.from k.from;
}

pub write-IsRelinked :
    (h : Store) (p : Ptr) (b : Block) (next : Option Ptr)
    → h p ≡ some b
    → IsRelinked h (write h p (record b { next = next }))
write-IsRelinked h p b next at_p = record { to = to; from = from }
  where
    b' : Block
    b' = record b { next = next }

    to : Kept h (write h p b')
    to r x e = elim (Bool-cases (r == p)) [
      | inl hit ↦
          let at : r ≡ p = ground arith in
          let same : x ≡ b = ground arith in
          (
            b',
            rw at (write-same h p b'),
            ap (λ y. y.id) (sym same),
            ap (λ y. y.height) (sym same),
            ap (λ y. y.bh) (sym same),
          )
      | inr miss ↦ (x, write-other h p r b' miss ∙ e, refl, refl, refl)
    ]

    from : Kept (write h p b') h
    from r x e = elim (Bool-cases (r == p)) [
      | inl hit ↦
          let at : r ≡ p = ground arith in
          let here : h r ≡ some b = rw at at_p in
          let now : write h p b' r ≡ some b' = rw at (write-same h p b') in
          let same : b' ≡ x = ground arith in
          (b, here, ap (λ y. y.id) same, ap (λ y. y.height) same, ap (λ y. y.bh) same)
      | inr miss ↦ (x, sym (write-other h p r b' miss) ∙ e, refl, refl, refl)
    ]

Parented-Kept :
    (h h' : Store) (b b' : Block)
    → Kept h h'
    → b'.height ≡ b.height
    → b'.bh ≡ b.bh
    → Parented h b
    → Parented h' b'
Parented-Kept h h' b b' k t s (inl (z, k0)) = inl (rw s z, t ∙ k0)
Parented-Kept h h' b b' k t s (inr (q, qb, n, e, i, k0, k1)) =
    let (qb', e', i', t', s') = k q qb e in
    inr (q, qb', n, e', i' ∙ (i ∙ ap (λ y. y.prev_hash) (sym s)), t' ∙ k0, t ∙ k1)

pub IsRelinked-IsRooted :
    (h h' : Store) (fresh : Ptr) → IsRelinked h h' → IsRooted h fresh → IsRooted h' fresh
IsRelinked-IsRooted h h' fresh l is = record { parented = parented; unused = unused }
  where
    parented : (p : Ptr) (b : Block) (n : ℕ) → h' p ≡ some b → b.height ≡ some n → Parented h' b
    parented p b n e k =
        let (b0, e0, i, t, s) = l.from p b e in
        Parented-Kept h h' b0 b l.to (sym t) (sym s) (is.parented p b0 n e0 (t ∙ k))

    unused : (p : Ptr) → fresh ≤ p → h' p ≡ none
    unused p le = elim (Option-cases (h' p)) [
      | inl e ↦ e
      | inr (b, e) ↦ let (b0, e0, i, t, s) = l.from p b e in let gone = is.unused p le in cc
    ]

-- A height that was not known is set to one above that of the parent.
pub write_height-IsRooted :
    (h : Store) (fresh p : Ptr) (b : Block) (height : Option ℕ)
    → h p ≡ some b
    → b.height ≡ none
    → Parented h (record b { height = height })
    → IsRooted h fresh
    → IsRooted (write h p (record b { height = height })) fresh
write_height-IsRooted h fresh p b height at_p u has is = record {
  parented = parented;
  unused = unused;
}
  where
    b' : Block
    b' = record b { height = height }

    -- The parent of a block has a known height, so it is not at `p`.
    persists : (x : Block) → Parented h x → Parented (write h p b') x
    persists x (inl z) = inl z
    persists x (inr (q, qb, n, e, i, k, k')) = elim (Bool-cases (q == p)) [
      | inl hit ↦
          let at : q ≡ p = ground arith in
          let same : qb ≡ b = ground arith in let known = rw same at k in cc
      | inr miss ↦ inr (q, qb, n, write-other h p q b' miss ∙ e, i, k, k')
    ]

    parented :
        (r : Ptr) (x : Block) (n : ℕ)
        → write h p b' r ≡ some x
        → x.height ≡ some n
        → Parented (write h p b') x
    parented r x n e k = elim (Bool-cases (r == p)) [
      | inl hit ↦
          let at : r ≡ p = ground arith in
          let now : write h p b' r ≡ some b' = rw at (write-same h p b') in
          let same : b' ≡ x = ground arith in persists x (subst (λ y. Parented h y) same has)
      | inr miss ↦ persists x (is.parented r x n (sym (write-other h p r b' miss) ∙ e) k)
    ]

    unused : (r : Ptr) → fresh ≤ r → write h p b' r ≡ none
    unused r le = elim (Bool-cases (r == p)) [
      | inl hit ↦
          let at : r ≡ p = ground arith in
          let gone = is.unused r le in let here : h r ≡ some b = rw at at_p in cc
      | inr miss ↦ write-other h p r b' miss ∙ is.unused r le
    ]
