-- ===== src/Blockfiles/Names.antt =====
-- The names of the block files, by number.
use bitcoin_iterate.Prelude.{
  ℕ, zero, suc, ◌+◌, ◌-◌, ◌%◌, ◌^◌, ◌<◌, ◌≡◌, refl, ◌∙◌, sym, ap, ◌⊎◌, inl, inr, Option, none, some,
  List, [], ◌∷◌, ◌++◌, length, length-append, length-replicate, get_elem?, get_elem?-exists, set,
  replicate, leb, ◌==◌, ==_iff, if◌then◌else◌, Bool-cases, Option-cases, Result, ok, err, ◌>>=◌,
  or_fail, >>=-ok, true, false, ◌≤◌, arith, duplicate_block_file, fault, Holds, Holds-ok, Holds-err,
  Holds_at, Holds-mono,
}
use native.Mathlib.Decide.{dec_le}
use bitcoin_iterate.Blockfiles.{resize, add_name, block_filenames_from}

-- The name at a number: NULL and none at all are the same.
abbrev pub lookup : List (Option ℕ) → ℕ → Option ℕ
lookup [] i = none
lookup (o ∷ names) zero = o
lookup (o ∷ names) (suc i) = lookup names i

lookup-get_elem? :
    (names : List (Option ℕ)) (i : ℕ) (o : Option ℕ)
    → get_elem? names i ≡ some o
    → lookup names i ≡ o
lookup-get_elem? [] i o e = cc
lookup-get_elem? (x ∷ names) zero o e = ground arith
lookup-get_elem? (x ∷ names) (suc i) o e = lookup-get_elem? names i o e

lookup-replicate : (n i : ℕ) → lookup (replicate n none) i ≡ none
lookup-replicate zero i = refl
lookup-replicate (suc n) zero = refl
lookup-replicate (suc n) (suc i) = lookup-replicate n i

lookup-append :
    (names : List (Option ℕ)) (n i : ℕ) → lookup (names ++ replicate n none) i ≡ lookup names i
lookup-append [] n i = lookup-replicate n i
lookup-append (o ∷ names) n zero = refl
lookup-append (o ∷ names) n (suc i) = lookup-append names n i

lookup-set :
    (names : List (Option ℕ)) (n : ℕ) (v : Option ℕ) (i : ℕ)
    → n < length names
    → lookup (set names n v) i ≡ (if i == n then v else lookup names i)
lookup-set [] n v i h = absurd (omega arith)
lookup-set (o ∷ names) zero v zero h = ground arith
lookup-set (o ∷ names) zero v (suc i) h = ground arith
lookup-set (o ∷ names) (suc n) v zero h = ground arith
lookup-set (o ∷ names) (suc n) v (suc i) h = ground (arith, lookup-set names n v i (omega arith))

-- The array once it is long enough.
grown : List (Option ℕ) → ℕ → List (Option ℕ)
grown names num =
    if leb (length names) num then names ++ replicate (num + 1 - length names) none else names

length-grown : (names : List (Option ℕ)) (num : ℕ) → num < length (grown names num)
unfolding grown
length-grown names num = elim (Bool-cases (leb (length names) num)) [
  | inl e ↦
      let no_name : Option ℕ = none in
      rw e (
        omega (
          arith,
          length-append names (replicate (num + 1 - length names) no_name),
          length-replicate (num + 1 - length names) no_name,
        ))
  | inr e ↦ rw e (ground arith)
]

lookup-grown : (names : List (Option ℕ)) (num i : ℕ) → lookup (grown names num) i ≡ lookup names i
unfolding grown
lookup-grown names num i = elim (Bool-cases (leb (length names) num)) [
  | inl e ↦ rw e (lookup-append names (num + 1 - length names) i)
  | inr e ↦ rw e
]

put : List (Option ℕ) → (num name : ℕ) → Option (Option ℕ) → Result (List (Option ℕ))
put names num name none = err fault
put names num name (some slot) = elim slot [
  | some old ↦ err duplicate_block_file
  | none ↦ ok (set names num (some name))
]

-- Where the number after `num` is an unsigned int too, the array grows to hold it.
resized :
    (names : List (Option ℕ)) (num : ℕ)
    → num + 1 < 2 ^ 32
    → (if leb (length names) num then resize names ((num + 1) % 2 ^ 32) else ok names)
      ≡ ok (grown names num)
unfolding grown
resized names num h = elim (Bool-cases (leb (length names) num)) [
  | inl e ↦
      let small : (num + 1) % 2 ^ 32 ≡ num + 1 = omega arith in
      let fits : leb (length names) (num + 1) ≡ true = ground arith in rw (e, small, fits)
  | inr e ↦ rw e
]

-- The array holds the number.
resized_inside :
    (names : List (Option ℕ)) (num : ℕ)
    → num < length names
    → (if leb (length names) num then resize names ((num + 1) % 2 ^ 32) else ok names)
      ≡ ok (grown names num)
unfolding grown
resized_inside names num h = let long : leb (length names) num ≡ false = ground arith in rw long

-- Behind the last unsigned int the size is 0.
add_name_wraps :
    (names : List (Option ℕ)) (num name : ℕ)
    → num + 1 ≡ 2 ^ 32
    → length names ≤ num
    → add_name names num name ≡ err fault
unfolding add_name
add_name_wraps [] num name last short =
    let e : leb 0 num ≡ true = ground arith in
    let wrapped : (num + 1) % 2 ^ 32 ≡ 0 = omega arith in rw (e, wrapped)
add_name_wraps (o ∷ names) num name last short =
    let e : leb (suc (length names)) num ≡ true = ground arith in
    let wrapped : (num + 1) % 2 ^ 32 ≡ 0 = omega arith in
    let past : leb (suc (length names)) 0 ≡ false = ground arith in rw (e, wrapped, past)

-- What `add_name` does once the array holds the number.
add_name-grown :
    (names : List (Option ℕ)) (num name i : ℕ)
    → (if leb (length names) num then resize names ((num + 1) % 2 ^ 32) else ok names)
      ≡ ok (grown names num)
    → ((names' : List (Option ℕ)) × (add_name names num name ≡ ok names')
        × (lookup names num ≡ none)
        × (lookup names' i ≡ (if i == num then some name else lookup names i)))
      ⊎ ((old : ℕ) × (lookup names num ≡ some old)
          × (add_name names num name ≡ err duplicate_block_file))
unfolding add_name put
add_name-grown names num name i resizes =
    let (slot, e) = get_elem?-exists (grown names num) num (length-grown names num) in
    let puts : add_name names num name ≡ put (grown names num) num name (some slot) =
      >>=-ok _ resizes ∙ >>=-ok _ (ap (λ o. or_fail o fault) e) in
    let here : lookup names num ≡ slot =
      sym (lookup-grown names num num) ∙ lookup-get_elem? (grown names num) num slot e in
    elim (Option-cases slot) [
      | inl free ↦ inl (
        set (grown names num) num (some name),
        puts ∙ rw free,
        here ∙ free,
        lookup-set (grown names num) num (some name) i (length-grown names num)
            ∙ rw (lookup-grown names num i),
      )
      | inr (old, taken) ↦ inr (old, here ∙ taken, puts ∙ rw taken)
    ]

-- `add_name` of a number that is an unsigned int puts the name at the number and changes no other,
-- where there was none; where there was one it stops. For the last unsigned int, if the array does not
-- hold it, it writes or reads outside of the array.
pub add_name_total :
    (names : List (Option ℕ)) (num name i : ℕ)
    → num < 2 ^ 32
    → ((names' : List (Option ℕ)) × (add_name names num name ≡ ok names')
        × (lookup names num ≡ none)
        × (lookup names' i ≡ (if i == num then some name else lookup names i)))
      ⊎ (((old : ℕ) × (lookup names num ≡ some old)
            × (add_name names num name ≡ err duplicate_block_file))
          ⊎ ((num + 1 ≡ 2 ^ 32) × (length names ≤ num) × (add_name names num name ≡ err fault)))
add_name_total names num name i h = elim (dec_le (length names) num) [
  | no inside ↦ outcome (add_name-grown names num name i (resized_inside names num (omega arith)))
  | yes short ↦ elim (dec_le (2 ^ 32) (num + 1)) [
    | yes last ↦
        let wraps : num + 1 ≡ 2 ^ 32 = omega arith in
        inr (inr (wraps, short, add_name_wraps names num name wraps short))
    | no more ↦ outcome (add_name-grown names num name i (resized names num (omega arith)))
  ]
]
  where
    outcome : {A B C : Type 0} → A ⊎ B → A ⊎ (B ⊎ C)
    outcome (inl a) = inl a
    outcome (inr b) = inr (inl b)

-- The path of the entry with the number `i`.
abbrev pub path_of :
    (strreg : ℕ → Option ℕ) (path_join : ℕ → ℕ) → (entries : List ℕ) → (i : ℕ) → Option ℕ
path_of strreg path_join [] i = none
path_of strreg path_join (ent ∷ entries) i = elim (strreg ent) [
  | none ↦ path_of strreg path_join entries i
  | some num ↦
      if i == num % 2 ^ 32 then some (path_join ent) else path_of strreg path_join entries i
]

abbrev pub or_else : Option ℕ → Option ℕ → Option ℕ
or_else none o = o
or_else (some name) o = some name

abbrev Named : (names : List (Option ℕ)) → (i : ℕ) → Option ℕ → List (Option ℕ) → Type 0
Named names i path names' = lookup names' i ≡ or_else (lookup names i) path

or_else-none : (o : Option ℕ) → o ≡ or_else o none
or_else-none none = refl
or_else-none (some name) = refl

-- A name that is added at `num`, and what is found behind it.
or_else-added :
    (before after path : Option ℕ) (i num name : ℕ)
    → (i ≡ num → before ≡ none)
    → after ≡ (if i == num then some name else before)
    → or_else after path ≡ or_else before (if i == num then some name else path)
or_else-added before after path i num name free e = elim (Bool-cases (i == num)) [
  | inl h ↦ let none_before = free ((==_iff i num).0 h) in rw (e, h, none_before)
  | inr h ↦ rw (e, h)
]

block_filenames_from-Named :
    (strreg : ℕ → Option ℕ) (path_join : ℕ → ℕ) (names : List (Option ℕ)) (entries : List ℕ) (i : ℕ)
    → Holds
        (Named names i (path_of strreg path_join entries i))
        (block_filenames_from strreg path_join names entries)
unfolding block_filenames_from
block_filenames_from-Named strreg path_join names [] i =
    Holds-ok (Named names i none) names (or_else-none (lookup names i))
block_filenames_from-Named strreg path_join names (ent ∷ entries) i =
    go (λ names. block_filenames_from-Named strreg path_join names entries i) (strreg ent)
  where
    go :
        ((names : List (Option ℕ))
          → Holds
              (Named names i (path_of strreg path_join entries i))
              (block_filenames_from strreg path_join names entries))
        → (o : Option ℕ)
        → Holds
            (Named names i (elim o [
              | none ↦ path_of strreg path_join entries i
              | some num ↦
                  if i == num % 2 ^ 32
                  then some (path_join ent)
                  else path_of strreg path_join entries i
            ]))
            (elim o [
              | none ↦ block_filenames_from strreg path_join names entries
              | some num ↦ add_name names (num % 2 ^ 32) (path_join ent) >>= λ names.
                  block_filenames_from strreg path_join names entries
            ])
    go rest none = rest names
    go rest (some num) =
        elim (add_name_total names (num % 2 ^ 32) (path_join ent) i (omega arith)) [
          | inr (inl (old, taken, stop)) ↦ rw stop (Holds-err _ duplicate_block_file)
          | inr (inr (last, short, stop)) ↦ rw stop (Holds-err _ fault)
          | inl (names', run, free, at_i) ↦ rw run (
              Holds-mono (Named names' i (path_of strreg path_join entries i)) _
                (block_filenames_from strreg path_join names' entries)
                (λ r h.
                  h
                  ∙ or_else-added (lookup names i) (lookup names' i)
                      (path_of strreg path_join entries i) i (num % 2 ^ 32) (path_join ent)
                      (λ same. rw same free) at_i)
                (rest names'))
        ]

-- A reading of the directory that ends well gives an array in which the name at each number is the
-- path of the entry with that number, and there is none where no entry has the number.
pub block_filenames_from-path_of :
    (strreg : ℕ → Option ℕ) (path_join : ℕ → ℕ) (entries : List ℕ) (names : List (Option ℕ)) (i : ℕ)
    → block_filenames_from strreg path_join [] entries ≡ ok names
    → lookup names i ≡ path_of strreg path_join entries i
block_filenames_from-path_of strreg path_join entries names i run =
    Holds_at (Named [] i (path_of strreg path_join entries i))
      (block_filenames_from strreg path_join [] entries) names
      (block_filenames_from-Named strreg path_join [] entries i) run
