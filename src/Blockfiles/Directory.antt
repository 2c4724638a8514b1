-- ===== src/Blockfiles/Directory.antt =====
-- The directory of the block files: `block_filenames` of blockfiles.c as a whole.
use bitcoin_iterate.Prelude.{
  ℕ, ◌≡◌, refl, sym, ◌∙◌, ap, Bool, Option, none, some, List, [], ◌∷◌, if◌then◌else◌, Result, ok,
  err, ◌>>=◌, or_fail, >>=-ok, no_home, no_blocks_dir, Failure, Option-cases, inl, inr, ◌⊎◌,
}
use bitcoin_iterate.Blockfiles.{block_filenames_from}
use bitcoin_iterate.Blockfiles.Names.{lookup, path_of, block_filenames_from-path_of}

-- What the system has: the variable HOME, the home directory of the user's entry, the entries of the
-- directories that can be opened, and what the libraries make of names. `file_at` is the path of an
-- entry.
pub record Places : Type 0 where
  pub home : Option (List ℕ)
  pub pw_dir : Option (List ℕ)
  pub opendir : List ℕ → Option (List ℕ)
  pub path_join : List ℕ → List ℕ → List ℕ
  pub file_at : List ℕ → ℕ → ℕ
  pub strreg : ℕ → Option ℕ

-- ".bitcoin", "testnet3" and "blocks"
abbrev pub bitcoin_dir_name : List ℕ
bitcoin_dir_name = b'.' ∷ b'b' ∷ b'i' ∷ b't' ∷ b'c' ∷ b'o' ∷ b'i' ∷ b'n' ∷ []

abbrev pub testnet_dir_name : List ℕ
testnet_dir_name = b't' ∷ b'e' ∷ b's' ∷ b't' ∷ b'n' ∷ b'e' ∷ b't' ∷ b'3' ∷ []

abbrev pub blocks_dir_name : List ℕ
blocks_dir_name = b'b' ∷ b'l' ∷ b'o' ∷ b'c' ∷ b'k' ∷ b's' ∷ []

abbrev pub home_base : Places → (testnet : Bool) → (base : List ℕ) → List ℕ
home_base sys testnet base =
    let base = sys.path_join base bitcoin_dir_name in
    if testnet then sys.path_join base testnet_dir_name else base

-- First the new place, then the old one.
unfoldable pub open_in_home : Places → (base : List ℕ) → Result (List ℕ × List ℕ)
open_in_home sys base = elim (sys.opendir (sys.path_join base blocks_dir_name)) [
  | some entries ↦ ok (sys.path_join base blocks_dir_name, entries)
  | none ↦ do entries ← or_fail (sys.opendir base) no_blocks_dir; ok (base, entries)
]

-- The path that is opened, with its entries.
unfoldable pub open_blocks_dir :
    Places → (path : Option (List ℕ)) → (testnet : Bool) → Result (List ℕ × List ℕ)
unfolding open_in_home
open_blocks_dir sys (some path) testnet = do
  entries ← or_fail (sys.opendir path) no_blocks_dir
  ok (path, entries)
open_blocks_dir sys none testnet = do
  base ← elim sys.home [ some base ↦ ok base | none ↦ or_fail sys.pw_dir no_home ]
  open_in_home sys (home_base sys testnet base)

unfoldable pub block_filenames :
    Places → (path : Option (List ℕ)) → (testnet : Bool) → Result (List (Option ℕ))
unfolding open_blocks_dir
block_filenames sys path testnet = do
  (path, entries) ← open_blocks_dir sys path testnet
  block_filenames_from sys.strreg (sys.file_at path) [] entries

-- The first directory of a list that can be opened.
unfoldable pub first_open :
    (opendir : List ℕ → Option (List ℕ)) → List (List ℕ) → Option (List ℕ × List ℕ)
first_open opendir [] = none
first_open opendir (dir ∷ dirs) = elim (opendir dir) [
  | none ↦ first_open opendir dirs
  | some entries ↦ some (dir, entries)
]

-- Where the blocks of a home directory may be, the likely place first.
unfoldable in_home : Places → (testnet : Bool) → (base : List ℕ) → List (List ℕ)
in_home sys testnet base =
    let top =
      if testnet
      then sys.path_join (sys.path_join base bitcoin_dir_name) testnet_dir_name
      else sys.path_join base bitcoin_dir_name in
    sys.path_join top blocks_dir_name ∷ top ∷ []

-- Where the blocks may be: at the path that is given, or in the home directory, if there is one.
unfoldable pub candidates : Places → (path : Option (List ℕ)) → (testnet : Bool) → List (List ℕ)
unfolding in_home
candidates sys (some path) testnet = path ∷ []
candidates sys none testnet = elim sys.home [
  | some base ↦ in_home sys testnet base
  | none ↦ elim sys.pw_dir [ some base ↦ in_home sys testnet base | none ↦ [] ]
]

-- What opening gives is the first of the directories that can be opened, or a failure.
Opens : Places → Result (List ℕ × List ℕ) → List (List ℕ) → Type 0
Opens sys r dirs =
    ((o : List ℕ × List ℕ) × (r ≡ ok o) × (first_open sys.opendir dirs ≡ some o))
    ⊎ ((e : Failure) × (r ≡ err e) × (first_open sys.opendir dirs ≡ none))

open_in_home-Opens :
    (sys : Places) (testnet : Bool) (base : List ℕ)
    → Opens sys (open_in_home sys (home_base sys testnet base)) (in_home sys testnet base)
unfolding Opens first_open in_home open_in_home
open_in_home-Opens sys testnet base =
    let top = home_base sys testnet base in
    elim (Option-cases (sys.opendir (sys.path_join top blocks_dir_name))) [
      | inr (entries, e) ↦ rw (open_in_home, e) (inl (_, refl, refl))
      | inl e ↦ elim (Option-cases (sys.opendir top)) [
        | inr (entries, e') ↦ rw (open_in_home, e, e') (inl (_, refl, refl))
        | inl e' ↦ rw (open_in_home, e, e') (inr (no_blocks_dir, refl, refl))
      ]
    ]

open_blocks_dir-Opens :
    (sys : Places) (path : Option (List ℕ)) (testnet : Bool)
    → Opens sys (open_blocks_dir sys path testnet) (candidates sys path testnet)
unfolding Opens open_blocks_dir first_open candidates
open_blocks_dir-Opens sys (some path) testnet = elim (Option-cases (sys.opendir path)) [
  | inl e ↦ rw e (inr (no_blocks_dir, refl, refl))
  | inr (entries, e) ↦ rw e (inl ((path, entries), refl, refl))
]
open_blocks_dir-Opens sys none testnet = go sys.home sys.pw_dir
  where
    go :
        (home pw_dir : Option (List ℕ))
        → Opens sys
            ((elim home [ some base ↦ ok base | none ↦ or_fail pw_dir no_home ]) >>= λ base.
              open_in_home sys (home_base sys testnet base))
            (elim home [
              | some base ↦ in_home sys testnet base
              | none ↦ elim pw_dir [ some base ↦ in_home sys testnet base | none ↦ [] ]
            ])
    go (some base) pw_dir = open_in_home-Opens sys testnet base
    go none (some base) = open_in_home-Opens sys testnet base
    go none none = inr (no_home, refl, refl)

-- Where none of the directories can be opened the run fails.
block_filenames_closed :
    (sys : Places) (path : Option (List ℕ)) (testnet : Bool)
    → first_open sys.opendir (candidates sys path testnet) ≡ none
    → (e : Failure) × (block_filenames sys path testnet ≡ err e)
unfolding block_filenames Opens
block_filenames_closed sys path testnet closed = elim (open_blocks_dir-Opens sys path testnet) [
  | inl (o, run, first) ↦ absurd cc
  | inr (e, stop, closed') ↦ (e, ap (λ r. r >>= next) stop)
]
  where
    next : List ℕ × List ℕ → Result (List (Option ℕ))
    next (dir, entries) = block_filenames_from sys.strreg (sys.file_at dir) [] entries

-- A reading of the names that ends well is that of the first directory, of the path that is given or of
-- the places in the home directory, that can be opened: the name at each number is the path of its
-- entry with that number, and there is none where no entry has the number.
pub block_filenames-first_open :
    (sys : Places) (path : Option (List ℕ)) (testnet : Bool) (names : List (Option ℕ)) (i : ℕ)
    → block_filenames sys path testnet ≡ ok names
    → (dir : List ℕ) × (entries : List ℕ) × (first_open sys.opendir (candidates sys path testnet)
        ≡ some (dir, entries))
      × (lookup names i ≡ path_of sys.strreg (sys.file_at dir) entries i)
unfolding block_filenames Opens
block_filenames-first_open sys path testnet names i read =
    elim (open_blocks_dir-Opens sys path testnet) [
      | inl ((dir, entries), run, first) ↦ (
        dir,
        entries,
        first,
        block_filenames_from-path_of sys.strreg (sys.file_at dir) entries names i
            (sym (>>=-ok _ run) ∙ read),
      )
      | inr (e, stop, closed) ↦
          let (e', failed) = block_filenames_closed sys path testnet closed in absurd cc
    ]
