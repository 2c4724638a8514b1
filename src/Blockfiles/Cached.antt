-- ===== src/Blockfiles/Cached.antt =====
-- The two files that `block_file` keeps open.
use bitcoin_iterate.Prelude.{
  ℕ, ◌≡◌, refl, ap, ◌∙◌, Bool, Option, none, some, List, get_elem?, ◌==◌, Result, ok, err, Failure,
  ◌>>=◌, or_fail, fault, arith, Option-cases, Bool-cases, inl, inr,
}
use bitcoin_iterate.Io.{File, file_open}
use bitcoin_iterate.Blockfiles.{
  System, Slots, open_file, block_file, find_slot, slot_hit, store_slot,
}

-- A slot is empty or holds the file that opening its name gives.
abbrev pub IsCached : System → Bool → Option File → Type 0
IsCached sys use_mmap none = Unit {0}
IsCached sys use_mmap (some f) = open_file sys use_mmap f.name ≡ ok f

pub record IsSlots (sys : System) (use_mmap : Bool) (slots : Slots) : Type 0 where
  pub first : IsCached sys use_mmap slots.first
  pub second : IsCached sys use_mmap slots.second

-- What `block_file` does without slots.
unfoldable pub open_index : System → List (Option ℕ) → (index : ℕ) → (use_mmap : Bool) → Result File
open_index sys block_fnames index use_mmap = do
  entry ← or_fail (get_elem? block_fnames index) fault
  name ← or_fail entry fault
  open_file sys use_mmap name

open_file-name :
    (sys : System) (use_mmap : Bool) (name : ℕ) (f : File)
    → open_file sys use_mmap name ≡ ok f
    → f.name ≡ name
unfolding open_file file_open
open_file-name sys use_mmap name f h = elim (Option-cases (sys.contents name)) [
  | inl e ↦ ground arith
  | inr (disk, e) ↦ elim (Bool-cases sys.sizes) [ inl e' ↦ ground arith | inr e' ↦ ground arith ]
]

-- What a call of `block_file` gives, compared with what opening the file would give.
abbrev pub Served : System → Bool → Result (File × Slots) → Result File → Type 0
Served sys use_mmap (ok (f, slots)) opened = (opened ≡ ok f) × IsSlots sys use_mmap slots
Served sys use_mmap (err e) opened = opened ≡ err e

pub Served-ok :
    (sys : System) (use_mmap : Bool) (f : File) (r : Result (File × Slots)) (opened : Result File)
    → opened ≡ ok f
    → Served sys use_mmap r opened
    → (slots : Slots) × (r ≡ ok (f, slots)) × IsSlots sys use_mmap slots
Served-ok sys use_mmap f (ok (g, slots)) opened o (e, is) =
    let same : g ≡ f = ground arith in (slots, ap (λ x. ok (x, slots)) same, is)
Served-ok sys use_mmap f (err stop) opened o e = cc

pub Served-err :
    (sys : System) (use_mmap : Bool) (stop : Failure) (r : Result (File × Slots))
    (opened : Result File)
    → opened ≡ err stop
    → Served sys use_mmap r opened
    → r ≡ err stop
Served-err sys use_mmap stop (ok (g, slots)) opened o (e, is) = cc
Served-err sys use_mmap stop (err other) opened o e =
    let same : other ≡ stop = ground arith in ap (λ x. err x) same

slot_hit-IsCached :
    (sys : System) (use_mmap : Bool) (slot : Option File) (name : ℕ) (f : File)
    → IsCached sys use_mmap slot
    → slot_hit slot name ≡ some f
    → open_file sys use_mmap name ≡ ok f
slot_hit-IsCached sys use_mmap none name f c h = cc
slot_hit-IsCached sys use_mmap (some g) name f c h = ground arith

find_slot-IsCached :
    (sys : System) (use_mmap : Bool) (slots : Slots) (name : ℕ) (f : File)
    → IsSlots sys use_mmap slots
    → find_slot slots name ≡ some f
    → open_file sys use_mmap name ≡ ok f
find_slot-IsCached sys use_mmap slots name f is h =
    elim (Option-cases (slot_hit slots.first name)) [
      | inl e ↦
          slot_hit-IsCached sys use_mmap slots.second name f is.second (rw (find_slot, e) at h)
      | inr (g, e) ↦
          slot_hit-IsCached sys use_mmap slots.first name f is.first (e ∙ rw (find_slot, e) at h)
    ]

store_slot-IsSlots :
    (sys : System) (use_mmap : Bool) (slots : Slots) (f : File)
    → IsSlots sys use_mmap slots
    → IsCached sys use_mmap (some f)
    → IsSlots sys use_mmap (store_slot slots f)
store_slot-IsSlots sys use_mmap slots f is c = elim (Bool-cases (slots.next == 0)) [
  | inl e ↦ rw e (record { first = c; second = is.second })
  | inr e ↦ rw e (record { first = is.first; second = c })
]

serve :
    (sys : System) (use_mmap : Bool) (slots : Slots) (name : ℕ) (found : Option File)
    → find_slot slots name ≡ found
    → IsSlots sys use_mmap slots
    → Served sys use_mmap
        (elim found [
          | some f ↦ ok (f, slots)
          | none ↦ do f ← open_file sys use_mmap name; ok (f, store_slot slots f)
        ])
        (open_file sys use_mmap name)
serve sys use_mmap slots name (some f) e is =
    (find_slot-IsCached sys use_mmap slots name f is e, is)
serve sys use_mmap slots name none e is = go (open_file sys use_mmap name) refl
  where
    go :
        (r : Result File)
        → open_file sys use_mmap name ≡ r
        → Served sys use_mmap (r >>= λ f. ok (f, store_slot slots f)) r
    go (err x) e = refl
    go (ok f) e = (
      refl,
      store_slot-IsSlots sys use_mmap slots f is
          (ap (open_file sys use_mmap) (open_file-name sys use_mmap name f e) ∙ e),
    )

-- The two slots are never seen: with slots that hold what opening their names gives, `block_file`
-- gives the file, or fails, as opening the file at each call would, and the slots stay so.
pub block_file-open_index :
    (sys : System) (block_fnames : List (Option ℕ)) (index : ℕ) (use_mmap : Bool) (slots : Slots)
    → IsSlots sys use_mmap slots
    → Served sys use_mmap
        (block_file sys block_fnames index use_mmap slots)
        (open_index sys block_fnames index use_mmap)
unfolding open_index block_file
block_file-open_index sys block_fnames index use_mmap slots is = go (get_elem? block_fnames index)
  where
    go :
        (entry : Option (Option ℕ))
        → Served sys use_mmap
            (or_fail entry fault >>= λ entry. or_fail entry fault >>= λ name.
              elim (find_slot slots name) [
                | some f ↦ ok (f, slots)
                | none ↦ do f ← open_file sys use_mmap name; ok (f, store_slot slots f)
              ])
            (or_fail entry fault >>= λ entry.
              or_fail entry fault >>= λ name. open_file sys use_mmap name)
    go none = refl
    go (some none) = refl
    go (some (some name)) = serve sys use_mmap slots name (find_slot slots name) refl is
