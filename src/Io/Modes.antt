-- ===== src/Io/Modes.antt =====
-- Reading a file through its mapping and by pread.
use bitcoin_iterate.Prelude.{
  ℕ, zero, suc, ◌+◌, ◌≤◌, ◌<◌, ◌≡◌, refl, Bool, true, false, Option, none, some, List, [], ◌∷◌,
  length, get_elem?, get_elem?-lt, le→leb, ◌==◌, if◌then◌else◌, ok, arith, Bool-cases, inl, inr,
  short_read, assert_failed, fault, Failure, leb, ◌%◌, ◌^◌, get_elem?-exists, Option-cases,
}
use native.Mathlib.Nat.{le_trans}
use bitcoin_iterate.Prelude.Bytes.{Reads, read_at, read_at-Reads, Reads-read_at}
use bitcoin_iterate.Io.{File, memory, OpenFlags, take_pad, round_up, map_file, file_read, file_open}

-- The mapping shows at least what the file holds.
abbrev pub Maps : Option (List ℕ) → List ℕ → Type 0
Maps none disk = Unit {0}
Maps (some m) disk = (i b : ℕ) → get_elem? disk i ≡ some b → get_elem? m i ≡ some b

-- What holds of a file from `file_open` on: its length is the file's, and a mapping covers it.
pub record IsOpen (f : File) : Type 0 where
  pub len : f.len ≡ length f.disk
  pub maps : Maps f.mmap f.disk

pub Reads-Maps :
    (m disk : List ℕ) (off : ℕ) (bs : List ℕ)
    → Maps (some m) disk
    → Reads disk off bs
    → Reads m off bs
Reads-Maps m disk off [] maps r = tt
Reads-Maps m disk off (b ∷ bs) maps r = (maps off b r.0, Reads-Maps m disk (off + 1) bs maps r.1)

pub Reads-memory :
    (f : File) (off : ℕ) (bs : List ℕ) → IsOpen f → Reads f.disk off bs → Reads (memory f) off bs
Reads-memory f off bs is r = go f.mmap is.maps
  where
    go :
        (o : Option (List ℕ)) → Maps o f.disk → Reads (elim o [ some m ↦ m | none ↦ f.disk ]) off bs
    go none maps = r
    go (some m) maps = Reads-Maps m f.disk off bs maps r

pub Reads-end :
    (xs : List ℕ) (off : ℕ) (b : ℕ) (bs : List ℕ)
    → Reads xs off (b ∷ bs)
    → off + suc (length bs) ≤ length xs
Reads-end xs off b [] r = omega (arith, get_elem?-lt xs off b r.0)
Reads-end xs off b (c ∷ bs) r = omega (arith, Reads-end xs (off + 1) c bs r.1)

get_elem?-take_pad :
    (n : ℕ) (xs : List ℕ) (i b : ℕ)
    → length xs ≤ n
    → get_elem? xs i ≡ some b
    → get_elem? (take_pad n xs) i ≡ some b
unfolding take_pad
get_elem?-take_pad n [] i b h e = cc
get_elem?-take_pad zero (x ∷ xs) i b h e = absurd (omega arith)
get_elem?-take_pad (suc n) (x ∷ xs) zero b h e = e
get_elem?-take_pad (suc n) (x ∷ xs) (suc i) b h e = get_elem?-take_pad n xs i b (omega arith) e

round_up-le : (page n : ℕ) → 0 < page → n ≤ round_up page n
unfolding round_up
round_up-le page n h = grind arith

map_file-Maps :
    (page : ℕ) (maps : Bool) (n : ℕ) (disk : List ℕ)
    → 0 < page
    → length disk ≤ n
    → Maps (map_file page maps n disk) disk
unfolding map_file
map_file-Maps page false n disk hp h = tt
map_file-Maps page true n disk hp h = elim (Bool-cases (n == 0)) [
  | inl z ↦ rw z tt
  | inr p ↦ rw p (λ i b e.
      get_elem?-take_pad (round_up page n) disk i b (le_trans h (round_up-le page n hp)) e)
]

-- A file opened for reading, with no truncation, is the file found, with a mapping that covers it.
pub file_open-IsOpen :
    (page : ℕ) (maps : Bool) (bytes disk : List ℕ) (name : ℕ) (oflags : OpenFlags)
    → 0 < page
    → (f : File) × (file_open page maps true bytes (some disk) name 0 oflags ≡ ok f)
      × IsOpen f
      × (f.disk ≡ disk)
      × (f.name ≡ name)
unfolding file_open
file_open-IsOpen page maps bytes disk name oflags hp = go oflags.no_mmap
  where
    go :
        (b : Bool)
        → (f : File) × (ok (record {
          name = name;
          is_open = true;
          len = length disk;
          mmap = if b then none else map_file page maps (round_up page (length disk)) disk;
          disk = disk;
        })
            ≡ ok f)
          × IsOpen f
          × (f.disk ≡ disk)
          × (f.name ≡ name)
    go true = (_, refl, record { len = refl; maps = tt }, refl, refl)
    go false = (
      _,
      refl,
      record {
        len = refl;
        maps = map_file-Maps page maps _ disk hp (round_up-le page (length disk) hp);
      },
      refl,
      refl,
    )

pub read_at-exists :
    (xs : List ℕ) (off n : ℕ) → off + n ≤ length xs → (bs : List ℕ) × (read_at xs off n ≡ some bs)
unfolding read_at
read_at-exists xs off zero h = ([], refl)
read_at-exists xs off (suc n) h =
    let (b, e) = get_elem?-exists xs off (omega arith) in
    let (bs, e') = read_at-exists xs (off + 1) n (omega arith) in (b ∷ bs, ground arith)

pub read_at-none :
    (xs : List ℕ) (off n : ℕ) → length xs < off + suc n → read_at xs off (suc n) ≡ none
read_at-none xs off n h = elim (Option-cases (read_at xs off (suc n))) [
  | inl e ↦ e
  | inr (bs, e) ↦ absurd (past bs (Reads-read_at xs off (suc n) bs e))
]
  where
    past : (bs : List ℕ) → Reads xs off bs × (length bs ≡ suc n) → ⊥
    past [] r = omega arith
    past (b ∷ bs) r = omega (arith, Reads-end xs off b bs r.0)

-- `file_read` on bytes that stand in the file returns them, mapped or not.
pub file_read-Reads :
    (f : File) (off : ℕ) (bs : List ℕ)
    → IsOpen f
    → off + length bs ≤ f.len
    → Reads f.disk off bs
    → file_read f off (length bs) ≡ ok bs
unfolding file_read
file_read-Reads f off bs is h r = go f.mmap is.maps
  where
    go :
        (o : Option (List ℕ))
        → Maps o f.disk
        → file_read (record f { mmap = o }) off (length bs) ≡ ok bs
    go none maps = rw (read_at-Reads f.disk off bs r)
    go (some m) maps =
        let wrapped : (off + length bs) % 2 ^ 64 ≤ f.len = omega arith in
        rw (le→leb _ _ wrapped, read_at-Reads m off bs (Reads-Maps m f.disk off bs maps r))

-- How `file_read` ends on a range that passes the end of the file.
abbrev pub refused : File → (off size : ℕ) → Failure
refused f off size = elim f.mmap [
  | some m ↦ if leb ((off + size) % 2 ^ 64) f.len then fault else assert_failed
  | none ↦ short_read
]
