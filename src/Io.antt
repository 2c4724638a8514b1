-- ===== src/Io.antt =====
-- The files of io.c. `disk` is what the file behind the descriptor holds, and `mmap` is the memory
-- that is mapped for it, up to the end of its last page, or NULL.
pub mod Modes
use bitcoin_iterate.Prelude.{
  ℕ, zero, suc, ◌+◌, ◌-◌, ◌*◌, ◌/◌, ◌%◌, ◌^◌, ◌≡◌, Bool, true, false, Option, none, some, List, [],
  ◌∷◌, ◌++◌, length, get_elem?, leb, ltb, ◌==◌, if◌then◌else◌, Result, ok, err, ◌>>=◌, ◌>>◌, guard,
  or_fail, short_read, short_write, short_append, cannot_open, cannot_truncate, cannot_stat,
  assert_failed, fault, out_of_fuel,
}
use bitcoin_iterate.Prelude.Bytes.{read_at}

pub record File : Type 0 where
  pub name : ℕ
  pub is_open : Bool
  pub len : ℕ
  pub mmap : Option (List ℕ)
  pub disk : List ℕ

-- The bytes that a pointer into the file shows: the mapping, or what pread copies.
abbrev pub memory : File → List ℕ
memory f = elim f.mmap [ some m ↦ m | none ↦ f.disk ]

-- The first `n` bytes, with zeros where there are fewer.
unfoldable pub take_pad : ℕ → List ℕ → List ℕ
take_pad zero xs = []
take_pad (suc n) [] = 0 ∷ take_pad n []
take_pad (suc n) (x ∷ xs) = x ∷ take_pad n xs

unfoldable pub round_up : ℕ → ℕ → ℕ
round_up page n = (n + page - 1) / page * page

-- mmap(2) of `n` bytes: whole pages, with zeros behind the end of the file; nothing to map is an
-- error, and it may fail for other reasons (`maps` is false). MAP_FAILED becomes NULL.
unfoldable pub map_file : ℕ → Bool → ℕ → List ℕ → Option (List ℕ)
map_file page maps n disk =
    if maps then (if n == 0 then none else some (take_pad (round_up page n) disk)) else none

-- `off + size` is a size_t. The caller reads `size` bytes at the pointer that this returns.
unfoldable pub file_read : File → ℕ → ℕ → Result (List ℕ)
file_read f off size = elim f.mmap [
  | some m ↦ do
    guard (leb ((off + size) % 2 ^ 64) f.len) assert_failed
    or_fail (read_at m off size) fault
  | none ↦ or_fail (read_at f.disk off size) short_read
]

-- pwrite(2): bytes between the end and `off` become zeros.
unfoldable pub overwrite : List ℕ → ℕ → List ℕ → List ℕ
overwrite disk zero [] = disk
overwrite [] zero (b ∷ bs) = b ∷ overwrite [] zero bs
overwrite (x ∷ disk) zero (b ∷ bs) = b ∷ overwrite disk zero bs
overwrite disk (suc off) [] = disk
overwrite [] (suc off) (b ∷ bs) = 0 ∷ overwrite [] off (b ∷ bs)
overwrite (x ∷ disk) (suc off) (b ∷ bs) = x ∷ overwrite disk off (b ∷ bs)

-- `writes` says whether pwrite takes all bytes.
unfoldable pub file_write : Bool → File → ℕ → List ℕ → Result File
file_write writes f off buf = elim f.mmap [
  | some m ↦ do guard (leb ((off + length buf) % 2 ^ 64) f.len) assert_failed; ok f
  | none ↦ do guard writes short_write; ok (record f { disk = overwrite f.disk off buf })
]

unfoldable pub file_append : (page : ℕ) (writes maps : Bool) → File → List ℕ → Result File
file_append page writes maps f buf = do
  guard writes short_append
  let disk' = overwrite f.disk f.len buf
  let mapped : Option (List ℕ) = elim f.mmap [
    | none ↦ none
    | some m ↦ map_file page maps (length buf) disk'
  ]
  ok (record f { len = f.len + length buf; mmap = mapped; disk = disk' })

-- ftruncate(2), and `while (len > sizeof(bytes))`: the 4096 bytes of `bytes` are written again and
-- again from the start, and the last chunk is left out.
unfoldable pub fill : ℕ → List ℕ → (len done : ℕ) → List ℕ → Result (List ℕ)
fill zero bytes len done disk = err out_of_fuel
fill (suc fuel) bytes len done disk = elim (ltb 4096 len) [
  | true ↦ fill fuel bytes (len - 4096) (done + 4096) (overwrite disk done bytes)
  | false ↦ ok disk
]

pub record OpenFlags : Type 0 where
  pub no_mmap : Bool

-- `found` is what the file holds that open(2) finds or creates, `none` if it fails; `sizes` says
-- whether ftruncate and fstat succeed, `bytes` is the buffer on the stack, which nothing sets.
unfoldable pub file_open :
    (page : ℕ) (maps sizes : Bool) (bytes : List ℕ) (found : Option (List ℕ))
    → (name len : ℕ) → OpenFlags
    → Result File
file_open page maps sizes bytes found name len oflags = do
  disk ← or_fail found cannot_open
  disk' ←
      if len == 0
      then ok disk
      else (do guard sizes cannot_truncate; fill (len + 1) bytes len 0 (take_pad len disk))
  guard sizes cannot_stat
  ok (record {
    name = name;
    is_open = true;
    len = length disk';
    mmap = if oflags.no_mmap then none else map_file page maps (round_up page (length disk')) disk';
    disk = disk';
  })

unfoldable pub file_close : File → File
file_close f = record f { is_open = false }
