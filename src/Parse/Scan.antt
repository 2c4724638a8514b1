-- ===== src/Parse/Scan.antt =====
-- The search for the next block header.
use native.Mathlib.Decide.{dec_le}
use bitcoin_iterate.Prelude.{
  ℕ, zero, suc, ◌+◌, ◌-◌, ◌≤◌, ◌<◌, ◌≡◌, refl, ◌⊎◌, inl, inr, Bool, true, false, some, List, arith,
  leb, ◌==◌, ==_iff, Bool-cases, if◌then◌else◌, Result, ok,
}
use bitcoin_iterate.Prelude.Bytes.{read_at, of_le}
use bitcoin_iterate.Io.{File}
use bitcoin_iterate.Io.Modes.{IsOpen, read_at-exists, read_at-none}
use bitcoin_iterate.Parse.{scan_header_prefix, next_block_header_prefix}
use bitcoin_iterate.Parse.Words.{pull_u32-read_at}

-- The four bytes of the file at `i` are there and stand for the marker.
abbrev pub Marked : File → ℕ → ℕ → Type 0
Marked f marker i = (bs : List ℕ) × (read_at f.disk i 4 ≡ some bs) × (of_le bs ≡ marker)

-- No place from `lo` on and below `hi` is marked; none from `lo` on.
abbrev pub NoneBetween : File → (marker lo hi : ℕ) → Type 0
NoneBetween f marker lo hi = (i : ℕ) → lo ≤ i → i < hi → ¬ Marked f marker i

abbrev pub NoneFrom : File → (marker lo : ℕ) → Type 0
NoneFrom f marker lo = (i : ℕ) → lo ≤ i → ¬ Marked f marker i

-- The outcome of a search from `off` on.
abbrev pub Outcome : File → (marker off : ℕ) → Result (Bool × ℕ) → Type 0
Outcome f marker off r =
    ((off' : ℕ) × (r ≡ ok (true, off'))
      × (off ≤ off')
      × Marked f marker off'
      × NoneBetween f marker off off')
    ⊎ ((off' : ℕ) × (r ≡ ok (false, off')) × NoneFrom f marker off)

module _ (f : File) (is : IsOpen f) (marker : ℕ) where
  past_end : (off : ℕ) → f.len < off + 4 → NoneFrom f marker off
  past_end off h i le (bs, e, _) = cc (e, read_at-none f.disk i 3 (omega (arith, is.len)))

  below_end : (off : ℕ) → off + 4 ≤ f.len → (bs : List ℕ) × (read_at f.disk off 4 ≡ some bs)
  below_end off h = read_at-exists f.disk off 4 (omega (arith, is.len))

  unmarked :
      (off : ℕ) (bs : List ℕ)
      → read_at f.disk off 4 ≡ some bs
      → (of_le bs == marker) ≡ false
      → ¬ Marked f marker off
  unmarked off bs e ne (cs, e', m) =
      let same : cs ≡ bs = cc in cc (m, ne, (==_iff (of_le bs) marker).1 (rw (← same) m))

  step_back :
      (off : ℕ) (r : Result (Bool × ℕ))
      → ¬ Marked f marker off
      → Outcome f marker (off + 1) r
      → Outcome f marker off r
  step_back off r here (inl (off', e, le, m, none_between)) = inl (
    off',
    e,
    omega arith,
    m,
    λ i lo hi. elim (dec_le (off + 1) i) [
      | yes h ↦ none_between i h hi
      | no h ↦ let same : i ≡ off = omega arith in rw same here
    ],
  )
  step_back off r here (inr (off', e, none_from)) = inr (
    off',
    e,
    λ i lo. elim (dec_le (off + 1) i) [
      | yes h ↦ none_from i h
      | no h ↦ let same : i ≡ off = omega arith in rw same here
    ],
  )

  -- One round of the loop.
  module _ (fuel off : ℕ) where
    at_end :
        leb (off + 4) f.len ≡ false → scan_header_prefix (suc fuel) f off marker ≡ ok (false, off)
    unfolding scan_header_prefix
    at_end b = rw (scan_header_prefix, b)

    round :
        (bs : List ℕ)
        → leb (off + 4) f.len ≡ true
        → read_at f.disk off 4 ≡ some bs
        → scan_header_prefix (suc fuel) f off marker ≡ (
            if of_le bs == marker
            then ok (true, off)
            else scan_header_prefix fuel f (off + 1) marker)
    unfolding scan_header_prefix
    round bs b e = ground (arith, pull_u32-read_at f off is bs e)

  pub scan_header_prefix-Outcome :
      (fuel off : ℕ)
      → 0 < fuel
      → f.len < off + fuel
      → Outcome f marker off (scan_header_prefix fuel f off marker)
  scan_header_prefix-Outcome zero off pos h = absurd (omega arith)
  scan_header_prefix-Outcome (suc fuel) off pos h = elim (Bool-cases (leb (off + 4) f.len)) [
    | inr b ↦ rw (at_end fuel off b) (inr (off, refl, past_end off (ground arith)))
    | inl b ↦
        let (bs, e) = below_end off (ground arith) in
        rw (round fuel off bs b e) (elim (Bool-cases (of_le bs == marker)) [
          | inl hit ↦ rw hit (
              inl (
                off,
                refl,
                omega arith,
                (bs, e, (==_iff (of_le bs) marker).0 hit),
                λ i lo hi. absurd (omega arith),
              ))
          | inr miss ↦ rw miss (
              step_back off _ (unmarked off bs e miss)
                (scan_header_prefix-Outcome fuel (off + 1) (ground arith) (omega arith)))
        ])
  ]

-- None of `n` places from `lo` on is marked.
abbrev pub Unmarked : File → (marker lo n : ℕ) → Type 0
Unmarked f marker lo zero = Unit {0}
Unmarked f marker lo (suc n) = (¬ Marked f marker lo) × Unmarked f marker (lo + 1) n

NoneBetween-Unmarked :
    (f : File) (marker lo n : ℕ) → NoneBetween f marker lo (lo + n) → Unmarked f marker lo n
NoneBetween-Unmarked f marker lo zero h = tt
NoneBetween-Unmarked f marker lo (suc n) h = (
  h lo (omega arith) (omega arith),
  NoneBetween-Unmarked f marker (lo + 1) n (λ i a b. h i (omega arith) (omega arith)),
)

-- The search ends. It stops at the first place from `off` on that is marked, or says that there is
-- none, where none of as many places as the file has bytes is marked.
pub next_block_header_prefix-first :
    (f : File) (marker off : ℕ)
    → IsOpen f
    → ((n : ℕ) × (next_block_header_prefix f off marker ≡ ok (true, off + n))
        × Marked f marker (off + n)
        × Unmarked f marker off n)
      ⊎ ((off' : ℕ) × (next_block_header_prefix f off marker ≡ ok (false, off'))
          × Unmarked f marker off f.len)
unfolding next_block_header_prefix
next_block_header_prefix-first f marker off is =
    elim (scan_header_prefix-Outcome f is marker (f.len + 1) off (omega arith) (omega arith)) [
      | inl (off', e, le, m, before) ↦
          let same : off' ≡ off + (off' - off) = omega arith in
          inl (
            off' - off,
            rw (← same) e,
            rw (← same) m,
            NoneBetween-Unmarked f marker off (off' - off) (rw (← same) before),
          )
      | inr (off', e, none_from) ↦
          inr (off', e, NoneBetween-Unmarked f marker off f.len (λ i a b. none_from i a))
    ]
