-- ===== src/Calculations/Days.antt =====
-- Days destroyed by a transaction and days created by an output.
use Prim.Native.Nat.{min}
use bitcoin_iterate.Prelude.{
  ℕ, ◌+◌, ◌-◌, ◌*◌, ◌/◌, ◌%◌, ◌^◌, ◌≤◌, ◌<◌, ◌≡◌, refl, ◌∙◌, ◌⊎◌, inl, inr, Option, none, some,
  List, [], ◌∷◌, false, arith, leb, ltb, if◌then◌else◌, ◌==◌, Bool-cases, ok, Option-cases,
}
use bitcoin_iterate.Prelude.Int.{ℤ, pos, negsuc}
use bitcoin_iterate.Types.{Input, Transaction, Utxo}
use bitcoin_iterate.Utxo.{OutPoint, keyof_input}
use bitcoin_iterate.Calculations.{
  mul_and_add, to_days, destroyed_seconds, calculate_bdd, calculate_bdc, sub_u32,
}
use bitcoin_iterate.Calculations.Product.{mul_and_add_lem}

-- What the division by 86400 gives of a number of satoshi-seconds in two words: the code for an
-- overflow from half a day's worth of 2 ^ 64 on, and below that the quotient, less 2 ^ 17 at most.
abbrev pub Days : (seconds : ℕ) → ℤ → Type 0
Days seconds r =
    (43200 * 2 ^ 64 ≤ seconds) × (r ≡ negsuc 1)
    ⊎ (seconds < 43200 * 2 ^ 64)
      × ((d : ℕ) × (r ≡ pos d) × (d ≤ seconds / 86400) × (seconds / 86400 ≤ d + 2 ^ 17))

to_days_small :
    (over base : ℕ)
    → over < 43200
    → base < 2 ^ 64
    → let d = over * 2 ^ 47 / 86400 * 2 ^ 17 + base / 86400 in
      (to_days over base ≡ pos d)
      × (d ≤ (over * 2 ^ 64 + base) / 86400)
      × ((over * 2 ^ 64 + base) / 86400 ≤ d + 2 ^ 17)
unfolding to_days
to_days_small over base ho hb = (ground arith, omega arith, omega arith)

pub to_days-Days :
    (over base : ℕ)
    → over < 2 ^ 64
    → base < 2 ^ 64
    → Days (over * 2 ^ 64 + base) (to_days over base)
to_days-Days over base ho hb = elim (Bool-cases (leb 43200 over)) [
  | inl big ↦ inl (ground arith, unfold to_days in ground arith)
  | inr small ↦
      let (e, lo, hi) = to_days_small over base (ground arith) hb in
      inr (ground arith, (_, e, lo, hi))
]

-- The age of an output at a time, 0 if the output is younger.
abbrev pub age : (timestamp : ℕ) → Utxo → ℕ
age timestamp utxo = timestamp - utxo.timestamp

module _ (get : OutPoint → Option Utxo) where
  -- The sum, over the inputs, of amount times age; `none` where an input's output is not known.
  abbrev pub total_seconds : List Input → (timestamp : ℕ) → Option ℕ
  total_seconds [] timestamp = some 0
  total_seconds (i ∷ is) timestamp = elim (get (keyof_input i)) [
    | none ↦ none
    | some utxo ↦ elim (total_seconds is timestamp) [
      | none ↦ none
      | some rest ↦ some (utxo.amount * age timestamp utxo + rest)
    ]
  ]

  -- The amounts and times that the map holds are words.
  abbrev pub Words : Type 0
  Words = (k : OutPoint) (u : Utxo) → get k ≡ some u → (u.amount < 2 ^ 64) × (u.timestamp < 2 ^ 32)

  total-cons :
      (i : Input) (is : List Input) (timestamp seconds : ℕ)
      → total_seconds (i ∷ is) timestamp ≡ some seconds
      → (u : Utxo) × (rest : ℕ) × (get (keyof_input i) ≡ some u)
        × (total_seconds is timestamp ≡ some rest)
        × (seconds ≡ u.amount * age timestamp u + rest)
  total-cons i is timestamp seconds h = elim (Option-cases (get (keyof_input i))) [
    | inl e ↦ absurd (ground arith)
    | inr (u, e) ↦ elim (Option-cases (total_seconds is timestamp)) [
      | inl e' ↦ absurd (ground arith)
      | inr (rest, e') ↦ (u, rest, e, e', ground arith)
    ]
  ]

  destroyed_seconds-cons :
      (i : Input) (is : List Input) (timestamp over base over₁ base₁ : ℕ) (u : Utxo)
      → get (keyof_input i) ≡ some u
      → mul_and_add over base u.amount (age timestamp u) ≡ ok (over₁, base₁)
      → destroyed_seconds get (i ∷ is) timestamp over base
        ≡ destroyed_seconds get is timestamp over₁ base₁
  unfolding destroyed_seconds
  destroyed_seconds-cons i is timestamp over base over₁ base₁ u known e =
      let aged : (if ltb u.timestamp timestamp then timestamp - u.timestamp else 0)
          ≡ age timestamp u =
        ground arith in
      rw (known, aged, e)

  destroyed_seconds_lem :
      (words : Words) (is : List Input) (timestamp over base seconds : ℕ)
      → timestamp < 2 ^ 32
      → over < 2 ^ 64
      → base < 2 ^ 64
      → total_seconds is timestamp ≡ some seconds
      → (over' : ℕ) × (base' : ℕ) × (destroyed_seconds get is timestamp over base
          ≡ ok (over', base'))
        × (over' < 2 ^ 64)
        × (base' < 2 ^ 64)
        × ((over' * 2 ^ 64 + base') % 2 ^ 128 ≡ (over * 2 ^ 64 + base + seconds) % 2 ^ 128)
  unfolding destroyed_seconds
  destroyed_seconds_lem words [] timestamp over base seconds ht ho hb h =
      let z : seconds ≡ 0 = ground arith in (over, base, refl, ho, hb, omega arith)
  destroyed_seconds_lem words (i ∷ is) timestamp over base seconds ht ho hb h =
      let (u, rest, known, tail, sum) = total-cons i is timestamp seconds h in
      let (amount, time) = words (keyof_input i) u known in
      let (over₁, base₁, e, ho₁, hb₁, added) =
        mul_and_add_lem over base u.amount (age timestamp u) ho hb amount (omega arith) in
      let (over₂, base₂, e', ho₂, hb₂, added') =
        destroyed_seconds_lem words is timestamp over₁ base₁ rest ht ho₁ hb₁ tail in
      (
        over₂,
        base₂,
        destroyed_seconds-cons i is timestamp over base over₁ base₁ u known e ∙ e',
        ho₂,
        hb₂,
        omega arith,
      )

  -- The days destroyed by a transaction that is no coinbase, and whose inputs spend outputs that
  -- the map knows, are the sum of amount times age in days, or the code for an overflow.
  pub calculate_bdd-Days :
      (t : Transaction) (timestamp seconds : ℕ)
      → Words
      → timestamp < 2 ^ 32
      → total_seconds t.input timestamp ≡ some seconds
      → seconds < 2 ^ 128
      → (r : ℤ) × (calculate_bdd get t false timestamp ≡ ok r) × Days seconds r
  unfolding calculate_bdd
  calculate_bdd-Days t timestamp seconds words ht h small =
      let (over, base, e, ho, hb, sum) =
        destroyed_seconds_lem words t.input timestamp 0 0 seconds ht (omega arith) (omega arith)
          h in
      let same : over * 2 ^ 64 + base ≡ seconds = omega arith in
      (to_days over base, rw e, rw same at (to_days-Days over base ho hb))

bdc_steps :
    (u : Utxo) (current last span over base : ℕ)
    → (let interval = if last == 0 then 0 else sub_u32 current last in
        let utxo_age = sub_u32 current u.timestamp in
        if leb utxo_age interval then utxo_age else interval)
      ≡ span
    → mul_and_add 0 0 u.amount span ≡ ok (over, base)
    → calculate_bdc u current last ≡ ok (to_days over base)
unfolding calculate_bdc
bdc_steps u current last span over base e e' = rw (e, e')

-- The product of an amount and an age, in two words.
two_word_product :
    (amount span : ℕ)
    → amount < 2 ^ 64
    → span < 2 ^ 32
    → (over : ℕ) × (base : ℕ) × (mul_and_add 0 0 amount span ≡ ok (over, base))
      × (over < 2 ^ 64)
      × (base < 2 ^ 64)
      × (over * 2 ^ 64 + base ≡ amount * span)
two_word_product amount span ha hs =
    let fits : amount * span < 2 ^ 128 = grind arith in
    let (over, base, e, ho, hb, sum) =
      mul_and_add_lem 0 0 amount span (omega arith) (omega arith) ha (omega arith) in
    (over, base, e, ho, hb, omega arith)

-- The days created by an output that is no younger than the current block, where the last timestamp
-- is no greater than the current one: amount times the smaller of its age and of the interval since
-- the last timestamp, which is 0 where that is 0, up to the stated rounding, or the code for an
-- overflow.
pub calculate_bdc-Days :
    (u : Utxo) (current last : ℕ)
    → u.amount < 2 ^ 64
    → u.timestamp ≤ current
    → current < 2 ^ 32
    → last ≤ current
    → (r : ℤ) × (calculate_bdc u current last ≡ ok r)
      × Days (u.amount * min (current - u.timestamp) (if last == 0 then 0 else current - last)) r
calculate_bdc-Days u current last ha hu hc hl =
    let span = min (current - u.timestamp) (if last == 0 then 0 else current - last) in
    let (over, base, e, ho, hb, same) = two_word_product u.amount span ha (ground arith) in
    (
      to_days over base,
      bdc_steps u current last span over base (ground arith) e,
      rw same at (to_days-Days over base ho hb),
    )
