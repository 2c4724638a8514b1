-- ===== src/Calculations.antt =====
-- The sums of calculations.c. A u64 is a number below 2 ^ 64 and an s64 its bit pattern.
pub mod Product
pub mod Days
pub mod Fees
use bitcoin_iterate.Prelude.{
  ℕ, zero, suc, ◌+◌, ◌-◌, ◌*◌, ◌/◌, ◌%◌, ◌^◌, Bool, true, false, not, ◌&&◌, ◌||◌, Option, none,
  some, List, [], ◌∷◌, ltb, leb, ◌==◌, if◌then◌else◌, Result, ok, err, ◌>>=◌, ◌>>◌, guard, or_fail,
  unknown_utxo, invalid_total, assert_failed,
}
use bitcoin_iterate.Prelude.Int.{ℤ, pos, negsuc, signed64}
use bitcoin_iterate.Types.{Input, Output, Transaction, Utxo}
use bitcoin_iterate.Utxo.{OutPoint, keyof_input}

abbrev pub u64_mod : ℕ
u64_mod = 2 ^ 64

abbrev pub max_u32 : ℕ
max_u32 = 0xffff_ffff

-- `b << 32` has no bit in common with `c`, so `|` is `+`.
unfoldable pub mul_and_add : (over base l r : ℕ) → Result (ℕ × ℕ)
mul_and_add over base l r = do
  let l_h = l / 2 ^ 32
  let r_h = r / 2 ^ 32
  let l_l = l % 2 ^ 32
  let r_l = r % 2 ^ 32
  let b₀ = base / 2 ^ 32
  let c₀ = base % 2 ^ 32
  guard (leb b₀ max_u32) assert_failed
  guard (leb c₀ max_u32) assert_failed
  let c₁ = (c₀ + l_l * r_l % u64_mod) % u64_mod
  let b₁ = (b₀ + c₁ / 2 ^ 32) % u64_mod
  let c₂ = c₁ % 2 ^ 32
  let a₁ = (over + b₁ / 2 ^ 32) % u64_mod
  let b₂ = b₁ % 2 ^ 32
  let b₃ = (b₂ + l_h * r_l % u64_mod) % u64_mod
  let a₂ = (a₁ + b₃ / 2 ^ 32) % u64_mod
  let b₄ = b₃ % 2 ^ 32
  let b₅ = (b₄ + l_l * r_h % u64_mod) % u64_mod
  let a₃ = (a₂ + b₅ / 2 ^ 32) % u64_mod
  let b₆ = b₅ % 2 ^ 32
  let a₄ = (a₃ + l_h * r_h % u64_mod) % u64_mod
  ok (a₄, b₆ * 2 ^ 32 + c₂)

-- The end of `calculate_bdc` and `calculate_bdd`: from satoshi-seconds to satoshi-days.
unfoldable pub to_days : (over base : ℕ) → ℤ
to_days over base =
    if leb (86400 / 2) over
    then negsuc 1
    else signed64 ((over * 2 ^ 47 % u64_mod / 86400 * 2 ^ 17 % u64_mod + base / 86400) % u64_mod)

-- a - b in u32.
abbrev pub sub_u32 : ℕ → ℕ → ℕ
sub_u32 a b = (a + 2 ^ 32 - b) % 2 ^ 32

unfoldable pub calculate_bdc : Utxo → (current_timestamp last_timestamp : ℕ) → Result ℤ
calculate_bdc u current_timestamp last_timestamp = do
  let interval = if last_timestamp == 0 then 0 else sub_u32 current_timestamp last_timestamp
  let utxo_age = sub_u32 current_timestamp u.timestamp
  (over, base) ← mul_and_add 0 0 u.amount (if leb utxo_age interval then utxo_age else interval)
  ok (to_days over base)

-- The loop over the outputs, on the bit pattern of `total`.
unfoldable pub sub_outputs : List Output → ℕ → ℕ
sub_outputs [] total = total
sub_outputs (o ∷ os) total = sub_outputs os ((total + u64_mod - o.amount) % u64_mod)

-- `get` is utxo_map_get on the map at hand.
module _ (get : OutPoint → Option Utxo) where
  -- The loop over the inputs, on the bit pattern of `total`.
  unfoldable pub add_inputs : List Input → ℕ → Result ℕ
  add_inputs [] total = ok total
  add_inputs (i ∷ is) total = do
    utxo ← or_fail (get (keyof_input i)) unknown_utxo
    add_inputs is ((total + utxo.amount) % u64_mod)

  unfoldable pub calculate_fees : Transaction → Bool → Result ℤ
  calculate_fees t is_coinbase = do
    paid ← if is_coinbase then ok 0 else add_inputs t.input 0
    let total = sub_outputs t.output paid
    guard (is_coinbase || ltb total (2 ^ 63)) invalid_total
    ok (signed64 total)

  unfoldable pub destroyed_seconds : List Input → (timestamp over base : ℕ) → Result (ℕ × ℕ)
  destroyed_seconds [] timestamp over base = ok (over, base)
  destroyed_seconds (i ∷ is) timestamp over base = do
    utxo ← or_fail (get (keyof_input i)) unknown_utxo
    (over, base) ←
        mul_and_add over base utxo.amount
          (if ltb utxo.timestamp timestamp then timestamp - utxo.timestamp else 0)
    destroyed_seconds is timestamp over base

  unfoldable pub calculate_bdd : Transaction → Bool → (timestamp : ℕ) → Result ℤ
  calculate_bdd t is_coinbase timestamp =
      if is_coinbase
      then ok (pos 0)
      else (do (over, base) ← destroyed_seconds t.input timestamp 0 0; ok (to_days over base))

-- u32 arithmetic.
unfoldable pub segwit_length : Transaction → ℕ
segwit_length t = (t.total_len + 3 * t.non_swlen + 3) % 2 ^ 32 / 4

unfoldable pub segwit_weight : Transaction → ℕ
segwit_weight t = (t.total_len + 3 * t.non_swlen) % 2 ^ 32
