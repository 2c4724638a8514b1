-- ===== src/Tests/Sums.antt =====
-- Runs of the sums.
use Prim.Native.Nat.{min}
use bitcoin_iterate.Prelude.{ℕ, ◌+◌, ◌-◌, ◌*◌, ◌%◌, ◌^◌, ◌<◌, ◌≡◌, refl, false, arith, ok}
use bitcoin_iterate.Prelude.Int.{ℤ}
use bitcoin_iterate.Calculations.{
  mul_and_add, to_days, calculate_fees, calculate_bdd, calculate_bdc,
}
use bitcoin_iterate.Calculations.Product.{mul_and_add_lem}
use bitcoin_iterate.Calculations.Days.{Days, to_days-Days, calculate_bdd-Days, calculate_bdc-Days}
use bitcoin_iterate.Calculations.Fees.{fee, calculate_fees-fee}
use bitcoin_iterate.Tests.Data.{small_transaction, spent_utxo, get_spent}

mul_and_add_lem_example :
    (over : ℕ) × (base : ℕ) × (mul_and_add 1 (2 ^ 64 - 1) (2 ^ 63 + 5) (2 ^ 32 - 1)
      ≡ ok (over, base))
    × (over < 2 ^ 64)
    × (base < 2 ^ 64)
    × ((over * 2 ^ 64 + base) % 2 ^ 128
        ≡ (1 * 2 ^ 64 + (2 ^ 64 - 1) + (2 ^ 63 + 5) * (2 ^ 32 - 1)) % 2 ^ 128)
mul_and_add_lem_example =
    mul_and_add_lem 1 (2 ^ 64 - 1) (2 ^ 63 + 5) (2 ^ 32 - 1) (omega arith) (omega arith)
      (omega arith) (omega arith)

to_days-Days_example : Days (3 * 2 ^ 64 + 86_400) (to_days 3 86_400)
to_days-Days_example = to_days-Days 3 86_400 (omega arith) (omega arith)

calculate_fees-fee_example :
    calculate_fees get_spent small_transaction false ≡ fee get_spent small_transaction false
calculate_fees-fee_example =
    calculate_fees-fee get_spent small_transaction false (omega arith) (omega arith, tt)

calculate_bdd-Days_example :
    (r : ℤ) × (calculate_bdd get_spent small_transaction false 1_300_000_000 ≡ ok r)
    × Days (6000 * 100_000_000 + 0) r
calculate_bdd-Days_example =
    calculate_bdd-Days get_spent small_transaction 1_300_000_000 (6000 * 100_000_000 + 0)
      (λ k u e. ground arith) (omega arith) refl (omega arith)

calculate_bdc-Days_example :
    (r : ℤ) × (calculate_bdc spent_utxo 1_300_000_000 1_290_000_000 ≡ ok r)
    × Days (6000 * min (1_300_000_000 - 1_200_000_000) (1_300_000_000 - 1_290_000_000)) r
calculate_bdc-Days_example =
    calculate_bdc-Days spent_utxo 1_300_000_000 1_290_000_000 (omega arith) (omega arith)
      (omega arith) (omega arith)
