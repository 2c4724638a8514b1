-- ===== src/Calculations/Fees.antt =====
-- The fee of a transaction.
use native.Mathlib.Nat.{add_assoc}
use bitcoin_iterate.Prelude.{
  ℕ, ◌+◌, ◌-◌, ◌%◌, ◌^◌, ◌<◌, ◌≡◌, ◌∙◌, inl, inr, Option, none, some, List, [], ◌∷◌, Bool, true,
  false, arith, leb, if◌then◌else◌, Result, ok, err, unknown_utxo, invalid_total, Option-cases, All,
}
use bitcoin_iterate.Prelude.Int.{ℤ, pos, sub_ℕ}
use bitcoin_iterate.Types.{Input, Output, Transaction, Utxo}
use bitcoin_iterate.Utxo.{OutPoint, keyof_input}
use bitcoin_iterate.Calculations.{u64_mod, add_inputs, sub_outputs, calculate_fees}

abbrev pub total_out : List Output → ℕ
total_out [] = 0
total_out (o ∷ os) = o.amount + total_out os

sub_outputs_lem :
    (os : List Output) (total : ℕ)
    → total < 2 ^ 64
    → total_out os < 2 ^ 64
    → sub_outputs os total ≡ (total + 2 ^ 64 - total_out os) % 2 ^ 64
unfolding sub_outputs
sub_outputs_lem [] total ht ho = omega arith
sub_outputs_lem (o ∷ os) total ht ho =
    sub_outputs_lem os ((total + u64_mod - o.amount) % u64_mod) (omega arith) (omega arith)
    ∙ omega arith

module _ (get : OutPoint → Option Utxo) where
  -- The sum of what the inputs spend; `none` where an input's output is not known.
  abbrev pub total_in : List Input → Option ℕ
  total_in [] = some 0
  total_in (i ∷ is) = elim (get (keyof_input i)) [
    | none ↦ none
    | some utxo ↦ elim (total_in is) [ none ↦ none | some rest ↦ some (utxo.amount + rest) ]
  ]

  -- The outcome, in the integers: an unknown input and a negative fee end the run, but for a
  -- coinbase, which has no input to spend and pays out what it makes.
  abbrev pub fee : Transaction → Bool → Result ℤ
  fee t true = ok (sub_ℕ 0 (total_out t.output))
  fee t false = elim (total_in t.input) [
    | none ↦ err unknown_utxo
    | some paid ↦
        if leb (total_out t.output) paid
        then ok (pos (paid - total_out t.output))
        else err invalid_total
  ]

  add_inputs-none :
      (is : List Input) (total : ℕ)
      → total_in is ≡ none
      → add_inputs get is total ≡ err unknown_utxo
  unfolding add_inputs
  add_inputs-none [] total h = cc
  add_inputs-none (i ∷ is) total h = elim (Option-cases (get (keyof_input i))) [
    | inl e ↦ rw e
    | inr (u, e) ↦ rw e (add_inputs-none is _ (ground arith))
  ]

  add_inputs-some :
      (is : List Input) (total paid : ℕ)
      → total_in is ≡ some paid
      → total + paid < 2 ^ 64
      → add_inputs get is total ≡ ok (total + paid)
  unfolding add_inputs
  add_inputs-some [] total paid h small = ground arith
  add_inputs-some (i ∷ is) total paid h small = elim (Option-cases (get (keyof_input i))) [
    | inl e ↦ absurd (ground arith)
    | inr (u, e) ↦ elim (Option-cases (total_in is)) [
      | inl e' ↦ absurd (ground arith)
      | inr (rest, e') ↦
          let sum : paid ≡ u.amount + rest = ground arith in
          let wrap : (total + u.amount) % u64_mod ≡ total + u.amount = omega arith in
          rw (e, wrap, add_inputs-some is (total + u.amount) rest e' (omega arith), sum, add_assoc)
    ]
  ]

  fee_paid :
      (t : Transaction) (paid : ℕ)
      → total_in t.input ≡ some paid
      → paid < 2 ^ 63
      → total_out t.output < 2 ^ 63
      → calculate_fees get t false ≡ fee t false
  unfolding calculate_fees
  fee_paid t paid h hp ho =
      let zero_add : 0 + paid ≡ paid = omega arith in
      rw
        (
          fee,
          h,
          add_inputs-some t.input 0 paid h (omega arith),
          zero_add,
          sub_outputs_lem t.output paid (omega arith) (omega arith),
        )
        (ground arith)

  -- `calculate_fees` gives the fee, if the sums of the outputs and of what is spent are below
  -- 2 ^ 63, as all bitcoins are.
  pub calculate_fees-fee :
      (t : Transaction) (is_coinbase : Bool)
      → total_out t.output < 2 ^ 63
      → All (λ paid. paid < 2 ^ 63) (elim (total_in t.input) [ none ↦ [] | some paid ↦ paid ∷ [] ])
      → calculate_fees get t is_coinbase ≡ fee t is_coinbase
  unfolding calculate_fees
  calculate_fees-fee t true ho hp =
      rw (sub_outputs_lem t.output 0 (omega arith) (omega arith)) (ground arith)
  calculate_fees-fee t false ho hp = elim (Option-cases (total_in t.input)) [
    | inl h ↦ rw (fee, h, add_inputs-none t.input 0 h)
    | inr (paid, h) ↦ fee_paid t paid h (rw h at hp).0 ho
  ]
