-- ===== src/Format/Print.antt =====
-- `print_format`: what a format prints of a block, a transaction, an input, an output or an unspent
-- output. A NULL argument is `none`; `i` and `o` come with their places in the arrays of `t`.
use bitcoin_iterate.Prelude.{
  ℕ, zero, suc, ◌+◌, ◌-◌, ◌/◌, ◌%◌, Bool, true, false, Option, none, some, List, [], ◌∷◌, ◌++◌, ltb,
  ◌==◌, if◌then◌else◌, Result, ok, err, ◌>>=◌, or_fail, fault, bad_format,
}
use bitcoin_iterate.Prelude.Int.{ℤ, pos, negsuc}
use bitcoin_iterate.Types.{Block, Transaction, Input, Output, Utxo, unknown_output}
use bitcoin_iterate.Utxo.{OutPoint, keyof_input, is_unspendable, unsigned_height}
use bitcoin_iterate.Calculations.{
  calculate_fees, calculate_bdc, calculate_bdd, segwit_length, segwit_weight,
}
use bitcoin_iterate.Format.{
  print_hash, print_reversed_hash, print_hex, dump_tx_input, dump_tx_output, dump_tx,
  dump_block_header,
}

-- printf of %u, %zu and %PRIu64: a u64 has 20 digits at most.
unfoldable pub decimal : ℕ → ℕ → List ℕ
decimal zero v = []
decimal (suc fuel) v =
    let front = decimal fuel (v / 10) in
    if ltb v 10 then (b'0' + v) ∷ [] else front ++ ((b'0' + v % 10) ∷ [])

unfoldable pub print_u : ℕ → List ℕ
unfolding decimal
print_u v = decimal 20 v

-- printf of %i and %PRIi64.
unfoldable pub print_i : ℤ → List ℕ
unfolding print_u
print_i (pos n) = print_u n
print_i (negsuc n) = b'-' ∷ print_u (n + 1)

-- The u32 `u->index` is printed by %i, as an int.
abbrev pub as_int : (word : ℕ) → ℤ
as_int word = if ltb 0x7fff_ffff word then negsuc (0xffff_ffff - word) else pos word

abbrev pub to_digit : Bool → ℕ
to_digit true = 1
to_digit false = 0

pub record Args : Type 0 where
  pub b : Block
  pub t : Option Transaction
  pub txnum : ℕ
  pub i : Option (ℕ × Input)
  pub o : Option (ℕ × Output)
  pub u : Option Utxo
  pub last_utxo_block : Option Block

-- A code of a group that has an argument; without one the format is bad.
abbrev pub given {ℓ} : {A : Type ℓ} → Option A → (A → Result (List ℕ)) → Result (List ℕ)
given none f = err bad_format
given (some a) f = f a

module _ (hex_encode : List ℕ → List ℕ) where
  unfoldable pub block_code : Block → ℕ → Result (List ℕ)
  block_code b c =
      if c == b'l'
      then ok (print_u b.bh.len)
      else if c == b'v'
      then ok (print_u b.bh.version)
      else if c == b'p'
      then ok (print_reversed_hash hex_encode b.bh.prev_hash)
      else if c == b'm'
      then ok (print_hash hex_encode b.bh.merkle_hash)
      else if c == b's'
      then ok (print_u b.bh.timestamp)
      else if c == b't'
      then ok (print_u b.bh.target)
      else if c == b'n'
      then ok (print_u b.bh.nonce)
      else if c == b'c'
      then ok (print_u b.bh.transaction_count)
      else if c == b'h'
      then ok (print_reversed_hash hex_encode b.id)
      else if c == b'N'
      then ok (print_u (unsigned_height b.height))
      else if c == b'H'
      then ok (dump_block_header hex_encode b.bh)
      else err bad_format

  unfoldable pub output_code : Args → ℕ × Output → ℕ → Result (List ℕ)
  output_code args (place, o) c =
      if c == b'a'
      then ok (print_u o.amount)
      else if c == b'l'
      then ok (print_u o.script_length)
      else if c == b's'
      then ok (print_hex hex_encode o.script)
      else if c == b'q'
      then elim args.i [ none ↦ err fault | some i ↦ ok (print_u (i.1).sequence_number) ]
      else if c == b'N'
      then ok (print_u place)
      else if c == b'U'
      then ok (print_u (to_digit (is_unspendable o)))
      else if c == b'X'
      then ok (dump_tx_output hex_encode o)
      else err bad_format

  unfoldable pub utxo_code : Args → Utxo → ℕ → Result (List ℕ)
  utxo_code args u c =
      if c == b'h'
      then ok (print_reversed_hash hex_encode u.txid)
      else if c == b'n'
      then ok (print_i (as_int u.index))
      else if c == b't'
      then ok (print_u u.timestamp)
      else if c == b'N'
      then ok (print_u u.height)
      else if c == b'a'
      then ok (print_u u.amount)
      else if c == b'C'
      then elim args.last_utxo_block [
        | none ↦ ok (b'0' ∷ [])
        | some last ↦ do
          days ← calculate_bdc u args.b.bh.timestamp last.bh.timestamp
          ok (print_i days)
      ]
      else err bad_format

  -- `get` is utxo_map_get on the map.
  module _ (get : OutPoint → Option Utxo) where
    unfoldable pub transaction_code : Args → Transaction → ℕ → Result (List ℕ)
    transaction_code args t c =
        if c == b'h'
        then ok (print_reversed_hash hex_encode t.txid)
        else if c == b'H'
        then ok (print_reversed_hash hex_encode t.wtxid)
        else if c == b'v'
        then ok (print_u t.version)
        else if c == b'i'
        then ok (print_u t.input_count)
        else if c == b'o'
        then ok (print_u t.output_count)
        else if c == b't'
        then ok (print_u t.lock_time)
        else if c == b'L'
        then ok (print_u t.total_len)
        else if c == b'n'
        then ok (print_u t.non_swlen)
        else if c == b'l'
        then ok (print_u (segwit_length t))
        else if c == b'w'
        then ok (print_u (segwit_weight t))
        else if c == b'N'
        then ok (print_u args.txnum)
        else if c == b'F'
        then (do fees ← calculate_fees get t (args.txnum == 0); ok (print_i fees))
        else if c == b'D'
        then (do
          days ← calculate_bdd get t (args.txnum == 0) args.b.bh.timestamp
          ok (print_i days))
        else if c == b'X'
        then ok (dump_tx hex_encode t)
        else if c == b'S'
        then ok (print_u t.segwit)
        else err bad_format

    -- A coinbase spends nothing; any other input must be known, or NULL is read.
    unfoldable pub spent : Args → Input → (Utxo → ℕ) → List ℕ → Result (List ℕ)
    spent args i field coinbase =
        if args.txnum == 0
        then ok coinbase
        else (do utxo ← or_fail (get (keyof_input i)) fault; ok (print_u (field utxo)))

    unfoldable pub input_code : Args → ℕ × Input → ℕ → Result (List ℕ)
    unfolding spent
    input_code args (place, i) c =
        if c == b'h'
        then ok (print_reversed_hash hex_encode i.txid)
        else if c == b'i'
        then ok (print_u i.index)
        else if c == b'l'
        then ok (print_u i.script_length)
        else if c == b's'
        then ok (print_hex hex_encode i.script)
        else if c == b'N'
        then ok (print_u place)
        else if c == b'X'
        then ok (dump_tx_input hex_encode i)
        else if c == b'a'
        then spent args i (λ utxo. utxo.amount) (b'0' ∷ [])
        else if c == b'B'
        then spent args i (λ utxo. utxo.height) (b'0' ∷ [])
        else if c == b'T'
        then spent args i (λ utxo. utxo.txnum) (b'-' ∷ b'1' ∷ [])
        else if c == b'p'
        then ok (print_u (if args.txnum == 0 then unknown_output else 1))
        else err bad_format

    -- One escape, `%` behind it: group and code. An unknown group prints nothing.
    unfoldable pub escape : Args → (group c : ℕ) → Result (List ℕ)
    escape args group c =
        if group == b'b'
        then block_code args.b c
        else if group == b't'
        then given args.t (λ t. transaction_code args t c)
        else if group == b'i'
        then given args.i (λ i. input_code args i c)
        else if group == b'o'
        then given args.o (λ o. output_code args o c)
        else if group == b'u'
        then given args.u (λ u. utxo_code args u c)
        else ok []

    -- The loop. The text ends in NUL: at the end of the text `c[1]`, or `c[2]` of a known group, is
    -- that NUL, and otherwise `c` passes it and the loop goes on behind the end of the string.
    unfoldable pub print_loop : Args → List ℕ → Result (List ℕ)
    print_loop args [] = ok []
    print_loop args (c ∷ []) = if c == b'%' then err fault else ok (c ∷ [])
    print_loop args (c ∷ d ∷ []) =
        if c == b'%'
        then (do shown ← escape args d 0; err fault)
        else if d == b'%'
        then err fault
        else ok (c ∷ d ∷ [])
    print_loop args (c ∷ d ∷ e ∷ rest) =
        let plain = (do shown ← print_loop args (d ∷ e ∷ rest); ok (c ∷ shown)) in
        let field = (do
          shown ← escape args d e
          others ← print_loop args rest
          ok (shown ++ others)) in
        if c == b'%' then field else plain

    unfoldable pub print_format : Args → List ℕ → Result (List ℕ)
    unfolding print_loop
    print_format args format = do shown ← print_loop args format; ok (shown ++ (0x0a ∷ []))
