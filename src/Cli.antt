-- ===== src/Cli.antt =====
-- The command of cli.c: what the formats need, and what they print.
pub mod Blind
pub mod Command
pub mod Last
pub mod Whole
use bitcoin_iterate.Prelude.{
  ℕ, zero, suc, Bool, true, false, ◌&&◌, ◌||◌, Option, none, some, List, [], ◌∷◌, ◌==◌,
  if◌then◌else◌, Result, ok,
}
use bitcoin_iterate.Types.{Block, Transaction, Input, Output, Utxo}
use bitcoin_iterate.Utxo.{OutPoint}
use bitcoin_iterate.Format.Print.{Args, print_format}

-- strstr of the C library, as a test.
unfoldable pub starts_with : (text needle : List ℕ) → Bool
starts_with text [] = true
starts_with [] (n ∷ ns) = false
starts_with (t ∷ ts) (n ∷ ns) = t == n && starts_with ts ns

unfoldable pub strstr : (text needle : List ℕ) → Bool
unfolding starts_with
strstr [] needle = starts_with [] needle
strstr (t ∷ ts) needle = starts_with (t ∷ ts) needle || strstr ts needle

-- A code as it stands in a format.
abbrev pub code : (group c : ℕ) → List ℕ
code group c = b'%' ∷ group ∷ c ∷ []

abbrev pub asks : Option (List ℕ) → (group c : ℕ) → Bool
asks none group c = false
asks (some fmt) group c = strstr fmt (code group c)

abbrev pub is_given : Option (List ℕ) → Bool
is_given none = false
is_given (some fmt) = true

-- The tests between the options and the call of `iterate`.
unfoldable pub needs_utxo : (txfmt inputfmt outputfmt utxofmt : Option (List ℕ)) → Bool
needs_utxo txfmt inputfmt outputfmt utxofmt =
    asks txfmt b't' b'F'
    || (asks txfmt b't' b'D'
        || (asks inputfmt b't' b'F'
            || (asks inputfmt b't' b'D'
                || (asks inputfmt b'i' b'B'
                    || (asks inputfmt b'i' b'T'
                        || (asks inputfmt b'i' b'a'
                            || (asks inputfmt b'i' b'p'
                                || (asks outputfmt b't' b'F'
                                    || (asks outputfmt b't' b'D' || is_given utxofmt)))))))))

-- The functions that `iterate` calls. Without a format they print nothing.
module _ (hex_encode : List ℕ → List ℕ) (get : OutPoint → Option Utxo) where
  abbrev print_if : Option (List ℕ) → Args → Result (List ℕ)
  print_if none args = ok []
  print_if (some fmt) args = print_format hex_encode get args fmt

  unfoldable pub print_block : Option (List ℕ) → Block → Result (List ℕ)
  print_block blockfmt b =
      print_if blockfmt (record {
        b = b;
        t = none;
        txnum = 0;
        i = none;
        o = none;
        u = none;
        last_utxo_block = none;
      })

  unfoldable pub print_transaction :
      Option (List ℕ) → Block → Transaction → (txnum : ℕ) → Result (List ℕ)
  print_transaction txfmt b t txnum = print_if txfmt (record {
    b = b;
    t = some t;
    txnum = txnum;
    i = none;
    o = none;
    u = none;
    last_utxo_block = none;
  })

  -- `place` is the input's place in the array of the transaction.
  unfoldable pub print_input :
      Option (List ℕ) → Block → Transaction → (txnum place : ℕ) → Input → Result (List ℕ)
  print_input inputfmt b t txnum place i = print_if inputfmt (record {
    b = b;
    t = some t;
    txnum = txnum;
    i = some (place, i);
    o = none;
    u = none;
    last_utxo_block = none;
  })

  unfoldable pub print_output :
      Option (List ℕ) → Block → Transaction → (txnum place : ℕ) → Output → Result (List ℕ)
  print_output outputfmt b t txnum place o = print_if outputfmt (record {
    b = b;
    t = some t;
    txnum = txnum;
    i = none;
    o = some (place, o);
    u = none;
    last_utxo_block = none;
  })

  unfoldable pub print_utxo :
      Option (List ℕ)
      → (current_block : Block) → (last_utxo_block : Option Block) → Utxo
      → Result (List ℕ)
  print_utxo utxofmt current_block last_utxo_block u = print_if utxofmt (record {
    b = current_block;
    t = none;
    txnum = 0;
    i = none;
    o = none;
    u = some u;
    last_utxo_block = last_utxo_block;
  })
