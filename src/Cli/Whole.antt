-- ===== src/Cli/Whole.antt =====
-- The whole command of cli.c, from the options to the calls of the block function.
use bitcoin_iterate.Prelude.{◌≡◌, true, none}
use bitcoin_iterate.Types.{Block, Utxo}
use bitcoin_iterate.Utils.{is_zero}
use bitcoin_iterate.Htable.{Htable}
use bitcoin_iterate.Chain.Heights.{Heights}
use bitcoin_iterate.Cli.{is_given}
use bitcoin_iterate.Cli.Command.{Variables}

-- There is a format for blocks and no other, no dots are asked for, and no first hash.
pub record PrintsBlocks (v : Variables) : Type 0 where
  pub blocks : is_given v.blockfmt ≡ true
  pub txs : v.txfmt ≡ none
  pub inputs : v.inputfmt ≡ none
  pub outputs : v.outputfmt ≡ none
  pub unspent : v.utxofmt ≡ none
  pub dots : v.progress_marks ≡ 0
  pub from_first : is_zero v.start_hash ≡ true
