-- ===== src/Cli/Command.antt =====
-- The command line of cli.c: the table of options that `main` registers, and `main`. `opt_parse` of
-- ccan/opt finds the options with their texts, and its helpers for numbers are parameters.
use bitcoin_iterate.Prelude.{
  ℕ, ◌-◌, ◌^◌, Bool, true, false, Option, none, some, List, [], ◌∷◌, ◌==◌, if◌then◌else◌, replicate,
  Result, ok, err, ◌>>=◌, ◌>>◌, guard, or_fail, usage, bad_option,
}
use bitcoin_iterate.Types.{Hash, Utxo, digest_length}
use bitcoin_iterate.Utils.{opt_set_hash}
use bitcoin_iterate.Htable.{Htable}
use bitcoin_iterate.Block.{Entry, block_eq}
use bitcoin_iterate.Utxo.{OutPoint, utxohash_eq}
use bitcoin_iterate.Iterate.{Event, State}
use bitcoin_iterate.Program.{Options, Machine, iterate}
use bitcoin_iterate.Cli.{is_given, needs_utxo}

-- An option that is found, with its text if it takes one.
pub data Given : Type 0 where
  help no_mmap quiet testnet : Given
  block tx input output utxo blockdir cache : (arg : List ℕ) → Given
  utxo_period progress start end_at end_hash start_hash : (arg : List ℕ) → Given

-- The formats, and the variables of `main` that the options set.
pub record Variables : Type 0 where
  pub blockfmt : Option (List ℕ)
  pub txfmt : Option (List ℕ)
  pub inputfmt : Option (List ℕ)
  pub outputfmt : Option (List ℕ)
  pub utxofmt : Option (List ℕ)
  pub blockdir : Option (List ℕ)
  pub cachedir : Option (List ℕ)
  pub use_testnet : Bool
  pub block_start : ℕ
  pub block_end : ℕ
  pub tip : Hash
  pub start_hash : Hash
  pub utxo_period : ℕ
  pub use_mmap : Bool
  pub progress_marks : ℕ
  pub quiet : Bool

-- -1UL
abbrev pub no_end : ℕ
no_end = 2 ^ 64 - 1

abbrev pub initial : Variables
initial = record {
  blockfmt = none;
  txfmt = none;
  inputfmt = none;
  outputfmt = none;
  utxofmt = none;
  blockdir = none;
  cachedir = none;
  use_testnet = false;
  block_start = 0;
  block_end = no_end;
  tip = replicate digest_length 0;
  start_hash = replicate digest_length 0;
  utxo_period = 144;
  use_mmap = true;
  progress_marks = 0;
  quiet = false;
}

-- The numbers and the bytes that the libraries read from a text.
pub record Texts : Type 0 where
  pub uintval : List ℕ → Option ℕ
  pub ulongval : List ℕ → Option ℕ
  pub hex_decode : List ℕ → ℕ → Option Hash

-- What `main` registers for an option.
unfoldable pub set_option : Texts → Given → Variables → Result Variables
set_option texts Given.help v = err usage
set_option texts (Given.block arg) v = ok (record v { blockfmt = some arg })
set_option texts (Given.tx arg) v = ok (record v { txfmt = some arg })
set_option texts (Given.input arg) v = ok (record v { inputfmt = some arg })
set_option texts (Given.output arg) v = ok (record v { outputfmt = some arg })
set_option texts (Given.utxo arg) v = ok (record v { utxofmt = some arg })
set_option texts (Given.utxo_period arg) v = do
  n ← or_fail (texts.uintval arg) bad_option
  ok (record v { utxo_period = n })
set_option texts (Given.progress arg) v = do
  n ← or_fail (texts.uintval arg) bad_option
  ok (record v { progress_marks = n })
set_option texts Given.no_mmap v = ok (record v { use_mmap = false })
set_option texts Given.quiet v = ok (record v { quiet = true })
set_option texts Given.testnet v = ok (record v { use_testnet = true })
set_option texts (Given.blockdir arg) v = ok (record v { blockdir = some arg })
set_option texts (Given.end_hash arg) v = do
  hash ← or_fail (opt_set_hash texts.hex_decode arg) bad_option
  ok (record v { tip = hash })
set_option texts (Given.start_hash arg) v = do
  hash ← or_fail (opt_set_hash texts.hex_decode arg) bad_option
  ok (record v { start_hash = hash })
set_option texts (Given.start arg) v = do
  n ← or_fail (texts.ulongval arg) bad_option
  ok (record v { block_start = n })
set_option texts (Given.end_at arg) v = do
  n ← or_fail (texts.ulongval arg) bad_option
  ok (record v { block_end = n })
set_option texts (Given.cache arg) v = ok (record v { cachedir = some arg })

unfoldable pub set_options : Texts → List Given → Variables → Result Variables
unfolding set_option
set_options texts [] v = ok v
set_options texts (g ∷ given) v = do v ← set_option texts g v; set_options texts given v

abbrev pub end_of : (block_end : ℕ) → Option ℕ
end_of n = if n == no_end then none else some n

-- The arguments of the call of `iterate`.
unfoldable pub arguments : Variables → Options
unfolding needs_utxo
arguments v = record {
  use_testnet = v.use_testnet;
  block_start = v.block_start;
  block_end = end_of v.block_end;
  start_hash = v.start_hash;
  tip = v.tip;
  needs_utxo = needs_utxo v.txfmt v.inputfmt v.outputfmt v.utxofmt;
  utxo_period = v.utxo_period;
  use_mmap = v.use_mmap;
  progress_marks = v.progress_marks;
  fns = record {
    blockfn = is_given v.blockfmt;
    txfn = is_given v.txfmt;
    inputfn = is_given v.inputfmt;
    outputfn = is_given v.outputfmt;
    utxofn = is_given v.utxofmt;
  };
}

-- `others` counts the arguments that are no options. `machine_at` is what the system holds for the
-- directories of blocks and of caches.
module _ (sha256 : List ℕ → Hash) (blocks : Htable Hash Entry block_eq)
    (utxos : Htable OutPoint Utxo utxohash_eq) where
  open utxos use {Table}

  unfoldable pub main :
      Texts
      → (machine_at : (blockdir cachedir : Option (List ℕ))
          → (use_testnet : Bool) → Machine sha256 blocks)
      → List Given
      → (others : ℕ) → Result (List (Event Table) × State sha256 utxos)
  unfolding set_options arguments
  main texts machine_at given others = do
    v ← set_options texts given initial
    guard (others == 0) usage
    iterate sha256 blocks utxos (machine_at v.blockdir v.cachedir v.use_testnet) (arguments v)
