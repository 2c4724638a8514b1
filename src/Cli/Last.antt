-- ===== src/Cli/Last.antt =====
-- What a command line sets: each variable is as the last of its options has it.
use mathlib.Core.Path.{subst}
use bitcoin_iterate.Prelude.{
  sym, arith, ℕ, ◌==◌, ◌≡◌, refl, ◌∙◌, ap, Bool, true, false, Option, none, some, List, [], ◌∷◌,
  All, if◌then◌else◌, Result, ok, ◌>>=◌, >>=-ok, or_fail, Option-cases, inl, inr, bad_option,
}
use bitcoin_iterate.Types.{Hash}
use bitcoin_iterate.Utils.{opt_set_hash}
use bitcoin_iterate.Cli.Command.{Given, Variables, Texts, set_option, set_options}

pub data Variable : Type 0 where
  blockfmt txfmt inputfmt outputfmt utxofmt blockdir cachedir : Variable
  block_start block_end utxo_period progress_marks : Variable
  tip start_hash : Variable
  use_testnet use_mmap quiet : Variable

pub data Value : Type 0 where
  text : Option (List ℕ) → Value
  number : ℕ → Value
  hash : Hash → Value
  flag : Bool → Value

unfoldable pub value : Variables → Variable → Value
value v Variable.blockfmt = Value.text v.blockfmt
value v Variable.txfmt = Value.text v.txfmt
value v Variable.inputfmt = Value.text v.inputfmt
value v Variable.outputfmt = Value.text v.outputfmt
value v Variable.utxofmt = Value.text v.utxofmt
value v Variable.blockdir = Value.text v.blockdir
value v Variable.cachedir = Value.text v.cachedir
value v Variable.block_start = Value.number v.block_start
value v Variable.block_end = Value.number v.block_end
value v Variable.utxo_period = Value.number v.utxo_period
value v Variable.progress_marks = Value.number v.progress_marks
value v Variable.tip = Value.hash v.tip
value v Variable.start_hash = Value.hash v.start_hash
value v Variable.use_testnet = Value.flag v.use_testnet
value v Variable.use_mmap = Value.flag v.use_mmap
value v Variable.quiet = Value.flag v.quiet

abbrev pub place : Variable → ℕ
place Variable.blockfmt = 0
place Variable.txfmt = 1
place Variable.inputfmt = 2
place Variable.outputfmt = 3
place Variable.utxofmt = 4
place Variable.blockdir = 5
place Variable.cachedir = 6
place Variable.block_start = 7
place Variable.block_end = 8
place Variable.utxo_period = 9
place Variable.progress_marks = 10
place Variable.tip = 11
place Variable.start_hash = 12
place Variable.use_testnet = 13
place Variable.use_mmap = 14
place Variable.quiet = 15

abbrev pub as_number : Variable → Option ℕ → Option (Variable × Value)
as_number x none = none
as_number x (some n) = some (x, Value.number n)

abbrev pub as_hash : Variable → Option Hash → Option (Variable × Value)
as_hash x none = none
as_hash x (some bytes) = some (x, Value.hash bytes)

-- The variable of an option and what it gets; none for --help and for a text that cannot be read.
unfoldable pub meaning : Texts → Given → Option (Variable × Value)
meaning texts Given.help = none
meaning texts (Given.block arg) = some (Variable.blockfmt, Value.text (some arg))
meaning texts (Given.tx arg) = some (Variable.txfmt, Value.text (some arg))
meaning texts (Given.input arg) = some (Variable.inputfmt, Value.text (some arg))
meaning texts (Given.output arg) = some (Variable.outputfmt, Value.text (some arg))
meaning texts (Given.utxo arg) = some (Variable.utxofmt, Value.text (some arg))
meaning texts (Given.utxo_period arg) = as_number Variable.utxo_period (texts.uintval arg)
meaning texts (Given.progress arg) = as_number Variable.progress_marks (texts.uintval arg)
meaning texts Given.no_mmap = some (Variable.use_mmap, Value.flag false)
meaning texts Given.quiet = some (Variable.quiet, Value.flag true)
meaning texts Given.testnet = some (Variable.use_testnet, Value.flag true)
meaning texts (Given.blockdir arg) = some (Variable.blockdir, Value.text (some arg))
meaning texts (Given.end_hash arg) = as_hash Variable.tip (opt_set_hash texts.hex_decode arg)
meaning texts (Given.start_hash arg) =
    as_hash Variable.start_hash (opt_set_hash texts.hex_decode arg)
meaning texts (Given.start arg) = as_number Variable.block_start (texts.ulongval arg)
meaning texts (Given.end_at arg) = as_number Variable.block_end (texts.ulongval arg)
meaning texts (Given.cache arg) = some (Variable.cachedir, Value.text (some arg))

-- What one option, which can be read, says of a variable.
abbrev pub says : Variable → Option (Variable × Value) → Option Value
says x none = none
says x (some (y, a)) = if place y == place x then some a else none

abbrev pub or_else : {A : Type 0} → Option A → A → A
or_else none a = a
or_else (some b) a = b

-- What the last of the options for a variable says.
unfoldable pub last_for : Texts → Variable → List Given → Option Value
last_for texts x [] = none
last_for texts x (g ∷ given) = elim (last_for texts x given) [
  | none ↦ says x (meaning texts g)
  | some a ↦ some a
]

-- What holds where the option has a meaning.
Agrees : Variables → Option (Variable × Value) → Result Variables → Type 0
Agrees v none r = Unit {0}
Agrees v (some m) r =
    (v' : Variables) × (r ≡ ok v')
    × ((x : Variable) → value v' x ≡ or_else (says x (some m)) (value v x))

number-Agrees :
    (v : Variables) (o : Option ℕ) (y : Variable) (f : ℕ → Variables)
    → ((n : ℕ) (x : Variable)
        → value (f n) x ≡ or_else (says x (some (y, Value.number n))) (value v x))
    → Agrees v (as_number y o) (or_fail o bad_option >>= λ n. ok (f n))
unfolding Agrees
number-Agrees v none y f h = tt
number-Agrees v (some n) y f h = (f n, refl, h n)

hash-Agrees :
    (v : Variables) (o : Option Hash) (y : Variable) (f : Hash → Variables)
    → ((b : Hash) (x : Variable)
        → value (f b) x ≡ or_else (says x (some (y, Value.hash b))) (value v x))
    → Agrees v (as_hash y o) (or_fail o bad_option >>= λ b. ok (f b))
unfolding Agrees
hash-Agrees v none y f h = tt
hash-Agrees v (some b) y f h = (f b, refl, h b)

set_option-Agrees :
    (texts : Texts) (g : Given) (v : Variables) → Agrees v (meaning texts g) (set_option texts g v)
unfolding Agrees meaning set_option value
set_option-Agrees texts Given.help v = tt
set_option-Agrees texts (Given.block arg) v = (_, refl, λ x. ground arith)
set_option-Agrees texts (Given.tx arg) v = (_, refl, λ x. ground arith)
set_option-Agrees texts (Given.input arg) v = (_, refl, λ x. ground arith)
set_option-Agrees texts (Given.output arg) v = (_, refl, λ x. ground arith)
set_option-Agrees texts (Given.utxo arg) v = (_, refl, λ x. ground arith)
set_option-Agrees texts (Given.utxo_period arg) v =
    number-Agrees v (texts.uintval arg) Variable.utxo_period (λ n. record v { utxo_period = n })
      (λ n x. ground arith)
set_option-Agrees texts (Given.progress arg) v =
    number-Agrees v (texts.uintval arg) Variable.progress_marks
      (λ n. record v { progress_marks = n }) (λ n x. ground arith)
set_option-Agrees texts Given.no_mmap v = (_, refl, λ x. ground arith)
set_option-Agrees texts Given.quiet v = (_, refl, λ x. ground arith)
set_option-Agrees texts Given.testnet v = (_, refl, λ x. ground arith)
set_option-Agrees texts (Given.blockdir arg) v = (_, refl, λ x. ground arith)
set_option-Agrees texts (Given.end_hash arg) v =
    hash-Agrees v (opt_set_hash texts.hex_decode arg) Variable.tip (λ b. record v { tip = b })
      (λ b x. ground arith)
set_option-Agrees texts (Given.start_hash arg) v =
    hash-Agrees v (opt_set_hash texts.hex_decode arg) Variable.start_hash
      (λ b. record v { start_hash = b }) (λ b x. ground arith)
set_option-Agrees texts (Given.start arg) v =
    number-Agrees v (texts.ulongval arg) Variable.block_start (λ n. record v { block_start = n })
      (λ n x. ground arith)
set_option-Agrees texts (Given.end_at arg) v =
    number-Agrees v (texts.ulongval arg) Variable.block_end (λ n. record v { block_end = n })
      (λ n x. ground arith)
set_option-Agrees texts (Given.cache arg) v = (_, refl, λ x. ground arith)

set_option_total :
    (texts : Texts) (g : Given) (v : Variables) (m : Variable × Value)
    → meaning texts g ≡ some m
    → (v' : Variables) × (set_option texts g v ≡ ok v')
      × ((x : Variable) → value v' x ≡ or_else (says x (meaning texts g)) (value v x))
set_option_total texts g v m e =
    let agrees : Agrees v (some m) (set_option texts g v) =
      subst (λ o. Agrees v o (set_option texts g v)) e (set_option-Agrees texts g v) in
    subst
      (λ o.
        (v' : Variables) × (set_option texts g v ≡ ok v')
        × ((x : Variable) → value v' x ≡ or_else (says x o) (value v x)))
      (sym e) (unfold Agrees in agrees)

-- What the last option says, of two parts of a command line.
or_else-last_for :
    (texts : Texts) (g : Given) (given : List Given) (x : Variable) (a : Value)
    → or_else (last_for texts x given) (or_else (says x (meaning texts g)) a)
      ≡ or_else (last_for texts x (g ∷ given)) a
unfolding last_for
or_else-last_for texts g given x a = elim (Option-cases (last_for texts x given)) [
  | inl e ↦ rw e refl
  | inr (b, e) ↦ rw e refl
]

-- With options that can all be read, and no --help among them, the command line sets the variables, and
-- each has what the last of its options says, or the value from before where none of them is given.
pub set_options-last :
    (texts : Texts) (given : List Given) (v : Variables)
    → All (λ g. (m : Variable × Value) × (meaning texts g ≡ some m)) given
    → (v' : Variables) × (set_options texts given v ≡ ok v')
      × ((x : Variable) → value v' x ≡ or_else (last_for texts x given) (value v x))
unfolding set_options last_for
set_options-last texts [] v a = (v, refl, λ x. refl)
set_options-last texts (g ∷ given) v ((m, e), a) =
    let (v1, set, one) = set_option_total texts g v m e in
    let (v', rest, all) = set_options-last texts given v1 a in
    (
      v',
      >>=-ok _ set ∙ rest,
      λ x.
          all x
          ∙ (ap (or_else (last_for texts x given)) (one x)
              ∙ or_else-last_for texts g given x (value v x)),
    )
