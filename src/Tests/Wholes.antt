-- ===== src/Tests/Wholes.antt =====
-- The whole command on the block file with two blocks, from the height 1.
use bitcoin_iterate.Prelude.{◌≡◌, refl, false, some, List, [], ◌∷◌, ok, Option, ◌-◌, ℕ, none}
use bitcoin_iterate.Types.{Block}
use bitcoin_iterate.Chain.Heights.{Heights}
use bitcoin_iterate.Cli.Command.{Given, Variables, Texts, initial, set_options}
use bitcoin_iterate.Cli.Last.{Variable, Value, value, meaning, or_else, last_for, set_options-last}

-- A number of one digit.
abbrev digit : List ℕ → Option ℕ
digit [] = none
digit (d ∷ text) = some (d - b'0')

abbrev texts : Texts
texts = record { uintval = digit; ulongval = digit; hex_decode = λ text n. none }

-- --block=%bN --no-mmap --start=1 --end=1
abbrev given : List Given
given =
    Given.block (b'%' ∷ b'b' ∷ b'N' ∷ [])
    ∷ Given.no_mmap
    ∷ Given.start (b'1' ∷ [])
    ∷ Given.end_at (b'1' ∷ [])
    ∷ []

abbrev variables : Variables
variables = record initial {
  blockfmt = some (b'%' ∷ b'b' ∷ b'N' ∷ []);
  use_mmap = false;
  block_start = 1;
  block_end = 1;
}

set_options-last_example :
    (v' : Variables) × (set_options texts given initial ≡ ok v')
    × ((x : Variable) → value v' x ≡ or_else (last_for texts x given) (value initial x))
unfolding meaning
set_options-last_example = set_options-last texts given initial (
  ((Variable.blockfmt, Value.text (some (b'%' ∷ b'b' ∷ b'N' ∷ []))), refl),
  (
    ((Variable.use_mmap, Value.flag false), refl),
    (
      ((Variable.block_start, Value.number 1), refl),
      (((Variable.block_end, Value.number 1), refl), tt),
    ),
  ),
)
