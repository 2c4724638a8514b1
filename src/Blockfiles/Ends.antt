-- ===== src/Blockfiles/Ends.antt =====
-- How the loops of `read_blockfiles` end: by themselves, in a number of rounds, whatever the fuel.
use bitcoin_iterate.Prelude.{
  ℕ, suc, ◌+◌, ◌≤◌, ◌≡◌, Bool, true, false, Option, none, some, List, [], ◌∷◌, Result, Failure, ok,
  err, ◌>>=◌,
}
use bitcoin_iterate.Types.{Hash, Block}
use bitcoin_iterate.Htable.{Htable}
use bitcoin_iterate.Block.{Entry, block_eq}
use bitcoin_iterate.Parse.{next_block_header_prefix}
use bitcoin_iterate.Blockfiles.{System, block_file}
use bitcoin_iterate.Blockfiles.Read.{Progress}
use bitcoin_iterate.Blockfiles.Rounds.{after_search}

module _ (sha256 : List ℕ → Hash) (blocks : Htable Hash Entry block_eq) (sys : System) (marker : ℕ)
    (use_mmap : Bool) (block_fnames : List (Option ℕ)) (block_end : Option ℕ) where
  -- One round of the loop over the blocks of file `i`; `go_on` is the rest of the loop.
  abbrev pub one_round :
      (i : ℕ)
      → (go_on : ℕ → Progress sha256 blocks → Result (Bool × Progress sha256 blocks)) → (off : ℕ)
      → Progress sha256 blocks
      → Result (Bool × Progress sha256 blocks)
  one_round i go_on off st = block_file sys block_fnames i use_mmap st.slots >>= λ opened.
      next_block_header_prefix opened.0 off marker >>= λ found.
      after_search sha256 blocks go_on marker block_end i opened.0 (record st { slots = opened.1 })
        found

  -- From an offset and a state the loop ends with the result after so many rounds: the last one does
  -- not go on, and each of those before leads to the next.
  pub data Ends (i : ℕ)
      : (rounds off : ℕ)
        → Progress sha256 blocks
        → Result (Bool × Progress sha256 blocks)
        → Type 0 where
    stops :
        (off : ℕ) (st : Progress sha256 blocks) (r : Result (Bool × Progress sha256 blocks))
        → ((go_on : ℕ → Progress sha256 blocks → Result (Bool × Progress sha256 blocks))
            → one_round i go_on off st ≡ r)
        → Ends i 1 off st r
    goes_on :
        (rounds off off' : ℕ) (st st' : Progress sha256 blocks)
        (r : Result (Bool × Progress sha256 blocks))
        → ((go_on : ℕ → Progress sha256 blocks → Result (Bool × Progress sha256 blocks))
            → one_round i go_on off st ≡ go_on off' st')
        → Ends i rounds off' st' r
        → Ends i (suc rounds) off st r

  -- The loop over the files ends, each file in `most` rounds at most.
  pub data AllEnd (most : ℕ)
      : ℕ
        → List (Option ℕ)
        → Progress sha256 blocks
        → Result (Progress sha256 blocks)
        → Type 0 where
    no_more : (i : ℕ) (st : Progress sha256 blocks) → AllEnd most i [] st (ok st)
    no_name :
        (i : ℕ) (rest : List (Option ℕ)) (st : Progress sha256 blocks)
        (r : Result (Progress sha256 blocks))
        → AllEnd most (i + 1) rest st r
        → AllEnd most i (none ∷ rest) st r
    failed :
        (i rounds name : ℕ) (rest : List (Option ℕ)) (st : Progress sha256 blocks) (e : Failure)
        → rounds ≤ most
        → Ends i rounds 0 st (err e)
        → AllEnd most i (some name ∷ rest) st (err e)
    stopped :
        (i rounds name : ℕ) (rest : List (Option ℕ)) (st st' : Progress sha256 blocks)
        → rounds ≤ most
        → Ends i rounds 0 st (ok (true, st'))
        → AllEnd most i (some name ∷ rest) st (ok st')
    next_file :
        (i rounds name : ℕ) (rest : List (Option ℕ)) (st st' : Progress sha256 blocks)
        (r : Result (Progress sha256 blocks))
        → rounds ≤ most
        → Ends i rounds 0 st (ok (false, st'))
        → AllEnd most (i + 1) rest st' r
        → AllEnd most i (some name ∷ rest) st r
