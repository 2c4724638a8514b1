-- ===== src/Blockfiles/Enough.antt =====
-- The fuel of `read_blockfiles`.
use mathlib.Core.Path.{subst}
use bitcoin_iterate.Prelude.{
  ℕ, zero, suc, ◌+◌, ◌-◌, ◌<◌, ◌≡◌, refl, sym, ◌∙◌, ap, Bool, true, false, ◌&&◌, Option, none, some,
  List, [], ◌∷◌, length, get_elem?, Result, Failure, ok, err, out_of_fuel, >>=-congr, Holds,
  Holds-ok, Holds-err, Holds->>=, Holds-then, Result-cases, Bool-cases, Option-cases, inl, inr,
  arith,
}
use bitcoin_iterate.Types.{Hash}
use bitcoin_iterate.Htable.{Htable}
use bitcoin_iterate.Block.{Ptr, Entry, block_eq, load}
use bitcoin_iterate.Io.{File}
use bitcoin_iterate.Parse.{next_block_header_prefix, read_block_header, skip_transactions}
use bitcoin_iterate.Blockfiles.{System, Slots, open_file, block_file}
use bitcoin_iterate.Blockfiles.Cached.{
  IsSlots, Served, Served-err, open_index, block_file-open_index,
}
use bitcoin_iterate.Blockfiles.Read.{
  Progress, netmarker, is_past, add_new_block, read_blockfile, read_blockfiles_from,
  read_blockfiles,
}
use bitcoin_iterate.Blockfiles.Rounds.{
  opened-IsOpen, Keeps, add_new_block-Keeps, read_blockfile_more_fuel,
}

pub open_index_name :
    (sys : System) (block_fnames : List (Option ℕ)) (i : ℕ) (use_mmap : Bool) (f : File)
    → open_index sys block_fnames i use_mmap ≡ ok f
    → (name : ℕ) × (open_file sys use_mmap name ≡ ok f)
unfolding open_index
open_index_name sys block_fnames i use_mmap f e = elim (Option-cases (get_elem? block_fnames i)) [
  | inl gone ↦ ground arith
  | inr (none, there) ↦ ground arith
  | inr (some name, there) ↦ (name, rw there at e)
]

block_file-IsSlots :
    (sys : System) (block_fnames : List (Option ℕ)) (i : ℕ) (use_mmap : Bool) (slots : Slots)
    → IsSlots sys use_mmap slots
    → Holds
        (λ (r : File × Slots). IsSlots sys use_mmap r.1)
        (block_file sys block_fnames i use_mmap slots)
block_file-IsSlots sys block_fnames i use_mmap slots is =
    kept (block_file sys block_fnames i use_mmap slots) (open_index sys block_fnames i use_mmap)
      (block_file-open_index sys block_fnames i use_mmap slots is)
  where
    kept :
        (r : Result (File × Slots)) (opened : Result File)
        → Served sys use_mmap r opened
        → Holds (λ (r : File × Slots). IsSlots sys use_mmap r.1) r
    kept (ok (f, slots)) opened (e, is') =
        Holds-ok (λ (r : File × Slots). IsSlots sys use_mmap r.1) (f, slots) is'
    kept (err stop) opened e = Holds-err (λ (r : File × Slots). IsSlots sys use_mmap r.1) stop

module _ (sha256 : List ℕ → Hash) (blocks : Htable Hash Entry block_eq) (sys : System)
    (use_mmap : Bool) where
  abbrev pub CachedStep : Bool × Progress sha256 blocks → Type 0
  CachedStep r = IsSlots sys use_mmap (r.1).slots

  pub read_blockfile-CachedStep :
      (fuel : ℕ) (marker : ℕ) (block_fnames : List (Option ℕ)) (block_end : Option ℕ) (i off : ℕ)
      (st : Progress sha256 blocks)
      → IsSlots sys use_mmap st.slots
      → Holds CachedStep
          (read_blockfile sha256 blocks fuel sys marker use_mmap block_fnames block_end i off st)
  unfolding read_blockfile CachedStep
  read_blockfile-CachedStep zero marker block_fnames block_end i off st is =
      Holds-err CachedStep out_of_fuel
  read_blockfile-CachedStep (suc fuel) marker block_fnames block_end i off st is =
      Holds-then (λ (r : File × Slots). IsSlots sys use_mmap r.1) CachedStep
        (block_file sys block_fnames i use_mmap st.slots) _
        (block_file-IsSlots sys block_fnames i use_mmap st.slots is)
        (λ opened is'.
          Holds->>= CachedStep (next_block_header_prefix opened.0 off marker) _ (λ found.
            elim (Bool-cases found.0) [
              | inr e ↦ rw e (Holds-ok CachedStep (false, record st { slots = opened.1 }) is')
              | inl e ↦ rw e (
                  Holds->>= CachedStep (read_block_header sha256 opened.0 found.1 marker) _ (λ head.
                    Holds-then (Keeps sha256 blocks opened.1) CachedStep
                      (add_new_block sha256 blocks _ (record st { slots = opened.1 })) _
                      (add_new_block-Keeps sha256 blocks _ (record st { slots = opened.1 }))
                      (λ added keeps.
                        Holds->>= CachedStep (load (added.1).chain.store ((added.1).fresh - 1)) _
                          (λ b. elim (Bool-cases (added.0 && is_past block_end b.height)) [
                            | inl stops ↦ rw stops (
                                Holds-ok CachedStep (true, added.1)
                                  (subst (λ x. IsSlots sys use_mmap x) (sym keeps) is'))
                            | inr goes ↦ rw goes (
                                read_blockfile-CachedStep fuel marker block_fnames block_end i
                                  (skip_transactions head.0 found.1)
                                  (record (added.1) { block_count = (added.1).block_count + 1 })
                                  (subst (λ x. IsSlots sys use_mmap x) (sym keeps) is'))
                          ]))))
            ]))

  -- One file of the loop over the files.
  read_blockfile_more :
      (fuel more : ℕ) (marker : ℕ) (block_fnames : List (Option ℕ)) (block_end : Option ℕ) (i : ℕ)
      (st : Progress sha256 blocks)
      → 0 < sys.page
      → 0 < fuel
      → ((name : ℕ) (disk : List ℕ) → sys.contents name ≡ some disk → length disk < fuel)
      → IsSlots sys use_mmap st.slots
      → read_blockfile sha256 blocks (fuel + more) sys marker use_mmap block_fnames block_end i 0 st
        ≡ read_blockfile sha256 blocks fuel sys marker use_mmap block_fnames block_end i 0 st
  unfolding read_blockfile
  read_blockfile_more zero more marker block_fnames block_end i st page some_fuel enough cached =
      absurd (omega arith)
  read_blockfile_more (suc fuel) more marker block_fnames block_end i st page some_fuel enough
        cached =
      elim (Result-cases (open_index sys block_fnames i use_mmap)) [
        | inr (f, opened) ↦
            let (name, e) = open_index_name sys block_fnames i use_mmap f opened in
            let (is, there) = opened-IsOpen sys use_mmap name f page e in
            let short : length f.disk < suc fuel = enough name f.disk there in
            read_blockfile_more_fuel sha256 blocks (suc fuel) more sys marker use_mmap block_fnames
              block_end i 0 st f opened is cached some_fuel (omega (arith, is.len))
        | inl (stop, gone) ↦
            let missing =
              Served-err sys use_mmap stop _ _ gone
                (block_file-open_index sys block_fnames i use_mmap st.slots cached) in
            let sum : suc fuel + more ≡ suc (fuel + more) = omega arith in
            ap
              (λ k.
                read_blockfile sha256 blocks k sys marker use_mmap block_fnames block_end i 0 st)
              sum
            ∙ (fails (fuel + more) stop missing ∙ sym (fails fuel stop missing))
      ]
    where
      fails :
          (n : ℕ) (stop : Failure)
          → block_file sys block_fnames i use_mmap st.slots ≡ err stop
          → read_blockfile sha256 blocks (suc n) sys marker use_mmap block_fnames block_end i 0 st
            ≡ err stop
      fails n stop missing = rw missing refl

  read_blockfiles_from_more :
      (fuel more : ℕ) (marker : ℕ) (block_fnames : List (Option ℕ)) (block_end : Option ℕ) (i : ℕ)
      (rest : List (Option ℕ)) (st : Progress sha256 blocks)
      → 0 < sys.page
      → 0 < fuel
      → ((name : ℕ) (disk : List ℕ) → sys.contents name ≡ some disk → length disk < fuel)
      → IsSlots sys use_mmap st.slots
      → read_blockfiles_from sha256 blocks
          (fuel + more)
          sys
          marker
          use_mmap
          block_fnames
          block_end
          i
          rest
          st
        ≡ read_blockfiles_from sha256 blocks fuel sys marker use_mmap block_fnames block_end i rest
            st
  unfolding read_blockfiles_from CachedStep
  read_blockfiles_from_more fuel more marker block_fnames block_end i [] st page some_fuel enough
        cached =
      refl
  read_blockfiles_from_more fuel more marker block_fnames block_end i (none ∷ rest) st page
        some_fuel enough cached =
      read_blockfiles_from_more fuel more marker block_fnames block_end (i + 1) rest st page
        some_fuel enough cached
  read_blockfiles_from_more fuel more marker block_fnames block_end i (some name ∷ rest) st page
        some_fuel enough cached =
      rw
        (read_blockfile_more fuel more marker block_fnames block_end i st page some_fuel enough
          cached)
        (>>=-congr CachedStep
          (read_blockfile sha256 blocks fuel sys marker use_mmap block_fnames block_end i 0 st) _ _
          (read_blockfile-CachedStep fuel marker block_fnames block_end i 0 st cached)
          (λ r is. elim (Bool-cases r.0) [
            | inl e ↦ rw e refl
            | inr e ↦ rw e (
                read_blockfiles_from_more fuel more marker block_fnames block_end (i + 1) rest r.1
                  page some_fuel enough is)
          ]))

  -- With more fuel than any file has bytes, more fuel changes nothing.
  pub read_blockfiles_more_fuel :
      (fuel more : ℕ) (use_testnet : Bool) (block_fnames : List (Option ℕ)) (genesis : Option Ptr)
      (block_end : Option ℕ)
      → 0 < sys.page
      → 0 < fuel
      → ((name : ℕ) (disk : List ℕ) → sys.contents name ≡ some disk → length disk < fuel)
      → read_blockfiles sha256 blocks
          (fuel + more)
          sys
          use_testnet
          use_mmap
          block_fnames
          genesis
          block_end
        ≡ read_blockfiles sha256 blocks fuel sys use_testnet use_mmap block_fnames genesis block_end
  unfolding read_blockfiles
  read_blockfiles_more_fuel fuel more use_testnet block_fnames genesis block_end page some_fuel
        enough =
      read_blockfiles_from_more fuel more (netmarker use_testnet) block_fnames block_end 0
        block_fnames _ page some_fuel enough (record { first = tt; second = tt })
