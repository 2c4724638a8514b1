-- ===== src/Blockfiles/Rounds.antt =====
-- The rounds of the loops of `read_blockfiles`.
use mathlib.Core.Path.{subst}
use native.Mathlib.Decide.{dec_le}
use bitcoin_iterate.Prelude.{
  ℕ, zero, suc, ◌+◌, ◌-◌, ◌≤◌, ◌<◌, ◌≡◌, refl, sym, ◌∙◌, ap, Bool, true, false, ◌&&◌, not, Option,
  none, some, List, [], Result, ok, ◌>>=◌, >>=-ok, >>=-congr, Holds, Holds-ok, Holds-any, Holds->>=,
  Bool-cases, Option-cases, inl, inr, arith,
}
use bitcoin_iterate.Prelude.Bytes.{read_at}
use bitcoin_iterate.Types.{Hash, Block}
use bitcoin_iterate.Htable.{Htable}
use bitcoin_iterate.Block.{Entry, block_eq, write, load, add_block}
use bitcoin_iterate.Io.{File, file_open}
use bitcoin_iterate.Io.Modes.{read_at-none, IsOpen, file_open-IsOpen}
use bitcoin_iterate.Parse.{next_block_header_prefix, read_block_header, skip_transactions}
use bitcoin_iterate.Parse.Scan.{scan_header_prefix-Outcome}
use bitcoin_iterate.Blockfiles.{System, Slots, open_file, block_file}
use bitcoin_iterate.Blockfiles.Cached.{IsSlots, Served-ok, open_index, block_file-open_index}
use bitcoin_iterate.Blockfiles.Read.{Progress, is_past, add_new_block, read_blockfile}

-- A file that opens is one that is found.
pub opened-IsOpen :
    (sys : System) (use_mmap : Bool) (name : ℕ) (f : File)
    → 0 < sys.page
    → open_file sys use_mmap name ≡ ok f
    → IsOpen f × (sys.contents name ≡ some f.disk)
unfolding open_file file_open
opened-IsOpen sys use_mmap name f page e = elim (Option-cases (sys.contents name)) [
  | inl gone ↦ ground arith
  | inr (disk, there) ↦ elim (Bool-cases sys.sizes) [
    | inr no_size ↦ ground arith
    | inl size ↦
        let (g, run, is, same, named) =
          file_open-IsOpen sys.page sys.maps [] disk name (record { no_mmap = not use_mmap })
            page in
        let here : g ≡ f = let e2 = rw (there, size) at e in ground arith in
        (rw here at is, there ∙ ap some (sym (rw here at same)))
  ]
]

pub marked_inside :
    (f : File) (off : ℕ) (bs : List ℕ) → IsOpen f → read_at f.disk off 4 ≡ some bs → off + 4 ≤ f.len
marked_inside f off bs is e = elim (dec_le (off + 4) f.len) [
  | yes h ↦ h
  | no h ↦ let none_there = read_at-none f.disk off 3 (omega (arith, is.len)) in cc
]

module _ (sha256 : List ℕ → Hash) (blocks : Htable Hash Entry block_eq) where
  abbrev pub Keeps : Slots → Bool × Progress sha256 blocks → Type 0
  Keeps slots r = (r.1).slots ≡ slots

  pub add_new_block-Keeps :
      (b : Block) (st : Progress sha256 blocks)
      → Holds (Keeps st.slots) (add_new_block sha256 blocks b st)
  unfolding add_new_block
  add_new_block-Keeps b st =
      Holds->>= (Keeps st.slots)
        (add_block blocks (st.fresh + 1) st.table
          (record st.chain { store = write st.chain.store st.fresh b }) st.fresh)
        _
        (λ r.
          Holds-ok (Keeps st.slots)
            (r.0, record st { table = r.1; chain = r.2; fresh = st.fresh + 1 }) refl)

  -- A round behind the search, with what the loop goes on with.
  abbrev pub after_search :
      (ℕ → Progress sha256 blocks → Result (Bool × Progress sha256 blocks))
      → (marker : ℕ) (block_end : Option ℕ) (i : ℕ) → File
      → Progress sha256 blocks
      → Bool × ℕ
      → Result (Bool × Progress sha256 blocks)
  after_search go_on marker block_end i f st found = elim found.0 [
    | false ↦ ok (false, st)
    | true ↦ read_block_header sha256 f found.1 marker >>= λ head.
        add_new_block sha256 blocks
          (record {
            id = head.1;
            height = none;
            filenum = i;
            pos = head.2;
            next = none;
            bh = head.0;
          })
          st
        >>= λ added. load (added.1).chain.store ((added.1).fresh - 1) >>= λ b.
            elim (added.0 && is_past block_end b.height) [
              | true ↦ ok (true, added.1)
              | false ↦
                  go_on (skip_transactions head.0 found.1)
                    (record (added.1) { block_count = (added.1).block_count + 1 })
            ]
  ]

  after_search_congr :
      (go_on go_on' : ℕ → Progress sha256 blocks → Result (Bool × Progress sha256 blocks))
      (marker : ℕ) (block_end : Option ℕ) (i : ℕ) (f : File) (st : Progress sha256 blocks)
      (block_start : ℕ)
      → ((off : ℕ) (st' : Progress sha256 blocks)
          → block_start + 8 ≤ off
          → st'.slots ≡ st.slots
          → go_on off st' ≡ go_on' off st')
      → after_search go_on marker block_end i f st (true, block_start)
        ≡ after_search go_on' marker block_end i f st (true, block_start)
  unfolding skip_transactions
  after_search_congr go_on go_on' marker block_end i f st block_start same =
      >>=-congr (λ head. Unit {0}) (read_block_header sha256 f block_start marker) _ _ (Holds-any _)
        (λ head u.
          >>=-congr (Keeps st.slots) (add_new_block sha256 blocks _ st) _ _
            (add_new_block-Keeps _ st)
            (λ added keeps.
              >>=-congr (λ b. Unit {0}) (load (added.1).chain.store ((added.1).fresh - 1)) _ _
                (Holds-any _)
                (λ b u. elim (Bool-cases (added.0 && is_past block_end b.height)) [
                  | inl stops ↦ rw stops refl
                  | inr goes ↦ rw goes (same _ _ (omega arith) keeps)
                ])))

  pub read_blockfile_round :
      (fuel : ℕ) (sys : System) (marker : ℕ) (use_mmap : Bool) (block_fnames : List (Option ℕ))
      (block_end : Option ℕ) (i off : ℕ) (st : Progress sha256 blocks) (f : File) (slots : Slots)
      (found : Bool × ℕ)
      → block_file sys block_fnames i use_mmap st.slots ≡ ok (f, slots)
      → next_block_header_prefix f off marker ≡ ok found
      → read_blockfile sha256 blocks (suc fuel) sys marker use_mmap block_fnames block_end i off st
        ≡ after_search
            (λ off' st'.
              read_blockfile sha256 blocks fuel sys marker use_mmap block_fnames block_end i off'
                st')
            marker
            block_end
            i
            f
            (record st { slots = slots })
            found
  unfolding read_blockfile
  read_blockfile_round fuel sys marker use_mmap block_fnames block_end i off st f slots found served
        search =
      >>=-ok _ served ∙ >>=-ok _ search

  -- Every round of the loop over blocks that goes on passes eight bytes, so more fuel than there are
  -- bytes left changes nothing.
  pub read_blockfile_more_fuel :
      (fuel more : ℕ) (sys : System) (marker : ℕ) (use_mmap : Bool) (block_fnames : List (Option ℕ))
      (block_end : Option ℕ) (i off : ℕ) (st : Progress sha256 blocks) (f : File)
      → open_index sys block_fnames i use_mmap ≡ ok f
      → IsOpen f
      → IsSlots sys use_mmap st.slots
      → 0 < fuel
      → f.len < off + fuel
      → read_blockfile sha256 blocks
          (fuel + more)
          sys
          marker
          use_mmap
          block_fnames
          block_end
          i
          off
          st
        ≡ read_blockfile sha256 blocks fuel sys marker use_mmap block_fnames block_end i off st
  unfolding next_block_header_prefix
  read_blockfile_more_fuel zero more sys marker use_mmap block_fnames block_end i off st f opened is
        cached some_fuel enough =
      absurd (omega arith)
  read_blockfile_more_fuel (suc fuel) more sys marker use_mmap block_fnames block_end i off st f
        opened is cached some_fuel enough =
      let (slots, served, cached') =
        Served-ok sys use_mmap f _ _ opened
          (block_file-open_index sys block_fnames i use_mmap st.slots cached) in
      let longer : read_blockfile sha256 blocks (suc fuel + more) sys marker use_mmap block_fnames
            block_end i off st
          ≡ read_blockfile sha256 blocks (suc (fuel + more)) sys marker use_mmap block_fnames
              block_end i off st =
        ap (λ k. read_blockfile sha256 blocks k sys marker use_mmap block_fnames block_end i off st)
          (omega arith) in
      elim (scan_header_prefix-Outcome f is marker (f.len + 1) off (omega arith) (omega arith)) [
        | inr (off', search, none_there) ↦
            longer
            ∙ (read_blockfile_round (fuel + more) sys marker use_mmap block_fnames block_end i off
                  st f slots (false, off') served search
                ∙ sym (
                    read_blockfile_round fuel sys marker use_mmap block_fnames block_end i off st f
                      slots (false, off') served search))
        | inl (off', search, le, (bs, marked, m), between) ↦
            longer
            ∙ (read_blockfile_round (fuel + more) sys marker use_mmap block_fnames block_end i off
                  st f slots (true, off') served search
                ∙ (after_search_congr _ _ marker block_end i f (record st { slots = slots }) off'
                      (λ off'' st' passed kept.
                        read_blockfile_more_fuel fuel more sys marker use_mmap block_fnames
                          block_end i off'' st' f opened is
                          (subst (λ x. IsSlots sys use_mmap x) (sym kept) cached')
                          (let inside : off' + 4 ≤ f.len = marked_inside f off' bs is marked in
                            omega arith)
                          (let inside : off' + 4 ≤ f.len = marked_inside f off' bs is marked in
                            omega arith))
                    ∙ sym (
                        read_blockfile_round fuel sys marker use_mmap block_fnames block_end i off
                          st f slots (true, off') served search)))
      ]
