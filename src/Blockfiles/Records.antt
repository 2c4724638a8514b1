-- ===== src/Blockfiles/Records.antt =====
-- A block file that holds blocks one behind the other: what the loop over it does, told without the
-- file.
use mathlib.Core.Path.{subst}
use bitcoin_iterate.Prelude.{
  ℕ, zero, suc, ◌+◌, ◌-◌, ◌^◌, ◌≤◌, ◌<◌, ◌≡◌, refl, sym, ◌∙◌, ap, Bool, true, false, ◌&&◌, ◌==◌,
  Option, none, List, [], ◌∷◌, ◌++◌, length, length-append, append-nil, All, leb, le→leb, ==_iff,
  Result, ok, ◌>>=◌, >>=-ok, Result-cases, Bool-cases, inl, inr, arith,
}
use bitcoin_iterate.Prelude.Bytes.{
  Reads, Reads-append_left, Reads-append_right, Reads-between, to_le, length-to_le,
}
use bitcoin_iterate.Types.{Hash, BlockHeader, Block}
use bitcoin_iterate.Htable.{Htable}
use bitcoin_iterate.Block.{Entry, block_eq, write, load, add_block}
use bitcoin_iterate.Io.{File}
use bitcoin_iterate.Io.Modes.{IsOpen}
use bitcoin_iterate.Format.{varint_buf}
use bitcoin_iterate.Serial.{header_bytes, BlockHeaderFits}
use bitcoin_iterate.Parse.{
  next_block_header_prefix, scan_header_prefix, read_block_header, skip_transactions,
}
use bitcoin_iterate.Parse.Words.{pull_u32-to_le}
use bitcoin_iterate.Parse.Header.{read_block_header-header_bytes}
use bitcoin_iterate.Blockfiles.{System, Slots}
use bitcoin_iterate.Blockfiles.Cached.{IsSlots, Served-ok, open_index, block_file-open_index}
use bitcoin_iterate.Blockfiles.Read.{Progress, is_past, add_new_block, read_blockfile}
use bitcoin_iterate.Blockfiles.Rounds.{read_blockfile_round}

-- A block as it stands in a file: its header, and the bytes of its transactions.
pub record StoredBlock : Type 0 where
  pub bh : BlockHeader
  pub body : List ℕ

-- The marker and the length, and what the length counts: the header, the number of transactions, and
-- the transactions.
abbrev pub stored_bytes : StoredBlock → List ℕ
stored_bytes r =
    (to_le 4 r.bh.d9b4bef9
      ++ (to_le 4 r.bh.len ++ (header_bytes r.bh ++ varint_buf r.bh.transaction_count)))
    ++ r.body

pub record StoredFits (marker : ℕ) (r : StoredBlock) : Type 0 where
  pub fits : BlockHeaderFits r.bh
  pub marked : r.bh.d9b4bef9 ≡ marker
  pub len : r.bh.len ≡ 80 + length (varint_buf r.bh.transaction_count) + length r.body

abbrev pub file_bytes : List StoredBlock → List ℕ
file_bytes [] = []
file_bytes (r ∷ rs) = stored_bytes r ++ file_bytes rs

length-stored_bytes :
    (marker : ℕ) (r : StoredBlock) → StoredFits marker r → length (stored_bytes r) ≡ 8 + r.bh.len
length-stored_bytes marker r s =
    omega (arith, length-append {0}, length-to_le, s.fits.prev_hash, s.fits.merkle_hash, s.len)

-- The search that begins at a marker stops there.
next_block_header_prefix_here :
    (f : File) (off marker : ℕ)
    → IsOpen f
    → marker < 2 ^ 32
    → Reads f.disk off (to_le 4 marker)
    → off + 4 ≤ f.len
    → next_block_header_prefix f off marker ≡ ok (true, off)
unfolding next_block_header_prefix scan_header_prefix
next_block_header_prefix_here f off marker is small r inside = hit (f.len + 1) (omega arith)
  where
    same : (marker == marker) ≡ true
    same = (==_iff marker marker).1 refl

    found : ℕ → Bool → Result (Bool × ℕ)
    found fuel t = elim t [
      | true ↦ ok (true, off + 4 - 4)
      | false ↦ scan_header_prefix fuel f (off + 4 - 4 + 1) marker
    ]

    hit : (fuel : ℕ) → 0 < fuel → scan_header_prefix fuel f off marker ≡ ok (true, off)
    hit zero pos = absurd (omega arith)
    hit (suc fuel) pos =
        rw
          (
            scan_header_prefix,
            le→leb (off + 4) f.len inside,
            pull_u32-to_le f off is marker small r,
          )
          (ap (λ t. found fuel t) same ∙ ap (λ o. ok (true, o)) (omega arith))

next_block_header_prefix_end :
    (f : File) (off marker : ℕ)
    → f.len < off + 4
    → next_block_header_prefix f off marker ≡ ok (false, off)
unfolding next_block_header_prefix scan_header_prefix
next_block_header_prefix_end f off marker past = stop (f.len + 1) (omega arith)
  where
    outside : leb (off + 4) f.len ≡ false
    outside = ground arith

    stop : (fuel : ℕ) → 0 < fuel → scan_header_prefix fuel f off marker ≡ ok (false, off)
    stop zero pos = absurd (omega arith)
    stop (suc fuel) pos = rw (scan_header_prefix, outside) refl

module _ (sha256 : List ℕ → Hash) (blocks : Htable Hash Entry block_eq) where
  -- The block that is made of a stored one at `off` in file `i`.
  abbrev pub stored_block : (i off : ℕ) → StoredBlock → Block
  stored_block i off r = record {
    id = sha256 (sha256 (header_bytes r.bh));
    height = none;
    filenum = i;
    pos = off + 88 + length (varint_buf r.bh.transaction_count);
    next = none;
    bh = r.bh;
  }

  -- The blocks are added one after the other, until one is more than 100 above the last height.
  unfoldable pub add_stored :
      (block_end : Option ℕ) (i off : ℕ)
      → List StoredBlock
      → Progress sha256 blocks
      → Result (Bool × Progress sha256 blocks)
  unfolding load
  add_stored block_end i off [] st = ok (false, st)
  add_stored block_end i off (r ∷ rs) st = do
    (added, st) ← add_new_block sha256 blocks (stored_block i off r) st
    b ← load st.chain.store (st.fresh - 1)
    let rest =
        add_stored block_end i (off + length (stored_bytes r)) rs
          (record st { block_count = st.block_count + 1 })
    elim (added && is_past block_end b.height) [ true ↦ ok (true, st) | false ↦ rest ]

  -- The slots pass through.
  add_new_block-slots :
      (b : Block) (st : Progress sha256 blocks) (slots : Slots)
      → add_new_block sha256 blocks b (record st { slots = slots })
        ≡ (add_new_block sha256 blocks b st >>= λ r. ok (r.0, record r.1 { slots = slots }))
  unfolding add_new_block
  add_new_block-slots b st slots =
      elim (Result-cases (
        add_block blocks (st.fresh + 1) st.table
          (record st.chain { store = write st.chain.store st.fresh b }) st.fresh)) [
            | inl (stop, e) ↦ rw e refl
            | inr (r, e) ↦ rw e refl
          ]

  -- Both go on, or both stop.
  either :
      {t t' : Bool}
      → t' ≡ t
      → (st : Progress sha256 blocks) (slots slots' : Slots)
        (again rest : Result (Bool × Progress sha256 blocks))
      → (elim t' [ true ↦ ok (true, record st { slots = slots }) | false ↦ again ]) ≡ (
          elim t' [ true ↦ ok (true, st) | false ↦ rest ] >>= λ r.
          ok (r.0, record r.1 { slots = slots' }))
      → (elim t [ true ↦ ok (true, record st { slots = slots }) | false ↦ again ]) ≡ (
          elim t [ true ↦ ok (true, st) | false ↦ rest ] >>= λ r.
          ok (r.0, record r.1 { slots = slots' }))
  either same st slots slots' again rest e =
      subst
        (λ t. (elim t [ true ↦ ok (true, record st { slots = slots }) | false ↦ again ]) ≡ (
          elim t [ true ↦ ok (true, st) | false ↦ rest ] >>= λ r.
          ok (r.0, record r.1 { slots = slots' })))
        same e

  -- What is read of a stored block.
  read_stored :
      (f : File) (off marker : ℕ) (b : StoredBlock)
      → IsOpen f
      → StoredFits marker b
      → Reads f.disk off (stored_bytes b)
      → off + 8 ≤ f.len
      → (next_block_header_prefix f off marker ≡ ok (true, off))
        × (read_block_header sha256 f off marker
            ≡ ok (
              b.bh,
              sha256 (sha256 (header_bytes b.bh)),
              off + 88 + length (varint_buf b.bh.transaction_count),
            ))
  read_stored f off marker b is s r inside =
      let head = Reads-append_left f.disk off _ b.body r in
      (
        next_block_header_prefix_here f off marker is (rw s.marked at s.fits.d9b4bef9)
            (rw s.marked at (Reads-append_left f.disk off (to_le 4 b.bh.d9b4bef9) _ head))
            (omega arith),
        subst
            (λ k.
              read_block_header sha256 f off k
              ≡ ok (
                b.bh,
                sha256 (sha256 (header_bytes b.bh)),
                off + 88 + length (varint_buf b.bh.transaction_count),
              ))
            s.marked (read_block_header-header_bytes sha256 f off b.bh is s.fits head),
      )

  read_blockfile-add_stored_from :
      (fuel : ℕ) (sys : System) (marker : ℕ) (use_mmap : Bool) (block_fnames : List (Option ℕ))
      (block_end : Option ℕ) (i off : ℕ) (st : Progress sha256 blocks) (slots : Slots) (f : File)
      (rs : List StoredBlock)
      → open_index sys block_fnames i use_mmap ≡ ok f
      → IsOpen f
      → IsSlots sys use_mmap slots
      → All (StoredFits marker) rs
      → Reads f.disk off (file_bytes rs)
      → f.len ≡ off + length (file_bytes rs)
      → length rs < fuel
      → (slots' : Slots) × IsSlots sys use_mmap slots'
        × (read_blockfile sha256 blocks fuel sys marker use_mmap block_fnames block_end i off
              (record st { slots = slots })
            ≡ (add_stored block_end i off rs st >>= λ r. ok (r.0, record r.1 { slots = slots' })))
  unfolding add_stored skip_transactions
  read_blockfile-add_stored_from zero sys marker use_mmap block_fnames block_end i off st slots f rs
        opened is cached fits r whole enough =
      absurd (omega arith)
  read_blockfile-add_stored_from (suc fuel) sys marker use_mmap block_fnames block_end i off st
        slots f [] opened is cached fits r whole enough =
      let (slots1, served, cached1) =
        Served-ok sys use_mmap f _ _ opened
          (block_file-open_index sys block_fnames i use_mmap slots cached) in
      (
        slots1,
        cached1,
        read_blockfile_round sha256 blocks fuel sys marker use_mmap block_fnames block_end i off
            (record st { slots = slots }) f slots1 (false, off) served
            (next_block_header_prefix_end f off marker (omega arith)),
      )
  read_blockfile-add_stored_from (suc fuel) sys marker use_mmap block_fnames block_end i off st
        slots f (b ∷ rs) opened is cached fits r whole enough =
      let (slots1, served, cached1) =
        Served-ok sys use_mmap f _ _ opened
          (block_file-open_index sys block_fnames i use_mmap slots cached) in
      let long : length (stored_bytes b) ≡ 8 + b.bh.len = length-stored_bytes marker b fits.0 in
      let both : length (file_bytes (b ∷ rs)) ≡ length (stored_bytes b) + length (file_bytes rs) =
        length-append (stored_bytes b) (file_bytes rs) in
      let r1 = Reads-append_left f.disk off (stored_bytes b) (file_bytes rs) r in
      let r2 = Reads-append_right f.disk off (stored_bytes b) (file_bytes rs) r in
      let (search, head) = read_stored f off marker b is fits.0 r1 (omega arith) in
      let round =
        read_blockfile_round sha256 blocks fuel sys marker use_mmap block_fnames block_end i off
          (record st { slots = slots }) f slots1 (true, off) served search in
      let step = add_new_block-slots (stored_block i off b) st slots1 in
      elim (Result-cases (add_new_block sha256 blocks (stored_block i off b) st)) [
        | inl (stop, e) ↦ (slots1, cached1, round ∙ (>>=-ok _ head ∙ rw (step, e) refl))
        | inr (added, e) ↦ elim (Result-cases (load (added.1).chain.store ((added.1).fresh - 1))) [
          | inl (stop, e2) ↦ (slots1, cached1, round ∙ (>>=-ok _ head ∙ rw (step, e) (rw e2 refl)))
          | inr (blk, e2) ↦ elim (Bool-cases (added.0 && is_past block_end blk.height)) [
            | inl stops ↦ (
              slots1,
              cached1,
              round
                  ∙ (>>=-ok _ head
                      ∙ rw (step, e) (rw e2 (either (sym stops) added.1 slots1 slots1 _ _ refl))),
            )
            | inr goes ↦
                let (slots', cached', ih) =
                  read_blockfile-add_stored_from fuel sys marker use_mmap block_fnames block_end i
                    (off + length (stored_bytes b))
                    (record (added.1) { block_count = (added.1).block_count + 1 }) slots1 f rs
                    opened is cached1 fits.1 r2 (omega arith) (omega arith) in
                let next : skip_transactions b.bh off ≡ off + length (stored_bytes b) =
                  omega arith in
                (
                  slots',
                  cached',
                  round
                      ∙ (>>=-ok _ head
                          ∙ rw (step, e)
                              (rw e2 (either (sym goes) added.1 slots1 slots' _ _ (rw next ih)))),
                )
          ]
        ]
      ]

  file_bytes_room :
      (marker : ℕ) (rs : List StoredBlock)
      → All (StoredFits marker) rs
      → length rs ≤ length (file_bytes rs)
  file_bytes_room marker [] fits = omega arith
  file_bytes_room marker (b ∷ rs) fits = omega (
    arith,
    length-append (stored_bytes b) (file_bytes rs),
    length-stored_bytes marker b fits.0,
    file_bytes_room marker rs fits.1,
  )

  -- For a file that holds blocks one behind the other and nothing else, each with the marker of the
  -- network and a length that counts its header and its transactions, and more rounds than it has
  -- bytes, the loop over the file adds these blocks in order, each with its header, the double SHA256
  -- of it, and the place of its transactions, until one lies more than 100 above the last
  -- height that is asked for. The slots of open files are not seen, but at the end, and then they are
  -- what they should be.
  pub read_blockfile-add_stored :
      (fuel : ℕ) (sys : System) (marker : ℕ) (use_mmap : Bool) (block_fnames : List (Option ℕ))
      (block_end : Option ℕ) (i : ℕ) (st : Progress sha256 blocks) (f : File)
      (rs : List StoredBlock)
      → open_index sys block_fnames i use_mmap ≡ ok f
      → IsOpen f
      → IsSlots sys use_mmap st.slots
      → All (StoredFits marker) rs
      → f.disk ≡ file_bytes rs
      → length (file_bytes rs) < fuel
      → (slots : Slots) × IsSlots sys use_mmap slots
        × (read_blockfile sha256 blocks fuel sys marker use_mmap block_fnames block_end i 0 st
            ≡ (add_stored block_end i 0 rs st >>= λ r. ok (r.0, record r.1 { slots = slots })))
  read_blockfile-add_stored fuel sys marker use_mmap block_fnames block_end i st f rs opened is
        cached fits whole enough =
      let all : file_bytes rs ++ [] ≡ f.disk = append-nil (file_bytes rs) ∙ sym whole in
      read_blockfile-add_stored_from fuel sys marker use_mmap block_fnames block_end i 0 st st.slots
        f rs opened is cached fits
        (subst (λ xs. Reads xs 0 (file_bytes rs)) all (Reads-between [] (file_bytes rs) []))
        (is.len ∙ (ap length whole ∙ omega arith)) (omega (arith, file_bytes_room marker rs fits))
