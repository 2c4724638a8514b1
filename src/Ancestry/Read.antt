-- ===== src/Ancestry/Read.antt =====
-- What the reading of the block files leaves.
use mathlib.Core.List.{Mem, not-mem-nil}
use mathlib.Core.Path.{subst}
use bitcoin_iterate.Prelude.{
  ℕ, zero, suc, ◌+◌, ◌-◌, ◌≤◌, ◌≡◌, refl, sym, ◌∙◌, ap, Bool, true, false, ◌&&◌, Option, none, some,
  List, [], ◌∷◌, ◌==◌, ok, fault, if◌then◌else◌, out_of_fuel, Holds, Holds-ok, Holds-err,
  Holds-then, Holds->>=, Holds_at, Option-cases, Bool-cases, inl, inr, arith,
}
use bitcoin_iterate.Types.{Hash, Block}
use bitcoin_iterate.Htable.{Htable}
use bitcoin_iterate.Block.{Ptr, Store, Entry, block_eq, write, load, set_height, add_block}
use bitcoin_iterate.Blockfiles.{System, block_file}
use bitcoin_iterate.Parse.{next_block_header_prefix, read_block_header, skip_transactions}
use bitcoin_iterate.Blockfiles.Read.{
  Progress, netmarker, is_past, add_new_block, read_blockfile, read_blockfiles_from,
  read_blockfiles,
}
use bitcoin_iterate.Chain.{higher, set_heights_and_best, set_heights_and_best_from}
use bitcoin_iterate.Chain.Links.{write-same, write-other}
use bitcoin_iterate.Ancestry.{Ancestry, IsRooted, IsRooted-Ancestry, Parented}
use bitcoin_iterate.Ancestry.Relinked.{Named}
use bitcoin_iterate.Ancestry.Owned.{Owned-Named}
use bitcoin_iterate.Ancestry.Found.{set_height_missing, Left, set_height-Stays}
use bitcoin_iterate.Ancestry.Added.{Sound, Adds, add_block-Adds}

-- A new block of unknown height, behind all others.
new-IsRooted :
    (h : Store) (fresh : Ptr) (b : Block)
    → b.height ≡ none
    → IsRooted h fresh
    → IsRooted (write h fresh b) (fresh + 1)
new-IsRooted h fresh b u is = record { parented = parented; unused = unused }
  where
    persists : (x : Block) → Parented h x → Parented (write h fresh b) x
    persists x (inl z) = inl z
    persists x (inr (q, qb, n, e, i, k, k')) = inr (
      q,
      qb,
      n,
      elim (Bool-cases (q == fresh)) [
        | inl hit ↦ let gone = is.unused q (ground arith) in cc
        | inr miss ↦ write-other h fresh q b miss ∙ e
      ],
      i,
      k,
      k',
    )

    parented :
        (r : Ptr) (x : Block) (n : ℕ)
        → write h fresh b r ≡ some x
        → x.height ≡ some n
        → Parented (write h fresh b) x
    parented r x n e k = elim (Bool-cases (r == fresh)) [
      | inl hit ↦
          let at : r ≡ fresh = ground arith in
          let now : write h fresh b r ≡ some b = rw at (write-same h fresh b) in
          let same : b ≡ x = ground arith in let known = ap (λ y. y.height) same in cc
      | inr miss ↦ persists x (is.parented r x n (sym (write-other h fresh r b miss) ∙ e) k)
    ]

    unused : (r : Ptr) → fresh + 1 ≤ r → write h fresh b r ≡ none
    unused r le = write-other h fresh r b (ground arith) ∙ is.unused r (omega arith)

new-Named : (h : Store) (fresh : Ptr) (b : Block) → h fresh ≡ none → Named h (write h fresh b)
new-Named h fresh b gone r x e = elim (Bool-cases (r == fresh)) [
  | inl hit ↦ let at : r ≡ fresh = ground arith in let here = rw at at e in cc
  | inr miss ↦ (x, write-other h fresh r b miss ∙ e, refl)
]

module _ (sha256 : List ℕ → Hash) (blocks : Htable Hash Entry block_eq) where
  open blocks use {Table}

  abbrev pub SoundProgress : Progress sha256 blocks → Type 0
  SoundProgress st = Sound blocks st.fresh st.table st.chain.store

  abbrev Step : Bool × Progress sha256 blocks → Type 0
  Step r = SoundProgress r.1

  add_new_block-Step :
      (b : Block) (st : Progress sha256 blocks)
      → b.height ≡ none
      → SoundProgress st
      → Holds Step (add_new_block sha256 blocks b st)
  unfolding add_new_block
  add_new_block-Step b st u (is, own) =
      let c = record st.chain { store = write st.chain.store st.fresh b } in
      Holds-then (Adds blocks (st.fresh + 1)) Step
        (add_block blocks (st.fresh + 1) st.table c st.fresh) _
        (add_block-Adds blocks (st.fresh + 1) st.table c (st.fresh + 1) st.fresh b
          (write-same st.chain.store st.fresh b) u (new-IsRooted st.chain.store st.fresh b u is)
          (Owned-Named blocks st.table st.chain.store c.store
            (new-Named st.chain.store st.fresh b (is.unused st.fresh (omega arith))) own))
        (λ r a. Holds-ok Step (r.0, record st { table = r.1; chain = r.2; fresh = st.fresh + 1 }) a)

  read_blockfile-Step :
      (fuel : ℕ) (sys : System) (marker : ℕ) (use_mmap : Bool) (block_fnames : List (Option ℕ))
      (block_end : Option ℕ) (i off : ℕ) (st : Progress sha256 blocks)
      → SoundProgress st
      → Holds Step
          (read_blockfile sha256 blocks fuel sys marker use_mmap block_fnames block_end i off st)
  unfolding read_blockfile
  read_blockfile-Step zero sys marker use_mmap block_fnames block_end i off st s =
      Holds-err Step out_of_fuel
  read_blockfile-Step (suc fuel) sys marker use_mmap block_fnames block_end i off st s =
      Holds->>= Step (block_file sys block_fnames i use_mmap st.slots) _ (λ opened.
        Holds->>= Step (next_block_header_prefix opened.0 off marker) _ (λ found.
          let now : Progress sha256 blocks = record st { slots = opened.1 } in
          elim (Bool-cases found.0) [
            | inr e ↦ rw e (Holds-ok Step (false, now) s)
            | inl e ↦ rw e (
                Holds->>= Step (read_block_header sha256 opened.0 found.1 marker) _ (λ head.
                  Holds-then Step Step
                    (add_new_block sha256 blocks
                      (record {
                        id = head.1;
                        height = none;
                        filenum = i;
                        pos = head.2;
                        next = none;
                        bh = head.0;
                      })
                      now)
                    _ (add_new_block-Step _ now refl s)
                    (λ added sound.
                      Holds->>= Step (load (added.1).chain.store ((added.1).fresh - 1)) _ (λ b.
                        elim (Bool-cases (added.0 && is_past block_end b.height)) [
                          | inl stops ↦ rw stops (Holds-ok Step (true, added.1) sound)
                          | inr goes ↦ rw goes (
                              read_blockfile-Step fuel sys marker use_mmap block_fnames block_end i
                                (skip_transactions head.0 found.1)
                                (record (added.1) { block_count = (added.1).block_count + 1 })
                                sound)
                        ]))))
          ]))

  read_blockfiles_from-Sound :
      (fuel : ℕ) (sys : System) (marker : ℕ) (use_mmap : Bool) (block_fnames : List (Option ℕ))
      (block_end : Option ℕ) (i : ℕ) (rest : List (Option ℕ)) (st : Progress sha256 blocks)
      → SoundProgress st
      → Holds SoundProgress (
          read_blockfiles_from sha256 blocks fuel sys marker use_mmap block_fnames block_end i rest
            st)
  unfolding read_blockfiles_from
  read_blockfiles_from-Sound fuel sys marker use_mmap block_fnames block_end i [] st s =
      Holds-ok SoundProgress st s
  read_blockfiles_from-Sound fuel sys marker use_mmap block_fnames block_end i (none ∷ rest) st s =
      read_blockfiles_from-Sound fuel sys marker use_mmap block_fnames block_end (i + 1) rest st s
  read_blockfiles_from-Sound fuel sys marker use_mmap block_fnames block_end i (some name ∷ rest) st
        s =
      Holds-then Step SoundProgress
        (read_blockfile sha256 blocks fuel sys marker use_mmap block_fnames block_end i 0 st) _
        (read_blockfile-Step fuel sys marker use_mmap block_fnames block_end i 0 st s)
        (λ r sound. elim (Bool-cases r.0) [
          | inl e ↦ rw e (Holds-ok SoundProgress r.1 sound)
          | inr e ↦ rw e (
              read_blockfiles_from-Sound fuel sys marker use_mmap block_fnames block_end (i + 1)
                rest r.1 sound)
        ])

  read_blockfiles-Sound :
      (fuel : ℕ) (sys : System) (use_testnet use_mmap : Bool) (block_fnames : List (Option ℕ))
      (genesis : Option Ptr) (block_end : Option ℕ)
      → Holds SoundProgress (
          read_blockfiles sha256 blocks fuel sys use_testnet use_mmap block_fnames genesis
            block_end)
  unfolding read_blockfiles
  read_blockfiles-Sound fuel sys use_testnet use_mmap block_fnames genesis block_end =
      read_blockfiles_from-Sound fuel sys (netmarker use_testnet) use_mmap block_fnames block_end 0
        block_fnames _
        (
          record { parented = λ p b n e k. cc; unused = λ p le. refl },
          λ e mem. absurd (not-mem-nil (subst (λ l. Mem e l) blocks.elements-init mem)),
        )

  HeightsSound : (fresh : Ptr) → Table → Ptr × Store → Type 0
  HeightsSound fresh m r = Sound blocks fresh m r.1

  set_heights_and_best_from-Sound :
      (fuel : ℕ) (m : Table) (h : Store) (fresh best : Ptr) (es : List Entry)
      → Sound blocks fresh m h
      → Holds (HeightsSound fresh m) (set_heights_and_best_from blocks fuel m h best es)
  unfolding set_heights_and_best_from load HeightsSound
  set_heights_and_best_from-Sound fuel m h fresh best [] s =
      Holds-ok (HeightsSound fresh m) (best, h) s
  set_heights_and_best_from-Sound fuel m h fresh best (e ∷ es) s = elim (Option-cases (h e.ptr)) [
    | inl gone ↦
        rw (set_height_missing blocks fuel m h e.ptr gone) (Holds-err (HeightsSound fresh m) fault)
    | inr (blk, at) ↦
        Holds-then (Left blocks h fresh) (HeightsSound fresh m) (set_height blocks fuel m h e.ptr) _
          (set_height-Stays blocks fuel m h fresh e.ptr blk at s.1 s.0)
          (λ r left. Holds->>= (HeightsSound fresh m) (load r.1 e.ptr) _ (λ b.
            Holds->>= (HeightsSound fresh m) (load r.1 best) _ (λ best_b.
              set_heights_and_best_from-Sound fuel m r.1 fresh
                (if higher b.height best_b.height then e.ptr else best) es
                (left.0, Owned-Named blocks m h r.1 left.1 s.1))))
  ]

  pub set_heights_and_best-Sound :
      (fuel fuel' : ℕ) (sys : System) (use_testnet use_mmap : Bool) (block_fnames : List (Option ℕ))
      (genesis : Option Ptr) (block_end : Option ℕ) (st : Progress sha256 blocks) (best best' : Ptr)
      (h : Store)
      → read_blockfiles sha256 blocks fuel sys use_testnet use_mmap block_fnames genesis block_end
        ≡ ok st
      → set_heights_and_best blocks fuel' st.table st.chain.store best ≡ ok (best', h)
      → Sound blocks st.fresh st.table h
  unfolding set_heights_and_best HeightsSound
  set_heights_and_best-Sound fuel fuel' sys use_testnet use_mmap block_fnames genesis block_end st
        best best' h read set =
      let sound : SoundProgress st =
        Holds_at SoundProgress
          (read_blockfiles sha256 blocks fuel sys use_testnet use_mmap block_fnames genesis
            block_end)
          st (read_blockfiles-Sound fuel sys use_testnet use_mmap block_fnames genesis block_end)
          read in
      Holds_at (HeightsSound st.fresh st.table)
        (set_heights_and_best blocks fuel' st.table st.chain.store best) (best', h)
        (set_heights_and_best_from-Sound fuel' st.table st.chain.store st.fresh best
          (blocks.elements st.table) sound)
        set

  -- After the block files are read and the heights are set, every block of a known height has as many
  -- ancestors: each one has as its id the hash of the block before that the one above it names, and a
  -- height that is less by one, and the last one has the height 0 and names no block before it.
  pub set_heights_and_best-Ancestry :
      (fuel fuel' : ℕ) (sys : System) (use_testnet use_mmap : Bool) (block_fnames : List (Option ℕ))
      (genesis : Option Ptr) (block_end : Option ℕ) (st : Progress sha256 blocks) (best best' : Ptr)
      (h : Store) (p : Ptr) (b : Block) (n : ℕ)
      → read_blockfiles sha256 blocks fuel sys use_testnet use_mmap block_fnames genesis block_end
        ≡ ok st
      → set_heights_and_best blocks fuel' st.table st.chain.store best ≡ ok (best', h)
      → h p ≡ some b
      → b.height ≡ some n
      → Ancestry h p n
  set_heights_and_best-Ancestry fuel fuel' sys use_testnet use_mmap block_fnames genesis block_end
        st best best' h p b n read set at known =
      let (is, own) =
        set_heights_and_best-Sound fuel fuel' sys use_testnet use_mmap block_fnames genesis
          block_end st best best' h read set in
      IsRooted-Ancestry n h st.fresh p b is at known
