-- ===== src/Program/Whole.antt =====
-- The whole program, from the block files to the calls of the block function.
use mathlib.Core.List.{reverse_aux}
use mathlib.Core.Path.{subst}
use native.Mathlib.Decide.{dec_le}
use bitcoin_iterate.Prelude.{
  ◌&&◌, ℕ, suc, ◌+◌, ◌≤◌, ◌<◌, ◌≡◌, refl, sym, ◌∙◌, ap, Bool, true, false, ◌==◌, Bool-cases, Option,
  none, some, List, [], ◌∷◌, length, get_elem?, take, drop, reverse, All, ok, inl, inr,
  length-reverse_aux, length-take-le, arith,
}
use bitcoin_iterate.Types.{Hash, Block, Utxo}
use bitcoin_iterate.Utils.{is_zero}
use bitcoin_iterate.Htable.{Htable}
use bitcoin_iterate.Block.{Ptr, Store, Entry, block_eq}
use bitcoin_iterate.Utxo.{OutPoint, utxohash_eq}
use bitcoin_iterate.Blockfiles.{System, block_filenames_from}
use bitcoin_iterate.Blockfiles.Read.{Progress, read_blockfiles}
use bitcoin_iterate.Cache.{
  is_none, try_blockcache, keep_blockcache, fill_blockchain, read_blockchain,
}
use bitcoin_iterate.Chain.{set_heights_and_best, set_blockchain_end}
use bitcoin_iterate.Chain.Ways.{Back, Back-Distinct}
use bitcoin_iterate.Chain.Heights.{Heights}
use bitcoin_iterate.Chain.Cut.{up_to, EndsIn}
use bitcoin_iterate.Ancestry.{IsRooted, IsRooted-Ancestry}
use bitcoin_iterate.Ancestry.Settled.{HasHeight}
use bitcoin_iterate.Ancestry.Read.{set_heights_and_best-Sound}
use bitcoin_iterate.Ancestry.Line.{FindsAll, Ancestry-Back, Distinct-room}
use bitcoin_iterate.Iterate.{Event, State}
use bitcoin_iterate.Iterate.Calls.{blocks_of}
use bitcoin_iterate.Program.{Options, Machine, iterate}
use bitcoin_iterate.Program.Range.{IsPlain, iterate-drop}

-- The height where the run ends, on a chain up to the height `n`.
abbrev pub last_height : (block_end : Option ℕ) → (n : ℕ) → ℕ
last_height none n = n
last_height (some e) n = e

last_in :
    (block_end : Option ℕ) (n start : ℕ) (ps : List Ptr)
    → length ps ≡ suc n
    → last_height block_end n ≤ n
    → start ≤ last_height block_end n
    → EndsIn block_end ps × (start < length (up_to block_end ps))
last_in none n start ps long le inside = (tt, omega arith)
last_in (some e) n start ps long le inside =
    let short : length (take (suc e) ps) ≡ suc e = length-take-le (suc e) ps (omega arith) in
    (omega arith, omega arith)

-- What stands behind a list that is turned round.
get_elem?-reverse_aux :
    (ps qs : List Ptr) (k : ℕ) → get_elem? (reverse_aux ps qs) (length ps + k) ≡ get_elem? qs k
get_elem?-reverse_aux [] qs k = ap (get_elem? qs) (omega arith)
get_elem?-reverse_aux (p ∷ ps) qs k =
    ap (get_elem? (reverse_aux ps (p ∷ qs))) (omega arith)
    ∙ get_elem?-reverse_aux ps (p ∷ qs) (suc k)

module _ (sha256 : List ℕ → Hash) (blocks : Htable Hash Entry block_eq) where
  open blocks use {Table}

  read_blockchain-no_cache :
      (fuel : ℕ) (sys : System) (use_testnet use_mmap garbage : Bool)
      (block_fnames : List (Option ℕ)) (block_end : Option ℕ) (st : Progress sha256 blocks)
      (genesis : Ptr)
      → read_blockfiles sha256 blocks fuel sys use_testnet use_mmap block_fnames none block_end
        ≡ ok st
      → st.chain.genesis ≡ some genesis
      → (garbage && is_none block_end) ≡ false
      → read_blockchain sha256 blocks fuel sys use_testnet use_mmap garbage none block_fnames none
          block_end
        ≡ ok (st, none)
  unfolding read_blockchain try_blockcache keep_blockcache fill_blockchain
  read_blockchain-no_cache fuel sys use_testnet use_mmap garbage block_fnames block_end st genesis
        read has unused =
      elim (Bool-cases (length block_fnames == 0)) [
        | inl e ↦ rw (e, read, has, unused) refl
        | inr e ↦ rw (e, read, has, unused) refl
      ]

  is_below : (h : Store) (fresh p : Ptr) (b : Block) → IsRooted h fresh → h p ≡ some b → p < fresh
  is_below h fresh p b is e = elim (dec_le fresh p) [
    | yes beyond ↦ let gone = is.unused p beyond in cc
    | no short ↦ omega arith
  ]

  Back-below :
      (m : Table) (h : Store) (fresh p : Ptr) (ps : List Ptr)
      → IsRooted h fresh
      → Back blocks m h p ps
      → All (λ q. q < fresh) (p ∷ ps)
  Back-below m h fresh p [] is (b, e, u) = (is_below h fresh p b is e, tt)
  Back-below m h fresh p (q ∷ ps) is ((b, e, u), back) =
      (is_below h fresh p b is e, Back-below m h fresh q ps is back)

module _ (sha256 : List ℕ → Hash) (blocks : Htable Hash Entry block_eq)
    (utxos : Htable OutPoint Utxo utxohash_eq) where
  open utxos use {Table}

  -- Without a directory of caches, where an end is asked for or the variable for the name of the block
  -- cache, which is then not set, happens to be NULL, where the block files are read and the heights
  -- set, the map finds every block by its id, no block has the id of zeros, only the first one names no
  -- block before it, no tip, no first hash and no dots are asked for, and there is a block function and
  -- no other: the best block, of height `n`, has a line of `n` + 1 blocks, from the first one, of height
  -- 0, up to it, and the run ends well and calls the function for the blocks of the line from the height
  -- `block_start` to the height `block_end`, or to the best block, each once and in order, if these
  -- heights are on the line.
  pub iterate-line :
      (mach : Machine sha256 blocks) (opts : Options) (block_fnames : List (Option ℕ))
      (st : Progress sha256 blocks) (genesis best : Ptr) (h : Store) (n : ℕ)
      → block_filenames_from mach.strreg mach.path_join [] mach.entries ≡ ok block_fnames
      → mach.cachedir ≡ none
      → (mach.garbage && is_none opts.block_end) ≡ false
      → read_blockfiles sha256 blocks mach.fuel mach.sys opts.use_testnet opts.use_mmap block_fnames
          none opts.block_end
        ≡ ok st
      → st.chain.genesis ≡ some genesis
      → set_heights_and_best blocks (st.fresh + 1) st.table st.chain.store genesis ≡ ok (best, h)
      → FindsAll blocks st.table h
      → ((p : Ptr) (b : Block) → h p ≡ some b → is_zero b.bh.prev_hash ≡ true → p ≡ genesis)
      → HasHeight h best n
      → is_zero opts.tip ≡ true
      → last_height opts.block_end n ≤ n
      → opts.block_start ≤ last_height opts.block_end n
      → IsPlain opts
      → (chain : List Ptr) × (es : List (Event Table)) × (s : State sha256 utxos) × Heights h 0
          (genesis ∷ chain)
        × (length chain ≡ n)
        × (get_elem? (genesis ∷ chain) n ≡ some best)
        × (iterate sha256 blocks utxos mach opts ≡ ok (es, s))
        × (blocks_of es ≡ drop opts.block_start (up_to opts.block_end (genesis ∷ chain)))
  unfolding set_blockchain_end
  iterate-line mach opts block_fnames st genesis best h n names no_cache no_garbage read has bests
        fa only_root (b, at_best, known) no_tip last_le start_le plain =
      let (is, own) =
        set_heights_and_best-Sound sha256 blocks mach.fuel (st.fresh + 1) mach.sys opts.use_testnet
          opts.use_mmap block_fnames none opts.block_end st genesis best h read bests in
      let (ps, root, chain, back, long, way, heights, (rb, at_root, z)) =
        Ancestry-Back blocks st.table h best n [] own fa
          (IsRooted-Ancestry n h st.fresh best b is at_best known) tt in
      let first : root ≡ genesis = only_root root rb at_root z in
      let way' : reverse (best ∷ ps) ≡ genesis ∷ chain = way ∙ ap (λ r. r ∷ chain) first in
      let same_length : length (genesis ∷ chain) ≡ suc n =
        omega (arith, length-reverse_aux (best ∷ ps) [], ap length way', long) in
      let room : length (best ∷ ps) ≤ st.fresh =
        Distinct-room st.fresh (best ∷ ps) (Back-Distinct blocks st.table h best ps back)
          (Back-below sha256 blocks st.table h st.fresh best ps is back) in
      let (ends, starts) =
        last_in opts.block_end n opts.block_start (genesis ∷ chain) same_length last_le start_le in
      let heights' : Heights h 0 (genesis ∷ chain) =
        subst (λ r. Heights h 0 (r ∷ chain)) first heights in
      let loaded =
        ap
          (λ c.
            read_blockchain sha256 blocks mach.fuel mach.sys opts.use_testnet opts.use_mmap
              mach.garbage c block_fnames none opts.block_end)
          no_cache
        ∙ read_blockchain-no_cache sha256 blocks mach.fuel mach.sys opts.use_testnet opts.use_mmap
            mach.garbage block_fnames opts.block_end st genesis read has no_garbage in
      let top : get_elem? (genesis ∷ chain) n ≡ some best =
        ap (λ r. get_elem? r n) (sym way')
        ∙ (ap (get_elem? (reverse_aux ps (best ∷ []))) (omega arith)
            ∙ get_elem?-reverse_aux ps (best ∷ []) 0) in
      let (es, s, run, listed) =
        iterate-drop sha256 blocks utxos mach opts block_fnames st none genesis best best h ps chain
          names loaded has bests (rw no_tip refl) back (omega arith) way' heights' ends starts
          plain in
      (chain, es, s, heights', omega arith, top, run, listed)
