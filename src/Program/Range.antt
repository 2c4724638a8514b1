-- ===== src/Program/Range.antt =====
-- Which blocks a run of the whole program reports.
use bitcoin_iterate.Prelude.{
  ℕ, zero, suc, ◌+◌, ◌<◌, ◌≡◌, refl, sym, ◌∙◌, ap, not, true, false, Option, none, some, List, [],
  ◌∷◌, length, get_elem?, get_elem?-exists, drop, reverse, length-reverse_aux, ◌==◌, if◌then◌else◌,
  ok, or_fail, ◌>>=◌, >>=-ok, no_block_start, no_genesis, arith,
}
use bitcoin_iterate.Types.{Hash, Block, Utxo}
use bitcoin_iterate.Utils.{is_zero}
use bitcoin_iterate.Htable.{Htable}
use bitcoin_iterate.Chain.Ways.{Distinct, Back, Back-Distinct}
use bitcoin_iterate.Block.{Ptr, Store, Entry, block_eq, load}
use bitcoin_iterate.Utxo.{unsigned_height, OutPoint, utxohash_eq}
use bitcoin_iterate.Blockfiles.{Slots, block_filenames_from}
use bitcoin_iterate.Blockfiles.Read.{Progress}
use bitcoin_iterate.Cache.{is_none, read_blockchain}
use bitcoin_iterate.Chain.{
  set_heights_and_best, set_blockchain_end, set_blockchain_start, link_blocks, set_iteration_end,
  set_iteration_start,
}
use bitcoin_iterate.Chain.Links.{link_blocks-Forward}
use bitcoin_iterate.Chain.Heights.{Heights, Distinct-reverse}
use bitcoin_iterate.Chain.Ends.{Avoids-get_elem?, block_of, set_iteration_start-get_elem?}
use bitcoin_iterate.Chain.Kept.{SameHeights, SameHeights-Heights, link_blocks-SameHeights}
use bitcoin_iterate.Chain.Cut.{up_to, EndsIn, IsCut, set_iteration_end-IsCut}
use bitcoin_iterate.Iterate.{Event, Job, State, run_blocks}
use bitcoin_iterate.Iterate.Calls.{blocks_of}
use bitcoin_iterate.Iterate.Start.{from_start}
use bitcoin_iterate.Iterate.Total.{run_blocks_total}
use bitcoin_iterate.Program.{Options, Machine, load_utxos, iterate}

loaded_at : (h : Store) (p : Ptr) (b : Block) → h p ≡ some b → load h p ≡ ok b
unfolding load
loaded_at h p b e = rw e refl

-- There is a block function and no other, no dots are asked for, and the first block is named by its
-- height alone.
pub record IsPlain (opts : Options) : Type 0 where
  pub blockfn : opts.fns.blockfn ≡ true
  pub txfn : opts.fns.txfn ≡ false
  pub inputfn : opts.fns.inputfn ≡ false
  pub outputfn : opts.fns.outputfn ≡ false
  pub utxofn : opts.fns.utxofn ≡ false
  pub progress_marks : opts.progress_marks ≡ 0
  pub start_hash : is_zero opts.start_hash ≡ true

-- From the block that stands at a place of a list without repetitions.
from_start-drop :
    (i : ℕ) (p : Ptr) (ps : List Ptr)
    → Distinct ps
    → get_elem? ps i ≡ some p
    → from_start (some p) ps ≡ drop i ps
from_start-drop i p [] d at_i = cc
from_start-drop zero p (q ∷ ps) d at_i =
    let same : q ≡ p = ground arith in let hit : (q == p) ≡ true = ground arith in rw hit refl
from_start-drop (suc i) p (q ∷ ps) d at_i =
    rw (Avoids-get_elem? q p ps i d.0 at_i) (from_start-drop i p ps d.1 at_i)

set_iteration_start-drop :
    (fuel : ℕ) (h : Store) (block_start : ℕ) (best genesis : Ptr) (rest : List Ptr)
    → IsCut h best genesis rest
    → block_start < length (genesis ∷ rest)
    → length rest < fuel
    → (start : Ptr) × (b : Block) × (set_iteration_start fuel h block_start (some genesis) genesis
        ≡ ok (some start))
      × (h start ≡ some b)
      × (from_start (some start) (genesis ∷ rest) ≡ drop block_start (genesis ∷ rest))
set_iteration_start-drop fuel h n best genesis rest c inside enough =
    let run =
      set_iteration_start-get_elem? fuel h n (some genesis) genesis rest c.forward c.heights
        enough in
    let (start, at_start) = get_elem?-exists (genesis ∷ rest) n inside in
    let (b, at_b) = block_of h (some genesis) (genesis ∷ rest) n start c.forward at_start in
    (
      start,
      b,
      run ∙ chosen n start at_start,
      at_b,
      from_start-drop n start (genesis ∷ rest) c.distinct at_start,
    )
  where
    chosen :
        (n : ℕ) (start : Ptr)
        → get_elem? (genesis ∷ rest) n ≡ some start
        → (if n == 0
            then ok (some genesis)
            else (or_fail (get_elem? (genesis ∷ rest) n) no_block_start >>= λ b. ok (some b)))
          ≡ ok (some start)
    chosen zero start e = ap (λ o. ok o) e
    chosen (suc n) start e = rw e (ground arith)

module _ (sha256 : List ℕ → Hash) (blocks : Htable Hash Entry block_eq)
    (utxos : Htable OutPoint Utxo utxohash_eq) where
  open utxos use {Table}

  -- The job and the state that `iterate` hands to the main loop.
  abbrev job_of : Machine sha256 blocks → Options → List (Option ℕ) → (last : Block) → Job
  job_of mach opts block_fnames last = record {
    sys = mach.sys;
    block_fnames = block_fnames;
    use_mmap = opts.use_mmap;
    fns = opts.fns;
    cachedir = not (is_none mach.cachedir);
    needs_utxo = opts.needs_utxo;
    utxo_period = opts.utxo_period;
    progress_marks = opts.progress_marks;
    best_height = unsigned_height last.height;
  }

  abbrev state_of :
      Machine sha256 blocks → Options → Slots → (start : Ptr) → Block → State sha256 utxos
  state_of mach opts slots start start_block = record {
    utxo_map = (load_utxos sha256 blocks utxos mach opts start_block.id).1;
    slots = slots;
    start = some start;
    needs_fee = (load_utxos sha256 blocks utxos mach opts start_block.id).0;
    blocks_iterated = 0;
    last_utxo_block = none;
  }

  -- `iterate` is the main loop, once every part before it gave something.
  iterate_lem :
      (mach : Machine sha256 blocks) (opts : Options) (block_fnames : List (Option ℕ))
      (st : Progress sha256 blocks) (written : Option (List Block))
      (genesis best tip start last : Ptr) (h h1 h2 : Store) (start_block last_block : Block)
      → block_filenames_from mach.strreg mach.path_join [] mach.entries ≡ ok block_fnames
      → read_blockchain sha256 blocks mach.fuel mach.sys opts.use_testnet opts.use_mmap mach.garbage
          mach.cachedir block_fnames none opts.block_end
        ≡ ok (st, written)
      → st.chain.genesis ≡ some genesis
      → set_heights_and_best blocks (st.fresh + 1) st.table st.chain.store genesis ≡ ok (best, h)
      → set_blockchain_end blocks st.table opts.tip best ≡ ok tip
      → is_zero opts.start_hash ≡ true
      → link_blocks blocks (st.fresh + 1) st.table h tip ≡ ok h1
      → set_iteration_end (st.fresh + 1) h1 opts.block_end tip genesis ≡ ok (last, h2)
      → set_iteration_start (st.fresh + 1) h2 opts.block_start (some genesis) genesis
        ≡ ok (some start)
      → h2 start ≡ some start_block
      → h2 last ≡ some last_block
      → iterate sha256 blocks utxos mach opts
        ≡ run_blocks sha256 utxos
            (st.fresh + 1)
            (job_of mach opts block_fnames last_block)
            h2
            (some genesis)
            (state_of mach opts st.slots start start_block)
  unfolding iterate set_blockchain_start
  iterate_lem mach opts block_fnames st written genesis best tip start last h h1 h2 start_block
        last_block names loaded has_genesis bests at_tip plain linking ending starting at_start
        at_last =
      let from_genesis : set_blockchain_start blocks st.table opts.start_hash (some genesis)
          ≡ ok (some genesis) =
        rw plain refl in
      >>=-ok _ names
      ∙ (>>=-ok _ loaded
          ∙ (>>=-ok _ (ap (λ o. or_fail o no_genesis) has_genesis)
              ∙ (>>=-ok _ bests
                  ∙ (>>=-ok _ at_tip
                      ∙ (>>=-ok _ from_genesis
                          ∙ (>>=-ok _ linking
                              ∙ (>>=-ok _ ending
                                  ∙ (>>=-ok _ starting
                                      ∙ (>>=-ok _ (loaded_at h2 start start_block at_start)
                                          ∙ >>=-ok _ (loaded_at h2 last last_block at_last))))))))))

  pub iterate-drop :
      (mach : Machine sha256 blocks) (opts : Options) (block_fnames : List (Option ℕ))
      (st : Progress sha256 blocks) (written : Option (List Block)) (genesis best tip : Ptr)
      (h : Store) (ps chain : List Ptr)
      → block_filenames_from mach.strreg mach.path_join [] mach.entries ≡ ok block_fnames
      → read_blockchain sha256 blocks mach.fuel mach.sys opts.use_testnet opts.use_mmap mach.garbage
          mach.cachedir block_fnames none opts.block_end
        ≡ ok (st, written)
      → st.chain.genesis ≡ some genesis
      → set_heights_and_best blocks (st.fresh + 1) st.table st.chain.store genesis ≡ ok (best, h)
      → set_blockchain_end blocks st.table opts.tip best ≡ ok tip
      → Back blocks st.table h tip ps
      → length ps < st.fresh
      → reverse (tip ∷ ps) ≡ genesis ∷ chain
      → Heights h 0 (genesis ∷ chain)
      → EndsIn opts.block_end (genesis ∷ chain)
      → opts.block_start < length (up_to opts.block_end (genesis ∷ chain))
      → IsPlain opts
      → (es : List (Event Table)) × (s : State sha256 utxos) × (iterate sha256 blocks utxos mach
            opts
          ≡ ok (es, s))
        × (blocks_of es ≡ drop opts.block_start (up_to opts.block_end (genesis ∷ chain)))
  iterate-drop mach opts block_fnames st written genesis best tip h ps chain names loaded
        has_genesis bests at_tip back enough way hs ends starts plain =
      let (h1, linking, linked, frame, fw) =
        link_blocks-Forward blocks (st.fresh + 1) st.table h tip ps back (omega arith) in
      let same : SameHeights h h1 =
        link_blocks-SameHeights blocks (st.fresh + 1) st.table h h1 tip ps back (omega arith) linked
          linking in
      let same_length : length chain ≡ length ps =
        omega (arith, length-reverse_aux (tip ∷ ps) [], ap length way) in
      let (last, h2, rest, ending, range, short, cut) =
        set_iteration_end-IsCut (st.fresh + 1) h1 opts.block_end tip genesis chain
          (record {
            has_best = (record (linked.0.0) { next = none }, linked.0.2);
            forward = (refl, (rw way at fw).1);
            heights = SameHeights-Heights h h1 0 (genesis ∷ chain) same hs;
            distinct =
                rw way at
                  (Distinct-reverse (tip ∷ ps) (Back-Distinct blocks st.table h tip ps back));
          })
          ends (omega arith) in
      let (start, start_block, starting, at_start, found) =
        set_iteration_start-drop (st.fresh + 1) h2 opts.block_start last genesis rest cut
          (rw (sym range) at starts) (omega arith) in
      let (last_block, at_last) = cut.has_best in
      let (es, s, run, reported) =
        run_blocks_total sha256 utxos (st.fresh + 1) (job_of mach opts block_fnames last_block) h2
          (some genesis) (genesis ∷ rest) (state_of mach opts st.slots start start_block)
          (record {
            blockfn = plain.blockfn;
            txfn = plain.txfn;
            inputfn = plain.inputfn;
            outputfn = plain.outputfn;
            utxofn = plain.utxofn;
            progress_marks = plain.progress_marks;
          })
          cut.forward (omega arith) in
      (
        es,
        s,
        iterate_lem mach opts block_fnames st written genesis best tip start last h h1 h2
              start_block last_block names loaded has_genesis bests at_tip plain.start_hash linking
              ending starting at_start at_last
            ∙ run,
        reported ∙ (found ∙ ap (λ l. drop opts.block_start l) range),
      )
