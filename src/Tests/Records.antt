-- ===== src/Tests/Records.antt =====
-- A block file with one stored block.
use bitcoin_iterate.Prelude.{
  ◌≡◌, refl, ◌>>=◌, ok, true, false, none, some, List, [], ◌∷◌, length, replicate, arith,
}
use bitcoin_iterate.Prelude.Bytes.{to_le}
use bitcoin_iterate.Format.{varint_buf}
use bitcoin_iterate.Io.{File, file_open}
use bitcoin_iterate.Blockfiles.{System, Slots, no_slots, open_file}
use bitcoin_iterate.Blockfiles.Cached.{IsSlots, open_index}
use bitcoin_iterate.Blockfiles.Read.{Progress, read_blockfile}
use bitcoin_iterate.Blockfiles.Records.{
  StoredBlock, StoredFits, file_bytes, add_stored, read_blockfile-add_stored,
}
use bitcoin_iterate.Tests.Data.{toy_sha256, block_list, small_header, small_header-BlockHeaderFits}
use bitcoin_iterate.Tests.Chains.{small_system}

abbrev stored : List StoredBlock
stored = record { bh = small_header; body = replicate 119 0 } ∷ []

abbrev stored_system : System
stored_system = record small_system { contents = λ name. some (file_bytes stored) }

abbrev stored_file : File
stored_file = record {
  name = 7;
  is_open = true;
  len = length (file_bytes stored);
  mmap = none;
  disk = file_bytes stored;
}

abbrev no_progress : Progress toy_sha256 block_list
no_progress = record {
  table = [];
  chain = record { store = λ p. none; genesis = none; num_misses = 0 };
  slots = no_slots;
  fresh = 0;
  block_count = 0;
}

stored_file_opens : open_index stored_system (some 7 ∷ []) 0 false ≡ ok stored_file
unfolding open_index open_file file_open
stored_file_opens = refl

small_header-StoredFits :
    StoredFits 0xD9B4BEF9 (record { bh = small_header; body = replicate 119 0 })
unfolding varint_buf
small_header-StoredFits = record { fits = small_header-BlockHeaderFits; marked = refl; len = refl }

read_blockfile-add_stored_example :
    (slots : Slots) × IsSlots stored_system false slots
    × (read_blockfile toy_sha256 block_list 300 stored_system 0xD9B4BEF9 false
          (some 7 ∷ [])
          none
          0
          0
          no_progress
        ≡ (add_stored toy_sha256 block_list none 0 0 stored no_progress >>= λ r.
            ok (r.0, record r.1 { slots = slots })))
unfolding varint_buf to_le
read_blockfile-add_stored_example =
    read_blockfile-add_stored toy_sha256 block_list 300 stored_system 0xD9B4BEF9 false (some 7 ∷ [])
      none 0 no_progress stored_file stored stored_file_opens (record { len = refl; maps = tt })
      (record { first = tt; second = tt }) (small_header-StoredFits, tt) refl (omega arith)
