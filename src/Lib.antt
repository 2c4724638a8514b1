-- ===== src/Lib.antt =====
-- bitcoin-iterate: a model of the program that walks over the blocks in bitcoind's files and prints
-- what formats ask for, and theorems about it.
--
-- The parts of the program and their files:
--   * types.h: Types. A hash is its list of bytes; a pointer to a block is a number.
--   * space.h: Space. Scripts and arrays of a transaction lie in a buffer of 3 MB; the model tracks
--     the places and checks each write against the region that was handed out.
--   * io.c: Io. A file has its contents and, if it is mapped, the memory that shows them. Io.Modes
--     is about reading in both ways.
--   * parse.c: Parse, with one function for each of the code's and for each loop. Serial describes
--     the serializations of transactions and block headers on its own, and Parse.Words, Parse.Parts,
--     Parse.Body, Parse.RoundTrip and Parse.Header measure the parser against it. Parse.Scan is about
--     the search for a block.
--   * utils.c: Utils, but for hash_sha, which stands with the keys in Utxo.
--   * block.c: Block, with Chain.Climb and Chain.Heights on set_height, and Ancestry on what the
--     heights mean in a store that add_block and set_height fill, which block is the best, and, in
--     Ancestry.Line, how its ancestors are the way back over the map. Blocks lie in a store, and
--     block_map is a hash table of pointers and hashes.
--   * utxo.c: Utxo, with Utxo.Keys on the keys of the table and Utxo.Set on what it holds.
--   * calculations.c: Calculations, with Product for the 128-bit sum, Days and Fees.
--   * format.c: Format for the dumps, Format.Print for print_format. What is printed is the result.
--   * blockfiles.c: Blockfiles, with the names by number and the two files kept open, which
--     Blockfiles.Names and Blockfiles.Cached are about, Blockfiles.Directory with the choice of the
--     directory, and Blockfiles.Read with the loops over the blocks of all files, whose rounds
--     Blockfiles.Rounds, Blockfiles.Enough and Blockfiles.Ends count; Blockfiles.Records describes a
--     whole file.
--   * cache.c: Cache. A cache file is the list of the structures that it holds.
--   * iterate.c: Chain for the choice of blocks and their links, Iterate for the main loop, whose
--     calls of the caller's functions are a list of events, and Program for iterate as a whole.
--     Chain.Ways has the ways back over the map, Chain.Ends and Chain.Cut are about both ends of the
--     run, Iterate.Contents about the transactions of a block. Program.Range puts the parts of
--     iterate together, and Program.Whole adds the reading of the files and the heights.
--   * cli.c: Cli, for the tests on the formats and the functions that iterate calls, and Cli.Command
--     for the options and main. Cli.Last is about what a command line sets, and Cli.Whole about the
--     command from the options to the calls.
-- Prelude has what all of them share: results with the ways in which a run stops, bytes, and numbers.
--
-- The hash tables of ccan/htable are the interface Htable, with a list as one implementation; SHA256,
-- hex_encode, hex_decode, ccan/opt's readers of numbers and the system's files are parameters. A call of err or errx, a failed
-- assertion and an access outside an object are error results, each with its own name.
--
-- Loops over memory are structural. The search for a block has one round more than the file has
-- bytes, which is enough. Loops over pointers have fuel: a way over n blocks takes n rounds, and
-- iterate gives one more than there are blocks. The loops over a block file pass a marker in each
-- round, so that the bytes of the file are enough.
--
-- Not modelled: madvise, the help text of cli.c, to_btc, and messages on stderr but for
-- the dots of progress.
pub mod Prelude
pub mod Types
pub mod Space
pub mod Io
pub mod Format
pub mod Serial
pub mod Parse
pub mod Utils
pub mod Htable
pub mod Block
pub mod Utxo
pub mod Calculations
pub mod Blockfiles
pub mod Cache
pub mod Chain
pub mod Iterate
pub mod Program
pub mod Ancestry
pub mod Cli
pub mod Tests
