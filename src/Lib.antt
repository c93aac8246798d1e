-- ===== src/Lib.antt =====
-- Honas stores which host names clients have looked up, in Bloom filters of which each client is
-- given a few, and tells afterwards in how many filters a host name is found.
--
-- The parts and how they interact:
--   * include/byte_slice.h and src/byte_slice.c (ByteSlice): a slice is a list of bytes. ByteSlice
--     has the operations on bits, ByteSlice/Multiply the multiplication of a slice as a big integer,
--     ByteSlice/Murmur the hash, ByteSlice/Merge the merges of two slices, and
--     ByteSlice/Popcount the number of ones.
--   * src/bloom.c (Bloom): a filter and a hash are lists of bytes. `determine_offsets`, `set_hash`
--     and `is_set` are bloom_determine_offsets, bloom_set and bloom_is_set.
--   * include/bitset.h (BitSet): sets of filter indexes, as a slice inside the structure or on the
--     heap.
--   * src/combinations.c (Combinations): which filters the number of a combination stands for.
--   * include/honas_state.h and src/honas_state.c (State): the state of a period. The mapped file is
--     one list of bytes, in which the filters are slices by offset and length; the header is a record
--     beside it. State/Filters adds hashes to filters and looks for them, State/Register is
--     honas_state_register_host_name_lookup, State/Layout is honas_state_create, and
--     State/Aggregate is honas_state_aggregate_combine.
--     State/Encoding has the bytes of the header, and State/File is honas_state_load,
--     honas_state_persist and honas_state_destroy.
--   * include/subnet_activity.h and src/subnet_activity.c (SubnetActivity): the entities and prefixes
--     of a JSON file. SubnetActivity/Parser has the callbacks of the parser as steps of a state
--     machine, SubnetActivity/Masks the tables of masks, SubnetActivity/Match the longest match.
--   * include/inet.h and src/inet.c (Inet): addresses, and in Inet/Parse their parsing and printing.
--   * src/utils.c (Utils): numbers, paths and white space in texts.
--   * src/read_file.c (ReadFile): the lines of a file, in the blocks that `read` gives. ReadFile/Lines
--     has the lines of the bytes as such.
--   * src/config.c (Config): the lines of configuration files and the files that they include, over
--     ReadFile; Config/Items has files of options. src/honas_gather_config.c (Config/Gather): the
--     options of honas_gather.
--   * src/json_printer.c (JsonPrinter): the calls that print JSON; JsonPrinter/Rendered has the text of
--     a document, and JsonPrinter/Pairs the calls for a key with its value.
--   * src/bin/honas_search.c (Search): the decoding of the digests of a job, and in Search/Job the
--     job itself, as callbacks that check host names against the state and print with JsonPrinter.
--     Search/Context has its context, and Search/Job/Group, Search/Job/Found and Search/Job/Hits the
--     filters that a group hits.
--   * src/bin/honas_gather.c (Gather): Gather/Frames has the frames of a connection, Gather/Queries
--     the queries in them, which are registered in the state; Config/Gather has its options.
--   * src/instrumentation.c and include/instrumentation.h (Instrumentation): the collector's counters.
-- Bits and Common hold the lemmas on numbers, lists and options that these share.
--
-- Numbers are natural numbers; wrap-around in 32 and 64 bits is written out. A function that
-- asserts, dies or would read or write out of bounds returns an `Option`, with `none` there; in
-- Inet and Utils `none` is the result that reports an error, but for parse_ipv4_cidr, which has its
-- result code; a frame written out of bounds in Gather/Frames is a result of its own. Allocations
-- succeed, except in SubnetActivity, where they are a parameter. Loops are structural recursion on
-- the rounds that are left, on the slice, or on fuel: the loop over the labels of a host name gets
-- one round more than the name has bytes, and each round takes away at least one; the loop that
-- inserts an offset moves at most once for each offset of the array; the loop that writes a file
-- gets as many rounds as the file has bytes; the loops that read a file or a connection, one more
-- than there are bytes; the recursion of number_of_combinations, one more than the set has
-- elements, which a subset that fits never uses up. Configuration files are read at most 12 deep.
--
-- Parameters stand for SHA-256, the cardinality counters of src/hyperloglog.c (a copy of another
-- project's code), the size of a page, the mapping of memory, the addresses of mapped files, the
-- results of system calls, the functions of fstrm, ldns and the dnstap decoder, the hash table of
-- uthash (what it promises is a record of laws), the order of callbacks of the JSON parser, and
-- inet_pton, inet_ntop, strtol, strtoul and the printing of numbers. A counter that owns its
-- registers, as in a state that honas_state_create makes, is apart from the mapped file; the
-- registers of one that does not, as behind honas_state_load and honas_state_persist, are bytes of
-- that file, which State/Register and State/File read and write there. The bytes of a file are kept
-- apart from its header, and put together where the file is written, so layouts in which registers
-- or counts lie over the header are outside of the model.
--
-- Not modelled: the floating point estimates (bloom_approx_count, src/advice.c), the inline assembly
-- of the multiplication, the fallback for the builtin popcount, and the parts around these
-- (the event loop, the rollover of periods and the dry run of src/bin/honas_gather.c, the command
-- lines, and the other programs of src/bin).
pub mod Common
pub mod Bits
pub mod ByteSlice
pub mod BitSet
pub mod Bloom
pub mod Combinations
pub mod Config
pub mod Gather
pub mod Inet
pub mod Instrumentation
pub mod ReadFile
pub mod Utils
pub mod JsonPrinter
pub mod Search
pub mod State
pub mod SubnetActivity
