-- ===== src/Lib.antt =====
-- afeye collects what a web page does: a patched browser writes records of its engine, its
-- network and its scripts, and the Rust program of this repository collects them, decodes the
-- bytecode trace, matches the traced values against what leaves the browser, and classifies the
-- result.
-- These modules model parts of that program and prove what they do. A function keeps its name
-- from the source. A byte is a natural number, a byte slice a list; a `String` is its bytes.
-- Integers of 32 and 64 bits keep their bounds in the statements, signed integers and floats are
-- kept as bit patterns; the counters of the collector and the ids and node numbers of the
-- matcher, which reach their 64 and 32 bits on no real input, are natural numbers. A panic is an
-- outcome of its own (Prelude/Outcomes), and so is a loop whose fuel ran out; a theorem that
-- code returns excludes both.
--
-- The parts meet in files: the collector cuts the engine's records out of what the browser wrote
-- and stores their payloads in part files with an index; the trace decoder reads the trace
-- records and writes the valuebook, the values that executed instructions carried; the sink
-- filter loads the valuebook into the pattern matcher, runs it over the payloads that leave the
-- browser, and judges the chains of records that it forms.
--
-- Prelude: lists, tests, outcomes, texts and masks on bytes that the other modules share.
-- Bctrace: src/bctrace.rs, the decoder of the bytecode trace.
--   Read and Cursor: the little-endian readers `rd_u16` to `rd_u64`, and reading at an index.
--   Blocks: `parse_blocks`, `Pv::bytes` and `acc_of`; the fuel is one more than the bytes of the
--     record, and each round takes five.
--   Meta: `parse_meta`. FuncDef: `parse_func_def_blob`. `String::from_utf8_lossy` is the
--     parameter `lossy`, of which nothing is assumed.
--   Walk: `decode_func`, `block_starts_of` and the count of live and dead blocks in `run`. The
--     set of starts is its sorted list, since it is only read sorted.
--   Glue: the assembly of split records in the first pass of `run`. Ops: the classes of opcodes.
-- Collect: src/collect.rs, the collector. The loop of `scan_once` over one file is
-- `frames_loop`; its fuel is one more than the bytes of the file, and each round takes a byte.
-- The index line of a record and the walk over the directory are not modelled.
--   Accounts, Frames and Resync are about the loop on any bytes, on whole records and on
--     unfinished ones; Accounts/Pieces has how the bytes fall into records and skipped bytes,
--     Accounts/Counters what the counters count. Names: the tables of kinds and layers. Parts:
--     `put_file_name`, `PartWriter` and `part_writer` over a directory of names and contents,
--     where the outcome of each file operation is an argument and the decimal format of the
--     `itoa` library a parameter.
-- Valuebook: `ValueBook` of src/bctrace.rs, which writes valuebook.bin, and `load_valuebook` of
-- src/sinkfilter.rs, which reads it. The hash of the `blake3` library is a parameter of which
-- nothing is assumed. Writes succeed; the rounds of the loader are bounded by the bytes of the
-- file.
-- Matcher: src/matcher.rs, the Aho-Corasick automaton: `insert`, `build` and `find` by its
-- nodes, edges and links. The rounds along failure and output links are bounded by the number of
-- nodes, those of the loop of `build` by the edges below the root, and `search_for` inserts all
-- patterns, builds and searches, as the loader of the valuebook and the sink filter do.
--   Trie: the words of the nodes, and what the automaton stands for, `occurrences`. Trie/Grow
--     and Trie/Insert: `insert` keeps the trie of its patterns. Build: the search by levels
--     links every node to its longest suffix. Find: `find` on linked nodes. Places and Search:
--     what is reported.
-- Sinkfilter: src/sinkfilter.rs. Wasm: `WasmReader` and `wasm_imports_exports`, with one round
-- for each section. UnionFind: the forest of task ids, its map as a function; the rounds of
-- `find` are an argument, and the theorems say that more rounds than the depth of a node are
-- enough. Names: names, isolates, workers, sink tags, `load_exec_funcs` and the verdict on a
-- chain.
-- Writer: src/writer.rs, the scanner of batches `scan_arr`; each loop takes a byte in a round.
-- Ctx: src/ctx.rs, `char_floor`, `host_of` and `endpoint_of`; Vendors has `vendor_of_url`; Urls
-- has the theorems on the urls with a host name.
-- Classify: src/classify.rs, the classifier. State: `collect_site` on the parsed lines of a
-- timeline, with `SiteState` as lists of pairs in the order in which they are read; the source
-- keeps hash maps, and reads the first entry of an unordered map where it looks for the artifact
-- of a request. Stack: the urls of stacks; a round of `first_stack_url` takes four bytes at
-- least, and its slices of a `str` begin and end at a byte of ASCII or at the end, so that they
-- cannot panic. A sum of `tn_sum` above 64 bits is a panic, as it is where overflow is checked.
-- State/Sums has what the sums are of. Verdict: `verdict_site`, with the files that it reads and
-- the entropy in `Files`. Keep: `line_keep`, `filter_file` and the artifacts that are removed;
-- what the writes return is left out, as in the source. `serde_json` is the parameters `parse`
-- and `print`.
-- Drive: src/drive.rs, what the driver sees and decides; a text is its characters here, and the
-- tree of the document is what the DevTools protocol sends. Attrs: `attr_get`, `classify` and
-- `tabbable`. Element: the field of an element, its signature and its place in the focus order.
-- Dom: `walk`, whose recursion is that of the tree, with what it does before and behind the
-- descent as `enter` and `leave`, and `scan`. Forms: `active_form` and `form_ready`. Screen:
-- `screen_of` and `content_ready`.
-- Motor: src/motor.rs, the key tables `key_info` and `named_key`; Layout compares them with a
-- keyboard.
-- Events: src/events.rs, the writer of JSON lines `J` and the escapes of `esc`.
--
-- Not modelled: the browser, the asynchronous main loop and the network (src/browser.rs,
-- src/main.rs, src/capture.rs), the timing and pointer paths in floating-point numbers of
-- src/motor.rs, archives (src/arch.rs, src/zipper.rs), the tabs and the typed values of the
-- driver (src/drive.rs), the directories and summaries of the classifier (src/classify.rs), the
-- interner, the dates and the rest of the batch writer (src/arena.rs, src/timefmt.rs,
-- src/writer.rs), and of the modelled files the reports and what their `run` does with files.
pub mod Bctrace
pub mod Classify
pub mod Collect
pub mod Ctx
pub mod Drive
pub mod Events
pub mod Matcher
pub mod Motor
pub mod Prelude
pub mod Sinkfilter
pub mod Valuebook
pub mod Writer
