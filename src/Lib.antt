-- ===== src/Lib.antt =====
-- Verification of the core of Tickerplant, a market data feed handler: two lossy multicast copies of
-- a feed become one ordered stream, from which the rest of the program rebuilds a book.
--
-- Parts, and the code they model (paths from the repository's root):
-- Pow2: the rounding of a size to a power of two, which include/tick/sequencer.hpp,
-- include/tick/recovery.hpp and include/tick/flat_order_map.hpp share.
-- Endian: include/tick/endian.hpp, words in a buffer of bytes, with RoundTrip.
-- Mold: include/tick/moldudp64.hpp. Frame is the header, View the parser and the walk over the blocks,
-- Builder the packet under construction; Blocks, Built and RoundTrip are proofs about them.
-- Itch: Lengths is include/tick/itch.hpp, the lengths of messages and the header that they share.
-- Event has the types of messages, the calls of a handler and the owned event; ZeroCopy, Normalize and
-- Decoder are the two decoders of include/tick/itch_decoder.hpp, where a handler is the list of its
-- calls. Window and Reads say which bytes a call reads, Equivalence compares the decoders, and Counts
-- is about their counters. Writer is include/tick/itch_writer.hpp, over a buffer of bytes; Message has
-- the messages and their fields as the specification of the feed lays them out, Fields and Loads say that
-- fields stored in turn are loaded back, and Written and Decoded take this to the writers and the decoder.
-- OrderMap: include/tick/flat_order_map.hpp. Table is the class, for any hash function; Ring is the
-- arithmetic of its indices. Probe and Found are about a probe, Shift, Move and Erased about the
-- backward shift, Held and Free about what the slots hold; Valid says what holds between two calls, Get
-- what find returns, Place, Grow, Erase and Calls what each call does, Refines takes it along any calls,
-- and Entries is about the walk.
-- Sequencer: include/tick/sequencer.hpp. State has the class and its slots, Window the moves of
-- the front (drain, settle, deliver_now, skip_to), Ingest the constructor, reset, ingest,
-- on_message and on_retransmit, Poll the clock. The other children are proofs: Invariant and Valid
-- say what holds between two calls, Front, Relabel, Hold, Skip, Accept, Missing and Clock that
-- each part keeps it, Events and Run take it along a session, and Order, Policy and Copies state
-- what a caller relies on. Tests has a session to run.
-- Book: Side is include/tick/book_side.hpp, the sorted vector of price levels; Sorted, Levels, Removal
-- and Runs are about it. Symbols is include/tick/symbol_table.hpp, with Directory
-- on its lookup. State, Builder and Handlers are
-- include/tick/book_builder.hpp, whose handlers take the calls of the decoders, and Queries what can be
-- asked of it; Live and Feed are about its order map, which is OrderMap's. The price level and the pool
-- are NanoExchange's, not of this repository: LevelOps, PoolOps and SideOps are their operations. Live and
-- Feed assume no law of them. Laws says what the rest relies on: a level adds up what is put in and taken
-- out, the pool gives places that are not in use, and a side has one level for a price; AllRoom of Room
-- says that the pool is not exhausted before any call of a feed. Ledger and Reference are the book as the specification of the
-- feed has it, the orders that rest and what each call makes of them. Places, Pointers, Agrees, Changes
-- and Refines show that the builder implements it; Top, Unique and Digest are about the queries. A price
-- and a quantity are the numbers of the feed, which fit 32 bits, and a level's total is one that does not
-- overflow. Samples has levels, a pool and a feed to run.
-- Recovery: include/tick/recovery.hpp. Client is the queue of ranges to ask for, with Bounds and Calls
-- on what it keeps; Store is the ring of published messages that answers a request, with Answers.
-- Seqlock: include/tick/seqlock.hpp, the value that one thread writes and others read. Its own file has the
-- steps of both sides, each load, store and byte of a copy being one, and a run is a list of steps in any
-- order that the guards allow; Invariant, Safety and Progress are about the runs, Schedule and Stores about
-- a store among the steps of a reader, where a step that is not the reader's next is passed over. The order of the steps
-- of one thread is that of the source, which the fences are there for; what a processor could reorder
-- without them is outside the model.
-- Risk: include/tick/risk.hpp, the gate of every order. State has the types, Rate the limiter, Table
-- the open orders, Check the eleven checks, Engine the events of an order, the kill switch and the
-- configuration; Passes and Gate are about the checks, Kill about the switch. Signed is int64_t as a
-- word in two's complement, where the source would overflow it wraps. TopOfBook is that of
-- include/tick/book_builder.hpp, and a token is the list of its bytes.
--
-- How the model corresponds to the code. A function has the name of its function in the source; a
-- branch or a loop body that is long is a function of its own, named beside it. The sink of the
-- sequencer is the list of its calls, the newest first. A std::vector that is read at masked indices
-- only is a function of the index. A uint64_t is a number with its wrap written out (add64, sub64,
-- mul64); the theorems ask that sequences stay a window away from 2 ^ 64. Loops take fuel, one round
-- more than they can make: 65 doublings of a 64 bit word, capacity + 1 rounds of drain, and the
-- distance to the target in skip_to; the invariants show that they end by their own tests. The table
-- of open orders doubles from 64 to at most 2 ^ 34, which 35 rounds reach, and its probes have as many
-- rounds as it has slots. A probe and a backward shift of the order map have as many rounds as it has
-- slots, of which one is always free; 0.6 of its size is written size * 3 / 5.
--
-- Not modelled: order entry and the strategy; the queue between threads; the reader of files, which calls
-- zlib; the synthetic feed; sockets, clocks, threads and memory resources, which are input and output or
-- have no part in the logic; the tools and benchmarks.
pub mod Prelude
pub mod Itch
pub mod Mold
pub mod OrderMap
pub mod Pow2
pub mod Book
pub mod Endian
pub mod Recovery
pub mod Risk
pub mod Seqlock
pub mod Sequencer
