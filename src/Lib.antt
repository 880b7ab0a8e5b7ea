-- ===== src/Lib.antt =====
-- A verification library for the exchange: the matching engine of core/.
--
-- Parts and their files:
-- - Common: shared names, tests on numbers, lists, words, and the type `Outcome` of code that can meet
--   undefined behaviour (`fault`) or a failed assertion (`abort`).
-- - Sequencer: `GlobalSequencer` of core/GlobalSequencer.hpp; `next_timestamp_ns` returns the stamp and
--   the sequencer after it.
-- - Order: `Order` and `IdTimestamp` of core/Order.hpp; `make` is the constructor, `pack` and `unpack`
--   the packing of an id and a stamp.
-- - Queue: `PriorityQueueAdapter` and the comparators of core/OrderBook.hpp. A multiset is a list in the
--   comparator's order, an iterator the handle of a node, and `id_to_iter` a partial function from ids
--   to handles. The two class instances are one set of functions over a `Comparator`, a record of an
--   order and its laws, which the two comparators of the code fill.
-- - Flags: `ExecFlags`, as its number.
-- - Book: `OrderBook` of core/OrderBook.hpp and core/OrderBook.cpp, with its assertions on. A call
--   returns its flags and the new book. The book owns two queues, takes stamps from a sequencer in
--   `modify_order`, and builds orders by `Order.make`.
-- - Exchange: `Exchange` and `ThreadPool` of core/Exchange.hpp, core/Exchange.cpp, core/ThreadPool.hpp and
--   core/ThreadPool.cpp. A call enqueues a task on the shard of its symbol, a worker's round runs the
--   oldest task of its shard on the book of the task's symbol; a run is a sequence of such steps in any
--   order. `std::hash` is a parameter, and so is the queue of the pool (`Exchange.Pool.TaskQueue`), with
--   the order that it documents for one producer and no promise that a dequeue succeeds.
-- - Logger: the macros of core/ExchangeLoggerMacros.hpp; what one of them passes to quill is an `Entry`.
-- - Fix: the FIX codec. Fix/Alloc is the arena of core/Alloc.hpp, with offsets for addresses;
--   `allocate_at` has the sums of `allocate` in 64 bits, `allocate` serves the callers of the model. Fix/Tags
--   has the tables of common/FieldTag.hpp and common/MsgType.hpp, a value of an enumeration being its
--   position, and their conversions; Fix/Tags/Hash
--   checks the tables by the hashes of common/CommonTools.hpp. Fix/Decimal has the integers: `std::to_chars` as the builder calls
--   it, and `parseInt` and `parseLong` of core/FieldMap.hpp. Fix/Builder is the builder of
--   core/Builder.hpp: `message` is the bytes from `message_` to `cp_`, and what throws carries the
--   builder as it was left. Fix/FieldList is the `Field` of core/Field.hpp and the list of
--   core/FieldList.hpp, with its assertion on; a pointer to a map is an address. Fix/FieldMap is the
--   `FieldMap` of core/FieldMap.hpp and core/FieldMap.cpp: the maps are objects at addresses of the arena,
--   linked by `next`, and `map_size` stands for sizeof(FieldMap). Fix/Parser is core/Parser.hpp and
--   core/Parser.cpp: `scan` is an inner loop, `round` a round of the outer one, `on_groups` what it does
--   for groups; `Fix/Parser/Scan`, `Groups` and the parser itself hold the code, the other children the
--   proofs: `Meaning` and `Framed` read a message field by field, `Members`, `GroupTexts`
--   and the files behind them its groups. Fix/Wire puts builder and parser together. Bytes are numbers,
--   the stream is the list of its bytes. A write behind the block of the message's bytes is a `fault`, although the arena goes on there.
--
-- Words: a `uint32_t` or `uint64_t` is a number, with its wrap-around written out; that a volume fits
-- its word is a hypothesis where a proof needs it. Fuel: the loop of `matchOrder` gets one round more
-- than there are resting orders on the opposite side; each round removes one of them or fills the
-- taker, so this is enough (`Book.Match.match_loop-Matched`). The loop of `parse` gets one round
-- more than there are bytes to read, and the count of the groups in it one step more than bytes of the
-- arena are in use (`Fix.Parser.Termination.parse-Ended`): each round takes two bytes at least, and the
-- maps of a list lie at rising addresses. `digits` takes the width of the text that the code has room for.
-- The overflow of an int or a long in parseInt, parseLong and the constructor of FixMessage is a `fault`.
--
-- Not modelled: quill, which formats and writes the log lines, and its set-up in
-- core/ExchangeLogger.hpp and core/ExchangeLogger.cpp, the operating system's clock, which is an
-- argument, the stop of the workers when the pool is destroyed, and a `getOrder` that races with a worker.
pub mod Common
pub mod Sequencer
pub mod Order
pub mod Queue
pub mod Flags
pub mod Logger
pub mod Book
pub mod Exchange
pub mod Fix
