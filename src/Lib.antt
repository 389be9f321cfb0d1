-- ===== src/Lib.antt =====
-- A model of cert-yjs: a text CRDT in Go (package yjs) with its transactions, observers and wire
-- codec, the relay that serves a document and the application that mirrors a text, and the proofs
-- of what their operations promise.
--
-- The parts, and the files that model them (paths are from the repository's root):
--
-- - Base: shared names, Go's uint64 arithmetic, and `Run`, the outcome of running Go code (a
--   result, a panic, or more rounds than the fuel).
-- - Ident, Span, Item, Update: the data types of yjs/id.go, yjs/range.go, yjs/delete.go,
--   yjs/item.go, yjs/content.go and yjs/update.go.
-- - Heap: the memory that pointers reach. An item pointer is an address, nil is `none`; a pointer
--   that is not nil is valid, so only a read through nil panics.
-- - YType: the walks of yjs/ytype.go over the linked list of a root type.
-- - Store, Split, Integrate: yjs/store.go. `Store` is the struct store with the memory, the binary
--   search over run lists and the tests on dependencies; `Split` cuts runs; `Integrate` resolves
--   conflicts, splices, tombstones and repairs.
-- - Delta, Diff: yjs/observe.go. `Delta` is deltaSnoc and ApplyDelta; `Diff` is textDelta and
--   TextObserver.Poll.
-- - Transaction, Text, Strings, Doc: yjs/transaction.go, yjs/text.go, yjs/strings.go, yjs/doc.go
--   and yjs/sync.go. `Transaction/Pending`, `Pass`, `Drain`, `Deliver` and `Stops` are proofs on
--   applyUpdate.
-- - Wire: yjs/codec.go and yjs/refs.go. `Wire` has the numbers, strings and ids of the format,
--   `Wire/Decode` the sections of an update and splitStructs, `Wire/Encode` joinRuns and encodeRun,
--   `Wire/EncodeUpdate` EncodeUpdate and generateDeleteSet, and `Wire/Nodes` the entries of a store
--   and encodeNode; the other files of `Wire` are proofs on them. Go's UTF-8 and UTF-16 conversions
--   are arguments.
-- - Report: yjs/report.go, the report of a snapshot.
-- - Relay: wsrelay/wsrelay.go, the room. A connection is a number, what Receive answers is an
--   argument, what goes to Send and Trace is an output, and the goroutines are the steps of the
--   relation `Step`, one critical section each.
-- - Mirror: observeapp/observeapp.go, the application's copy of a text and its callback.
-- - Wasm: yjswasm/main.go, the binding that JavaScript calls. What it is called with is taken as
--   converted already.
-- - Frames: grovenet/grovenet.go, Send and Receive: messages behind their lengths. The connection
--   of TCP is an argument.
-- - Tests: runs at concrete inputs, and the theorems at concrete inputs.
--
-- A transaction on a document runs its writes, then notify calls the observers of what changed, of
-- which a mirror is one. A message to the room is decoded by the wire codec and applied as a
-- transaction, and the report of the text is traced.
--
-- Conventions. A uint64 is a number, and additions and subtractions that the code makes wrap at
-- 2 ^ 64 (`add64`, `sub64`); the length of a slice is taken to fit 64 bits. A method that writes
-- returns the new state. A Go string is its list of bytes. A map is a function into `Option`, or an
-- association list where the code visits its keys; `changed` keeps its keys in the order in which
-- they were first written, where Go promises none. A callback is a number, and the calls that a
-- transaction makes are returned with their deltas. The operations of one critical section are one
-- function, and the locks themselves are left out.
--
-- Loops over a linked list have as fuel one round more than there are items in memory, and a list of
-- distinct items is no longer than that; the binary search has one more than the length of its list;
-- deleteRange has one more than the length of its range, and applyUpdate one more than the number of
-- pending structs. Reading a number has one round more than the buffer has bytes, and writing one ten,
-- the groups of seven bits in 64.
--
-- EncodeUpdate visits Go maps in no particular order and sorts their keys; here the keys come in the
-- order in which they were found, and are sorted the same way.
--
-- Not modelled: the locks; the sockets of wsnet/wsnet.go and grovenet/grovenet.go, their addresses,
-- and the two demo programs on them, which are input and output; the registration of the JavaScript functions; and
-- the proof scripts in Rocq.
pub mod Base
pub mod Ident
pub mod Span
pub mod Item
pub mod Heap
pub mod YType
pub mod Update
pub mod Store
pub mod Split
pub mod Integrate
pub mod Delta
pub mod Diff
pub mod Transaction
pub mod Text
pub mod Doc
pub mod Wire
pub mod Report
pub mod Mirror
pub mod Relay
pub mod Strings
pub mod Wasm
pub mod Frames
mod Tests
