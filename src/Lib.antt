-- ===== src/Lib.antt =====
-- A model of the order processor: the order book, the storage of orders, the matcher and the
-- transactions, with the theorems that make them correct. Paths are from the root of the repository.
--
-- An order (src/DataModelDef.h) is saved in the storage under two keys, waits in the order book at
-- its price, and is matched with the orders of the other side. A change of the book is an operation
-- of a transaction, which commits or rolls back; transactions that touch the same objects wait for
-- one another in a tree.
--
-- Common holds the names, tests, lists and sets that the other modules share.
-- Model is src/TypesDef.h, src/IdTGenerator.cpp and src/DataModelDef.h with src/DataModelDef.cpp: `IdT`
--   is `Model.Ids.IdT`, `OrderEntry` is `Model.Order.Order` with its lazy references resolved, and the
--   `isValid` functions are `check_order` and its parts.
-- Book is src/OrderBookImpl.cpp. A side is the list of the entries of its multimap, `Book.Side`; the
--   operations keep the source's names in `Book.Defs`.
-- Store is src/OrderStorage.cpp, the part on orders: the objects are cells at addresses, which the
--   maps share.
-- Matching is src/OrderMatcher.cpp: `match_order` is `OrderMatcher::match`, `find_opposite` is the functor.
-- Acid is src/TransactionDef.h, src/TransactionScope.cpp and, of src/TrOperations.cpp, the operations on
--   the order book. An operation is a pair of functions on a state, which return or throw.
-- Tree is src/NLinkedTree.cpp, the tree of transactions; a node is named by its key.
-- Manager is src/TransactionMgr.cpp over Tree, Acid and the generator of ids: `add_transaction`,
--   `remove_transaction` and `next` are the calls. The calls of the observer are counted.
-- Queues is src/IncomingQueues.cpp with the events of src/QueuesDef.h: `push_event`, `top`, `pop_to` and
--   `pop` are the calls, and the concurrent queue of oneTBB is the parameter `Queues.Events.EventQueue`.
-- Machine is the state machine of an order: `Table` is the table of src/StateMachine.h, `Handlers` the
--   actions and guards of src/StateMachine.cpp, `Actions` the functions of src/OrderStateMachineImpl.cpp and
--   `Entries` the entry actions of src/OrderStates.cpp. An order is the address of a cell of the storage,
--   and the operations are kept as data. `Dispatch` states what Boost MSM documents of `process_event`; the
--   function itself is a parameter of the theorems.
-- Processor is src/Processor.cpp over all of these, with the deferred events and the operations of
--   src/TrOperations.cpp. `Desk` is what a thread works on, `Handlers` has the handlers of the queued events,
--   and the loop over the deferred events gets a number of rounds. The queues are lists of events.
-- Filters is src/FilterImpl.cpp, src/EntryFilter.cpp and src/OrderFilter.cpp, a filter being the list of its
--   parts, and Subscr is src/SubscrManager.cpp over it. The function for patterns is a parameter.
-- Codec is the codecs of the stored entries, src/OrderCodec.cpp and its neighbours, with the `serialize`
--   and `restore` functions that they call. A buffer is a list of bytes, and numbers have their lowest byte
--   first, as on the machines that the source is built for. A read behind the end of the buffer has no
--   defined result, and ends the model's run as `overread`.
-- Examples has test data and the theorems at concrete values.
--
-- Exceptions are error values, and an operation that throws returns no new state unless the source has
-- changed it by then. Assertions are not modelled. A price, which is a double in the source, is a whole
-- number of ticks: it is only compared, and compared with 0. Quantities wrap at 2 ^ 32 and counters
-- at 2 ^ 64, as in the source. Loops are recursions on lists, except the
-- one over the deferred events, which takes a number of rounds. The clock is an
-- argument of `get_id`. Memory is not modelled, except the offsets in the arena of a transaction.
--
-- Not modelled, since they are threads, input and output or not translated yet: locks, the pool of
-- transactions and the tasks, the log, the outgoing queues, wide data, files and databases, the server.
pub mod Common
pub mod Model
pub mod Book
pub mod Store
pub mod Matching
pub mod Machine
pub mod Manager
pub mod Codec
pub mod Acid
pub mod Tree
pub mod Examples
pub mod Processor
pub mod Filters
pub mod Subscr
pub mod Queues
