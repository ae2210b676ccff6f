-- ===== src/Lib.antt =====
-- A verification library for parts of Aurora, the API server of the Hcnet network, and of the Go SDK
-- that it is built on.
--
-- The parts, and the files that model them:
--
-- * Ingest models services/aurora/internal/ingest/fsm.go and main.go: the state machine that copies
--   ledgers into a database. Ingest/World is what the machine talks to: the database with the one
--   transaction of its session (support/db/session.go, Ingest/Steps), and an environment that decides
--   which calls fail, what the ledger backend and the history archive answer, and what other nodes
--   have committed when a transaction begins. The environment sees all calls made so far, so that the
--   theorems hold for every order of failures. Ingest/Nodes has the states and the transitions,
--   Ingest/Start, Ingest/Resume and Ingest/History the `run` of each state, Ingest/Helpers what they
--   share, and Ingest/Machine the loop `runStateMachine` and the commands `Run`, `ReingestRange`,
--   `BuildGenesisState` and `VerifyRange`. Ingest/Triples is a logic of pre- and postconditions for
--   the steps. Go's early `return` is the constructor `exit` of `Flow`, a deferred rollback is
--   `deferring_rollback`, and an error is a value of `Error`. The processors' SQL is not modelled: the
--   tables are the list of the writes made to them.
-- * Toid models services/aurora/internal/toid/main.go, the packing of a ledger, a transaction and an
--   operation into an int64. The reingestion uses its ranges.
-- * Checkpoints models historyarchive/range.go, the arithmetic of checkpoint ledgers. The machine's
--   state verification uses `IsCheckpoint`.
-- * Price models the integer part of price/main.go, and the comparisons of xdr/price.go.
-- * Changes models ingest/io/change.go and ledger_entry_change_cache.go: the changes of ledger entries
--   and the cache that squashes those of a ledger. An entry is an abstract type with its key.
-- * Submission models services/aurora/internal/txsub/sequence (queue.go and manager.go): the queues of
--   submissions that wait for the sequence number of their account. container/heap is the interface
--   `Heap`, the clock an argument, and a channel a number: what is sent on it is an `Answer`.
--   Submission/Queue has the methods of a queue and Submission/Manager those of the manager.
-- * OpenSubmissions models services/aurora/internal/txsub/open_submission_list.go: the listeners that
--   wait for the result of a transaction.
-- * Txsub models services/aurora/internal/txsub/system.go, results.go and `IsBadSeq` of main.go, over
--   Submission and OpenSubmissions: a call of `Submit` in its parts between the places where it blocks
--   (Txsub), a round `Tick` (Txsub/Rounds), and their interleavings as steps of a world (Txsub/Runs). What
--   a part does between two such places, `Push` and `Update` or `Add` and `Update`, is one step.
-- * OrderBook models exp/orderbook/edges.go, graph.go and batch.go: the offers of a trading pair sorted
--   by price, the graph of all offers in its three maps (OrderBook/Graph), and the batches of updates.
--   It compares with the prices of Price. The binary search of the package sort is `search`.
--   OrderBook/Book is what a graph means, a map from the ids to the offers.
-- * Paths models exp/orderbook/dfs.go, and `FindPaths` and `FindFixedPaths` of graph.go: what a list of
--   offers takes and gives (Paths), the depth-first search over a graph of OrderBook with its two
--   states (Paths/Search), and the sort and the filter of what is found (Paths/Filter). `sort.Slice`
--   is a parameter. Paths/Payments says what a payment path is, by the walks of Paths/Routes. The limit on
--   the length of a path is a number, so that a negative one is left out.
-- * Captive models ingest/ledgerbackend/captive_core_backend.go and the ranges of ledger_backend.go: the
--   session with a subprocess that streams ledgers. `GetLedger` and `Close` are in Captive, the opening
--   of a session and `PrepareRange` in Captive/Opening, which uses Checkpoints. What the subprocess, its
--   runner and the archive answer is the record `Calls`, and the goroutine that fills the buffer is the
--   list of all that it sends; a call that waits for ever is a value.
-- * Crc16 models crc16/main.go, with its table in Crc16/Table.
-- * Strkey models strkey/main.go over Crc16: the encoding of keys with a version byte and a checksum. A
--   string is the list of its bytes. Strkey/Base32 is Go's base32 without padding.
-- * Changes/Transactions and Changes/Reader model ingest/io/ledger_transaction.go and
--   ledger_change_reader.go: a reader that gives the changes of a ledger one by one. `Read` calls itself,
--   which is counted by fuel; Changes/Left says what a reader still has to give.
-- * Base has the shared names: Boolean tests on numbers, lists, signed integers over the native numbers
--   and association lists for Go maps.
--
-- Machine integers: a sum that may wrap is taken `% 2 ^ w`. An int64 that the code keeps from being
-- negative is a number, with its bound as a hypothesis where a theorem needs it. The loops over ledgers
-- count their rounds; they agree with the uint32 counters of the code below the largest uint32, where
-- the Go loops would not end.
--
-- Fuel: `run_state_machine` takes one unit for each turn of the loop, which by design runs for ever; a
-- reingestion is one turn. The loops over a queue take as many rounds as it has submissions, one of
-- which leaves in each; the binary search as many as there are offers, since its bounds close in. The
-- depth-first search takes the greatest length of a path and 2: a path grows by an asset at every level.
-- The reader of a ledger's changes takes every transaction twice, every upgrade once, and 3 turns more.
-- The base32 decoder takes as many rounds as there are characters, of which a round takes eight.
--
-- Not modelled: logging and metrics, the SQL of the history tables, the state verification that runs
-- beside the machine, the timing of the goroutine of a captive core, the matching of transactions with
-- their envelopes, the parsing of prices from decimals, the listings of the order book, the call of the
-- core that submits a transaction, the printing of ranges, generated code, and the services and
-- clients around these parts.
pub mod Base
pub mod Captive
pub mod Changes
pub mod Checkpoints
pub mod Crc16
pub mod Ingest
pub mod OpenSubmissions
pub mod OrderBook
pub mod Paths
pub mod Price
pub mod Strkey
pub mod Submission
pub mod Toid
pub mod Txsub
