-- ===== src/Lib.antt =====
-- A durable task queue: a write-ahead log, a codec for its records, and a queue with leases,
-- retries, idempotency keys and a dead-letter store that is rebuilt from the log; with a load test
-- that checks that no task and no effect is lost, and a demo.
--
-- The program and its model
--   internal/queue/record.go   Record: the payloads (Record/Payload), their encoders and decoders
--     (Encode, Decode, Read), big-endian fields (Bytes). `body` is encodeRecord of the encoded
--     payload. A UUID is a number below 2 ^ 128; uuid.FromBytes is the parameter `from_bytes`, and
--     ReadsUuid says that it reads back sixteen bytes.
--   internal/queue/wal.go      Wal: the CRC-32 of a record (Checksum), encodeFrame and decodeFrame
--     (Frame), Replay over the bytes of the file (Replay), OpenWAL and one round of the writer
--     goroutine (Writer). The file is the list of its bytes with the number of those that an fsync
--     has covered. What each Write and the fsync do is an argument (Batch), so each failure is a
--     case of the theorems.
--   internal/queue/task.go     Task, with times as nanoseconds since the year 1 (Clock), the zero
--     time being 0; UnixNano wraps at 64 bits.
--   internal/queue/heap.go     ReadyHeap: the order, and Push, Pop and Init of container/heap.
--   internal/queue/queue.go    Queue: the state (State), the calls of producers and workers and the
--     sweeper (Methods), the backoff (Backoff), the dead-letter calls (DeadLetter), applyRecord and
--     NewQueue (Recovery).
--   internal/queue/wal.go, concurrently   Wal/Channel: Append, the writer and Close as moves on the
--     channel of requests, with room for 1024. What was submitted and what was answered are kept, each
--     in order. A receive from a closed channel gives nil.
--   internal/queue/queue.go, runSweeper   Queue/Lifetime: the ticks that its select receives, and the
--     stop. Queue/Lifetime/Closing: Close as steps beside the sweeper, the writer and the callers.
--   cmd/loadtest/store.go, workload.go   LoadTest: the effect store (Store), the keys of the producers
--     (Keys), the rounds of producers and consumers (Workload), and the run as turns that they
--     and the sweeper take in any order (World). A counter moves with the call that it counts. Drain:
--     the drain call by call, beside the sweeper.
--   cmd/loadtest/metrics.go    LoadTest/Metrics: the summary of latencies. A float64 quotient is kept
--     as a pair of numbers, and `ceil_share` is the rank that the float64 product comes to.
--   cmd/loadtest/main.go, wizard.go   LoadTest/Settings: the knobs, what is refused, and the questions
--     of the wizard over the lines that are typed. LoadTest/Main: realMain as the actions that it takes,
--     in order, and its exit code. strconv, time.ParseDuration, the comparison of float64, the flags,
--     and what NewQueue, a run and the results file answer are parameters.
--   cmd/loadtest/results.go, output.go   LoadTest/Results: the record of a run, the header lines and
--     the marks of the report.
--   cmd/taskq/main.go          Demo: the loop that enqueues and the loop that drains.
--
-- A pointer to a task is a number, and `cell` is what the pointers refer to: the maps and the heap of
-- the queue share their tasks. A call is a function from a queue to an answer and a queue (Exec); an
-- answer is a value, an error or a panic (Prelude/Run). The mutex makes each call one step, but for
-- Enqueue, which lets go of it for the append: its two parts are definitions of their own, and
-- `enqueue` runs them with nothing between; Queue/Overlap lets the parts of many callers and the other
-- calls come in any order. The clock, the random number of the backoff, the fresh UUID, the order in
-- which a map is visited and whether an append succeeds are arguments. Of the log a queue keeps the
-- records that were acknowledged. A failed append may leave its frame, or a part of it, in the file
-- (Wal/Writer, Wal/Crash); what the queue keeps then says nothing of that, so the theorems that
-- compare a queue with its log ask that no append has failed.
--
-- Queue/Ledger counts the tasks that a queue holds and what each call does to them, which the load
-- test's account of its tasks and effects (LoadTest/Conservation) stands on. Queue/Tracking says
-- where a live task is, and Queue/Places that it is nowhere else.
--
-- Queue/Spec has what the log must remember: the live tasks, the dead ones and the keys, with what
-- each record does to them. Queue/Durability compares the calls with it, and Queue/Recovery/Refines
-- the replay; Queue/Durability/Restarted and Queue/Recovery/Listed are about the ready list that the
-- replay leaves. Queue/Overlap/Reopened is about the replay while calls of Enqueue overlap: the log
-- then has tasks that the queue does not show yet (Overlay).
--
-- Fuel: Replay reads eight bytes at least in each round, so the length of the file is enough; `up`
-- and `down` of the heap move towards the root and the leaves, and take the length of the heap. In the
-- loop of the demo each round takes a task off the ready heap, so its length and one more is enough.
--
-- Not modelled: the end of WAL.Close, which waits for the writer and closes the file; the sleeps and
-- tickers, as a step may come at any time; the flag package, encoding/json and the files of results.go;
-- the tables and the text that String methods and the report print. MaxRetries is a natural number.
pub mod Prelude
pub mod Clock
pub mod Record
pub mod Wal
pub mod Task
pub mod ReadyHeap
pub mod Queue
pub mod LoadTest
pub mod Demo
mod Examples
