-- ===== src/Lib.antt =====
-- A model of Woof, a daemon that hands work to coding agents in the panes of a Herdr terminal and
-- keeps what became of it, with the theorems that make it correct.
--
-- The program's parts. The daemon (internal/daemon) takes requests of a client over a socket, keeps
-- workers, runs, dispatches, messages and schedules in a SQLite database (internal/store, with the
-- records of internal/model), reads panes and writes prompts through Herdr (internal/herdr,
-- internal/prompt), and starts work by time (internal/schedule). Every change of the records is one
-- transaction; a prompt is sent between two of them, so that its outcome can be recorded late.
--
-- What models what:
--   Prelude          the shared helpers: Boolean tests (Tests), lists (Lists), integers (Int), bits
--                    and 64-bit words (Bits, Word), Go's value-or-error (Result), code points (Text)
--   Schedule.Fields  internal/schedule/parse.go: parseFields, getField, getRange, getBits
--   Schedule.Search  internal/schedule/schedule.go: next, addMinute, nextBit, dayMatches
--   Schedule.Zone    internal/schedule/schedule.go: resolve
--   Schedule.Every   internal/schedule/schedule.go: nextEvery, dueEvery
--   Schedule.Calendar the civil calendar that `time` documents (civil, unix, daysIn, weekday)
--   Schedule.Instant instants in nanoseconds, and what `time` reads from them (In, Year, AddDate);
--                    Reading has what the wall clock reads at the instant of resolve
--   Schedule.Expr    internal/schedule/schedule.go: Next, Due and latest
--   Daemon.Model     internal/model/model.go, and the predicates of a worker, a pane and a dispatch
--   Daemon.Store     internal/store/store.go: Get, Put, List, Event, and the unique indexes
--                    of internal/store/schema.go on dispatches, schedules and their runs
--   Daemon.Settle    settleRunTx, dispatchEventTx (internal/daemon/dispatch.go), finishTx (core.go),
--                    syncScheduleRunTx and finishAttemptTx (schedule.go)
--   Daemon.Dispatch  dispatch: its checks, its intent, the outcome of its prompt
--   Daemon.Report    done
--   Daemon.Control   dispatchControl, fenceWorkerTx (internal/daemon/workers.go)
--   Daemon.Observe   observeWorker, observeDeliveriesTx (internal/daemon/messaging.go)
--   Daemon.Mailbox   internal/daemon/messaging.go: putMessageTx, ack, the intent and the outcome of
--                    processInbox, holdQueuedDeliveries, markLostWake; Once follows the intent;
--                    inboxReadRecoverable of internal/daemon/inbox_recovery.go
--   Daemon.Send      send (internal/daemon/messaging.go) and resolveWorker (core.go); Replies is about
--                    the replies to a question
--   Daemon.Resolve   operation.resolve of internal/daemon/mutations.go, but for a worker's launch
--   Daemon.Hub       internal/daemon/hub.go; Stream follows the channel of one subscriber
--   Daemon.Requests  internal/daemon/core.go: Handle on mutations and receiptResult; Replay follows a
--                    request that comes again
--   Daemon.Occurrences internal/store/schedules.go, and of internal/daemon/schedule.go
--                    cancelOutstandingTx, createRunTx, blockRun, persistScheduledMessageTx
--   Daemon.Schedules advance and the transactions of scheduleAdd, scheduleMutate, scheduleManualRun
--   Daemon.Claims    claimDue
--   Daemon.Attempts  executeRun, settleAttempt, classifyAttemptTx, recoverRuns of one attempt
--   Daemon.Wake      scheduleOnce with recoverRuns; Sleep has how long it may sleep
--   Daemon.Watchdog  internal/daemon/watchdog.go and recoverInboxReads of inbox_recovery.go; Once is
--                    about the alerts of a dispatch, Episode and Human about those of a blocked worker
--   Daemon.Scheduling the order-free behaviour of the scheduler: Reach has the step relation, Advance
--                    the table of occurrences, Progress where a claim leaves the schedule, Cancelled and
--                    Cancel what a disabled schedule leaves, Retries when an occurrence is tried again
--   Daemon.Lifecycle the order-free behaviour of these transactions: Reach has the step relation,
--                    Advance the table of dispatches, Moves one dispatch, Puts, Loops,
--                    Alerts and Resolved the transactions, Repeat, Ends and Safe the results
--                    on single operations
--   Examples (of Schedule and of Daemon) concrete runs, and each result at one of them.
--
-- Conventions. Numbers are natural numbers, with the subtraction of Go written out; instants are
-- integers. A bit set is a number below 2^64, and a shift drops what leaves the word. An id is a
-- number, 0 for the empty string, in the order of the strings; a text is its code points. An error is
-- its code. A transaction takes the database and gives a new one or an error, in which case nothing
-- changes, as Store.Write rolls back. A transaction reads the clock once, and takes the random ids
-- that it makes as arguments: a new dispatch's id is not in use. What Herdr, the prompt reader, the
-- file system and the time zone database answer is an argument; only the zone has hypotheses, which
-- package time documents (IsLocation), and that transitions are not dense (IsSpaced).
--
-- Bounds and fuel. getBits runs for at most max + 1 rounds. The search `next` has fuel by the hours
-- up to its last year, counting 33 days and 13 months: each round takes this count forward, so that
-- the fuel is not used up, which is proved. resolve keeps the source's 64 rounds, and spaced
-- transitions end it within them. Next has fuel by the minutes up to its last year, and every round
-- takes the time forward by one at least. The binary search of `latest` has the distance as fuel,
-- which a round halves. The time of the scheduler is in milliseconds, read from a clock in
-- nanoseconds after 1970. Spans of time saturate at an int64 as Time.Sub does.
--
-- Not modelled: SQL and its foreign keys, event payloads and sequence numbers, texts for people,
-- background goroutines and locks (each transaction is atomic, and any order of them is allowed),
-- and the parts with no module above: inbox, the text of an expression (Parse), the checks
-- of scheduleAdd, the listings of schedules, worker launch and its branch of
-- operation.resolve, run.create, gates, attachment evidence, the loops of
-- the watchdog over its lists, the client, the command line and the terminal interface, the socket protocol.
pub mod Prelude
pub mod Schedule
pub mod Daemon
