-- ===== src/Lib.antt =====
-- The server of the gaming café platform: the logic of apps/server/src and of the enumerations and
-- schemas of packages/shared/src that it uses.
--
-- A café rents machines by the minute. Staff start, extend, pause, resume, end and cancel sessions;
-- a price comes from the café's rules; a worker ends sessions whose time is over. A machine that loses
-- its connection records events and sends them later in batches, which the server applies or marks as
-- conflicts. Food orders and payments belong to a café. Every change is published to the café's
-- channel, from which browsers and machines read. All of them share one database: World is the state,
-- with the tables that the modelled code reads or writes, the channels of events, and the counts of
-- failed logins.
--
-- Which file models which part (paths in apps/server/src):
--   Pricing (Clock, Winner, Charges, Breakdown, Windows): modules/sessions/pricing.ts.
--     parseClock is Clock.parse_clock, pickWinner is pick_winner, computePrice is compute_price with
--     the closure `flush` and the variables of the loop as the record Pass.
--   Sessions (Start, Handlers, Expiry; proofs in Effects, Calls, Lookup, Results, Terminal, Occupancy,
--     Again, Admission, Extensions and Transitions): modules/sessions/start.ts, handlers.ts, shared.ts and expiry.ts. A handler is one
--     function: handleStartSession is handle_start_session, handleExtendSession is
--     handle_extend_session, makeTerminalTransitionHandler is handle_transition, and
--     expireDueSessions is expire_due_sessions. Calls puts them in sequence.
--   Sync (Rows, Apply, Events, Handlers; proofs in Ack, Replay, Resend, Counts, Active, Resolution,
--     Spares, Batches and Over): modules/sync.
--     resolveOfflineEvent is resolve_offline_event, processSyncEvent is process_sync_event,
--     handleSyncEvents is handle_sync_events, computeAckSeq is compute_ack_seq.
--   Orders (Create, Handlers; proofs in Progress, Status and Numbers): modules/orders.
--   Payments (proofs in Replay and Ledger): the creation of a payment in modules/payments/routes.ts.
--   Commands (proofs in Ack and Confirmed): modules/commands and the command job of worker.ts.
--   Realtime (Ring, Replay): modules/realtime/service.ts.
--   RateLimit (Lockout): lib/rate-limit.ts.
--   Auth (Services, Guards, Login, Pairing, Enroll; proofs in Login.Tokens and Attempts,
--     Pairing.Codes and Once, Enroll.Naming and Again): auth/guards.ts and modules/auth/handlers.ts.
--     requireUser is require_user, handleLogin is handle_login, handleDevicePair is
--     handle_device_pair, handleDeviceEnroll is handle_device_enroll with its loop free_number.
--   Pcs (Rows, Superadmin, Views, Details; proofs in Superadmin.Lockout): modules/pcs/handlers.ts.
--   Games (Deployments with Staff and Agent; proofs in Counting, Targets, Requests, Owned, Effects
--     and Isolation): modules/games/handlers.ts and deployment.ts. Views holds what is only read.
--   Menu (Kiosk; proofs in Kiosk.Orderable): modules/menu/handlers.ts.
--   Customers: modules/customers/handlers.ts.
--   Reports (Days): the reports by day of modules/reports/handlers.ts.
--   World (Tables, Devices, Catalog, Audit, Action), Shared: the rows of db/schema.ts,
--     modules/audit/service.ts, the enumerations and the problems.
--   Prelude: names of the libraries, Boolean tests, lists, signed numbers, texts, tables before and
--     after an update (Rows), lists without repetition (Pigeonhole). Tests: runs and witnesses.
--
-- How the code is modelled. A handler is an action on World that returns or raises a problem;
-- `transaction` takes the tables back on a raise and leaves what was published. Requests run one
-- after the other: the row locks of the transactions and the advisory lock on order numbers are what
-- the program has for that, and races between transactions are not modelled. The time and each new
-- key are arguments. Instants are milliseconds from the epoch as natural numbers; keys and texts that
-- are only compared are natural numbers; money is in minor units, with signed numbers in orders, where
-- a variant's difference may be negative. JavaScript's numbers are taken as exact, which they are up
-- to 2^53. A query without an order returns rows in the order of the table. Loops are by structural
-- recursion, on the minutes of a stay and on lists; only the search for a free name runs on fuel, one
-- test more than there are taken names. Tokens, hashes and the case of addresses come from outside:
-- Auth.Services is the record of those operations, with the laws of signed tokens that the code relies
-- on. Where a unique index is violated the answer is the server's internal error, and so it is for an
-- update that sets no column, which the database library refuses, and for a line of an order whose
-- variant does not exist; other foreign keys are taken to hold. A request is one step, also where the
-- code awaits between a read and a write, and the command that follows the transaction of an end or a
-- cancellation is taken not to fail.
--
-- What is narrower than the code: the hourly rate and the priority of a pricing rule are natural numbers,
-- where the columns have signed ones without a check; a number in the payload of an offline event is not
-- negative, and an empty text or a truth value there is no number, where Number reads both; the reports group and order rows by day as `groupBy` and `orderBy` of the queries ask for.
--
-- Not modelled: Redis, the queue, the web framework and the texts of problems and events; most lists
-- of rows that handlers only read; the dashboard of modules/reports and modules/notifications; the
-- web applications and the desktop agent.
pub mod Prelude
pub mod Pricing
pub mod Shared
pub mod Realtime
pub mod RateLimit
pub mod World
pub mod Auth
pub mod Commands
pub mod Sessions
pub mod Sync
pub mod Pcs
pub mod Games
pub mod Menu
pub mod Customers
pub mod Orders
pub mod Payments
pub mod Reports
pub mod Tests
