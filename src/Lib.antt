-- ===== src/Lib.antt =====
-- AlgoDollar: the order path of the trading backend, from a signal to the broker and back.
--
-- The program decides about an order in three layers, all under backend/app/execution. The lifecycle
-- (lifecycle.py) says which states an order has, which moves between them are legal, how a fill is
-- counted, and what the order store promises. The safety gates (safety.py) decide whether an order
-- may be sent. The order manager (order_manager.py) reserves, checks, sends, cancels, polls, fills
-- and recovers orders, over a store, a broker and a kill switch that it is given.
--
-- Files, by what they model:
--   Lifecycle.*  backend/app/execution/lifecycle.py
--     States, Transitions (the table and assert_transition), Transitions.Paths (whole lives),
--     BrokerStatus (map_broker_status), Tags (client order ids), Record (OrderRecord, apply_fill,
--     to_dict, from_dict), Fills (sequences of fills), Store (InMemoryOrderStore), Store.Laws,
--     Store.Positions (positions under sequences of fills), Redis (RedisOrderStore over a client);
--     Redis.Keys (when keys are equal), Redis.Represents (when Redis holds what the in-memory store
--     holds), Redis.Calls, Redis.Simulates, Redis.Trades and Redis.Refines (sequences of calls of the
--     two stores), Redis.Scan (what list_open finds)
--   Safety.*     backend/app/execution/safety.py
--     KillSwitch (check, probe, engage), Gates (one check_ function each), Duplicates, Validate
--     (validate_order), Conditions and Permits (what an order that passes satisfies)
--   Orders.*     backend/app/execution/order_manager.py, backend/app/broker/base.py
--     Broker (enumerations and dicts), Env (what the manager calls), Exec (its coroutines), Costs,
--     Pricing, Resolve (get_record, _query_broker_for_tag, _resolve_unknown), Fill (handle_fill),
--     Submit (submit_order), Recover, Cancel, Monitor, Flatten (emergency_flatten_all);
--     Submit.Stages, Submit.Once, Submit.Refused, Submit.Sent, Flatten.Once, Flatten.Guarded,
--     Fill.Writes, Fill.Booked, Cancel.Confirmed, Monitor.Outcome and Recover.Absent prove what they
--     do, Quiet that all the others place nothing, Placed counts the orders under one id, History
--     joins the coroutines to sequences of calls, Ineligible says what a refused process does, and Memory fills the manager's store by the
--     in-memory one
--   Audit.*      backend/app/execution/audit.py
--     the outcomes, the record and its queries; Journal (AuditJournal.record over any sinks)
--   Reconcile.*  backend/app/execution/reconciliation.py
--     Values (the dicts and their conversions), Status, Found (discrepancies), Snapshot, Fills, Orders
--     (open and unknown orders), Positions (with the funds), Engine (fetching, verdict, kill switch);
--     Fills.Totals, Orders.Open, Orders.Known, Positions.Net, Positions.Agree and Positions.Cash prove
--     what a comparison that finds nothing means, Engine.Verdict when a pass permits trading,
--     Engine.Agreed what is true then, and Engine.Halt what happens otherwise
--   Recovery.*   backend/app/execution/recovery.py
--     the gate on trading; Resolve, Steps and Startup (the startup sequence), Decision (by which pass a
--     recovery decides), Ready (when trading is permitted after any calls), Halt (what is reported of
--     the kill switch)
--   Base, Errors, Double are shared: native numbers and texts, exceptions, and floats.
--
-- How the model corresponds to the code. A coroutine is a function of the state behind the
-- interfaces that returns a value or an exception with the next state; each call that changes the
-- store or the broker is noted in a log, with whether it returned. A call that raises may have had
-- its effect all the same. An `await` hands over to no other task: one coroutine runs at a time, and
-- several runs are a list of operations. A record is a value: a method that changes one returns the
-- new one, and the manager passes it on where the code goes on with the same object. Only the audit
-- journal, whose sinks may keep the object that it still changes, has addresses for its records.
--
-- What the interfaces are. The order store, the broker, the kill-switch client, the eligibility gate,
-- SHA-256 and the Redis client are fields of Env, KillStore or RedisClient, with no assumption but
-- those that a statement names.
-- Double is the arithmetic of Python floats, without laws; Units is a toy instance for runs.
--
-- Rows of the reconciliation are dicts with values of any type, so that a missing key, `None` or a text
-- where a number is expected is treated as the code treats it, and the float of an int, which fails
-- beyond a float's range, may raise; a local store and a broker are a Source
-- of four reads that may raise. Recovery takes what it calls as Surroundings, in the state of a world
-- that may change between two calls of the manager in any way. A set of keys, which has no order in
-- Python, is taken in the order of the broker's dict.
--
-- What is left out, and why. Time stamps: nothing reads them. Log lines: no effect on the order. The
-- messages of exceptions leave out the numbers that they quote, and the class name before a quoted
-- error. In the order path an int that meets a float is within its range. `strip`, `upper` and
-- `lower` act on ASCII, as do the texts of exchanges, statuses and sides. The JSON text of a record is the dict that it
-- encodes. The costs that handle_fill puts into the stored fill are left out of it. Arguments have their declared types, so the tests for other types
-- do not arise. The deadline of monitor_order is the number of further polls that it leaves time for.
-- The cancellations that emergency_flatten_all starts at once run one after the other.
-- A Redis value is what its JSON text encodes, and keys that expire are the client's affair. The file
-- sink of the audit journal and the other files of the execution package are not modelled.
--
-- Recursion is structural throughout; monitor_order recurs on its number of polls, which is its
-- deadline and no bound of the model's own.
pub mod Base
pub mod Errors
pub mod Double
pub mod Lifecycle
pub mod Safety
pub mod Orders
pub mod Audit
pub mod Reconcile
pub mod Recovery
mod Tests
