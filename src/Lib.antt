-- ===== src/Lib.antt =====
-- Blackboardx: agents that share one board through a store, told of what they subscribe to by a
-- control component. The code is the Python package `blackboard` under src/blackboard/.
--
-- - Prelude, with Prelude/Tests, Prelude/Lists and Prelude/Texts: the libraries' names passed on,
--   Boolean tests, lists measured by native numbers, `sorted` and slices. Dict: a Python `dict` as a
--   list of entries in insertion order. Errors: the exceptions, and a call that may raise as `Result`.
-- - Json: `_as_json` of _board.py, the round trip of content through JSON.
-- - Board and its children: the data of _board.py (`_BoardState`, `_RunState`, `_AgentProgress` and
--   the records that operations answer with) and each operation of `InMemoryStore` on one board:
--   Board/Write (`declare`, `append`, `set`, `_already_written`, `_enqueue`), Board/Read, Board/Run,
--   Board/Agents and Board/Outbox. Board/Outcomes, Board/Aside and Board/Log hold their lemmas.
-- - Store: `InMemoryStore` itself, many boards in one dictionary. Store/Calls has its calls as data,
--   and runs of calls by many processes; each call is one step, as the store's lock makes it. The
--   other children are named for what they prove.
-- - Control and its children: `Control` of _control.py. `World` is one process: the fields of
--   `Control`, the store behind it, and the calls armed on its clock (`ManualClock` of _clock.py).
--   Control/Clock, Roster, Closing, Dispatch, Tail, Deliver, Admit, Write, Register, Openings, Answer
--   and Relay define its methods, and Advance `ManualClock.advance`, each file's comment with their
--   names; `App` has the application's callables as parameters. Control/Frame, Landing, Ends, Acts,
--   Told, Agreement, Notified and Passed hold what is proved of them. Control/Acts has a process's
--   life as a list of calls, its application's, its clock's and what other processes do to the store
--   between them.
-- - Sweep: `close_expired` and `relay_unsent` of _control.py; Sweep/Closes is about what it does to
--   one board.
-- - Wire and its children: the bodies of wire.py (`_Body` and its classes, in Wire/Bodies) and its
--   operations with their paths (Wire/Paths, with `_match` of server.py). Wire/RoundTrip, Pages and
--   Routes hold what is proved of them.
-- - Service and its children: `BoardService` of server.py over the runs that one process holds and the
--   store they share. Service/Queries has the bounds of reads, Answers the responses, Handlers a
--   function for each operation, Routing `handle` down to `_act`. Service/Matching and Routed are
--   about paths. `Library` has the functions of Python's library that the code calls, and `IsLawful`
--   what it relies on of them.
-- - Client and its children: `BoardClient` of agent.py. Client/Requests builds calls, Readings reads
--   answers, Client sends, Reads has the methods. Client/Answered, Faults, Bounds, Rising and Followed
--   are about the client; Reached, Wired, Sent, Served, Refused, Written and Premised put it over
--   the service, by a transport that is a parameter, down to the run and the store.
-- - Delivery: `_Lane` of delivery.py, its queue and its worker, and the moves of the threads that
--   share it; Delivery/Kept, Closed and Whole are about where its notifications are,
--   Delivery/Bounds about how often one is sent.
-- - Model: `create_model` and `attach_model` of _model.py with their checks, over `Control`;
--   Model/Agrees is about the checks, Model/Fails about a creation that fails.
--
-- Bounds: two definitions take fuel, the loop of `advance`, whose turns have none, since a fired
-- call may arm another that is due, and the loop `follow` that reads a blackboard's pages, since
-- nothing in the client stops it where the blackboard always says that there is more; over the
-- service one turn for each entry, and one, are enough. Every other loop of the modelled code runs
-- over a list, or over the attempts left. Sequences, versions, instants (in microseconds) and
-- generations are natural numbers, as Python's integers have no width; `_TAIL` is 1000. A
-- frozenset of names is a list of its names. A store's call is one step, as its lock makes it. A
-- method of `Control` is one step too, its critical sections and what it does between them, but
-- for a write: Control/Acts has its second section also as a step of its own, which other acts of
-- the process may come before. No thread comes between the closing of a run and the telling of it.
-- A callback returns or raises but makes no call of its own: its calls are acts of their own. A
-- message's fixed words are not modelled.
--
-- Not modelled: the database stores (_sqlite.py, _postgres.py, _mongodb.py, _schema.py,
-- _retrying.py), which hand the same contract to a database; tools.py, conformance.py; of
-- _control.py the thread of `Sweep`, `wait_closed` and the reader handles; `SystemClock`; of
-- agent.py `AsyncBoardClient`, which is `BoardClient` with `await`, and the joining of the base
-- address; of delivery.py the closing of many lanes within one deadline and `HttpxTransport`. A
-- response's body reaches the client as the service built it. The test that an agent names
-- `notify` or an address, which raises where it is declared, is not modelled. A body's field of
-- another type than its annotation is met by the code when it is used: here it ends as `untyped`.
-- A template is kept as its segments.
pub mod Prelude
pub mod Dict
pub mod Errors
pub mod Json
pub mod Board
pub mod Store
pub mod Control
pub mod Sweep
pub mod Wire
pub mod Service
pub mod Client
pub mod Delivery
pub mod Model
