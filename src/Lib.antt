-- ===== src/Lib.antt =====
-- Verification library of BattleBelief, a bot that plays Pokemon battles on a Showdown server.
--
-- The program. packages/battlebelief-core holds the domain: the state that is observed of a battle,
-- the events, the reducer that takes the state from event to event, requests and submissions, the
-- policy that selects a submission, the gate that lets it pass, the reconciler that compares a
-- private request with the public state, and the decision records. packages/battlebelief-runtime
-- runs it: `BattleSession` reads the lines of a room, reduces the events, holds the latest request
-- until the public state agrees with it, asks the policy, sends the command, and records the
-- decision. packages/battlebelief-lab measures, tools/ builds.
--
-- The files. Paths are below src/battlebelief_core of battlebelief-core unless said otherwise.
--   Base           helpers: Python's `==`, `in`, texts, lists, integers and code that may raise
--   Errors         errors.py; an error message is a constructor with the values it shows
--   State          domain/state and the record of domain/events/evidence.py: `ObservedState`, ...
--   Events         domain/events: one constructor for each event class, grouped by module
--   Reducer        application/observation/reducer.py: Lookup, Boosts, Conditions and Switching have
--                  the private helpers, Handlers and Reduce the branches of `reduce`; the other
--                  children prove that `reduce` keeps a state valid
--   Actions        domain/actions, application/decision/heuristic_policy.py and
--                  application/safety/action_gate.py
--   Reconciler     application/safety/request_reconciler.py; `reconcile` is split where the code
--                  has blocks, and a reason text is a constructor
--   Failures       what the adapters and the session raise, of battlebelief-runtime
--   Parser         adapters/showdown_protocol/parser.py and wire_types.py of battlebelief-runtime:
--                  Words has the texts of Python, Idents the helpers, Metadata, Pokemon, Boosts and
--                  Effects the handlers, Lines the dispatch on the wire type
--   RequestReader  adapters/showdown_protocol/request_reader.py of battlebelief-runtime: JsonValues
--                  has the values of `json.loads` and the helpers, Side and Active the parts of a
--                  payload, Submissions and Reader the readers of the kinds of request
--   Session        composition/battle_session.py and adapters/showdown_protocol of
--                  battlebelief-runtime, and domain/records. Records has the statuses of a record and
--                  the checks that tie them to a selection, Fields the checks of its index, its
--                  identity, its digests and its arm, Model the attributes of `BattleSession` as a
--                  record, Frames, Classifier and Encoder the decoder and the classifier of lines
--                  and the encoder of commands, Steps its methods. A method returns or raises, and
--                  either way gives the session as it has left it (`Ran`). Its lines are read by
--                  the Parser, its requests by the RequestReader.
--   Pools          evaluation/pool_partitioning.py of battlebelief-lab
--   Scenarios      concrete requests, states and sessions; a session that sends in Sent, lines and
--                  payloads in Protocol, assignments of clusters in Pools
--
-- Choices. Integers that the code reads from the wire are ℤ, since `int(...)` may be negative; ids
-- of requests, slots and counters are ℕ, so a negative slot is not represented. `int(...)` refuses
-- more than 4300 digits. Digits, letters, spaces and lower case are those of ASCII. The code
-- compares with `is` where it replaces a pokemon; the model replaces by position, which is the same
-- since a tuple holds each view once. Recursion is structural, over the events, the lines of the
-- connection, a list or a text; `permutations` runs on the length of its list, and the digits of a
-- number are written on fuel, its successor, which is enough since a quotient by ten is smaller.
-- `await` is a call: the session handles one line at a time. `json.loads`, the digests, the policy,
-- the connection and the sink are functions of the environment of a session, arbitrary ones, so
-- what is stated of sessions holds for all of them, but where a condition on the digests is named;
-- a connection and a sink see what they took before. `json.loads` gives a value, or raises a
-- `JSONDecodeError`, which makes a request malformed, or raises another exception, which goes on.
-- The digests of a state and of a set of submissions may raise, as they do on an integer above
-- 2^53 - 1, and the session then ends with that exception; that the identity of a set is public is
-- checked by the model.
--
-- Not modelled: `json.loads`, sha256 and, with it, the projections that are hashed, which are
-- parameters; the coordinator, the search values, engine capabilities, canonical JSON, and of the
-- records the payload and the checks of a context and its binding; network, command line and
-- files; the adapters of poke-engine; the lab, but for the pools; and the tools. Of the pools, the
-- digest of a partition is left out.
pub mod Base
pub mod Errors
pub mod State
pub mod Events
pub mod Reducer
pub mod Actions
pub mod Reconciler
pub mod Failures
pub mod Parser
pub mod RequestReader
pub mod Session
pub mod Pools
mod Scenarios
