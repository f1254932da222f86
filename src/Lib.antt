-- ===== src/Lib.antt =====
-- A model of the core of dataOpsStudio, a workbench that runs database work as jobs and keeps
-- interactive SQL consoles open, and proofs about it.
--
-- The parts and the files that model them:
--
-- - Broker/State.antt: app/broker/state.py, the transition tables of console sessions and
--   statements, with the enumerations of app/domain/console_session.py. `transition_session` and
--   `transition_statement` are the functions of that name; `run_session` and `run_statement` apply
--   them along a list of targets.
-- - Broker/Store.antt and Broker/Store/: app/broker/store.py, the persistence of sessions and
--   statements. Store/Memory.antt is `MemoryBrokerStore`, its three dictionaries and its event
--   list as one record that each operation takes and returns; Store/Postgres.antt is
--   `PostgresBrokerStore` over its tables as lists of rows, with the partial unique indexes and
--   the primary keys that the operations rely on. Where an operation raises inside its
--   transaction, the model returns the error and no tables, since the transaction is undone.
-- - Broker/Core.antt and Broker/Core/: app/broker/core.py, the owner of the interactive sessions.
--   Op.antt is state passing with exceptions that keep the changes made before; the parts of
--   `SessionBroker` that hold its lock are steps of it: Changes.antt has the shared helpers,
--   Client.antt `submit`, `cancel` and `close`, Lane.antt the thread of a session, Control.antt the
--   answers of the control lane and the timer, Attach.antt `attach`, and Sessions.antt the calls that
--   find a session first. Calls.antt makes an interleaving a list of calls. Drain.antt is
--   `_drain_to_spool`, with the exceptions of the result store and of the stream. The store is a
--   record of operations, which the in-memory store fills; the connection, the control channel and
--   the result store answer through arguments, and what they are asked is a list.
-- - JobBackend.antt and JobBackend/: app/infrastructure/jobbackend/postgres.py, the queue that the
--   API fills and the workers drain. Queue.antt has one function for each operation, Reaper.antt
--   the recovery of jobs whose worker is gone. Calls.antt collects the operations that change a job
--   in one type `Call` with a function `step`, so that an interleaving of workers is a list of
--   calls: each operation of the source is one transaction. The rows that another transaction
--   holds, which SKIP LOCKED passes over, are an argument.
-- - Workflow.antt and Workflow/: app/domain/workflow_execution.py, the pure step that the worker and
--   the API both run over a workflow and the snapshots of its child jobs. Child.antt reads a child
--   job, Route.antt decides over edges and branches, Loop.antt is the loop over the nodes and
--   Plan.antt what follows it, in an order of the nodes that is an argument. Topology.antt is
--   `_topological_nodes`, which gives that order, and Validate.antt the checks of ids, edges and
--   routes that `WorkflowSpec` of app/domain/workflow.py makes. The evaluators of
--   app/domain/workflow_when.py and app/domain/workflow_interpolate.py are a record of operations.
-- - Compare.antt and Compare/: app/domain/compare.py, the comparison of two tables. Segments.antt
--   splits a range of keys (`_split_segment`), Rows.antt compares the rows of one segment
--   (`_row_map`, `_row_level_diff`), Hashdiff.antt is `recursive_hashdiff`, which skips segments with
--   equal fingerprints, and Static.antt the reader over rows at hand. Keys and cells are of any type;
--   the equality and the order of keys are a record of Keys.antt.
-- - Base.antt, Base/ and Sql.antt: dictionaries in insertion order, lists, results with exceptions,
--   JSON values, and the statements of SQL that the source issues.
--
-- The broker core calls the operations of the store under one lock, and the two stores are meant
-- to be exchangeable; the sweep at start-up is the part of the contract that the broker relies on
-- after a crash. The API and the workers share nothing but the table of the job queue, and the
-- plan of a workflow step is carried out by calls of it.
--
-- Times are natural numbers that the caller gives, whole numbers of a unit as fine as the
-- clock's (microseconds in the workflow step), and the clock stands still within a step; ids and
-- texts are strings. Most loops of the source that are modelled run over a finite list, and the
-- model recurs on the list. Three loops have fuel: Kahn's loop has as many rounds as there are
-- nodes, the splitting of a segment as many as the segment is wide, and the comparison takes its
-- fuel as an argument and ends with an error of the model's own when there is none left; the
-- first two are enough, and for the third any fuel beyond the depth limit. The order of rows
-- that SQL leaves open is the order of storage.
--
-- Not modelled: the threads of the broker, the connections and the result spool; the search for a
-- cycle and the evaluators of workflows; the normalisation of the values that are compared; lineage,
-- the database clients, the web API, the desktop shell and the front end.
pub mod Base
pub mod Sql
pub mod Keys
pub mod Broker
pub mod JobBackend
pub mod Workflow
pub mod Compare
