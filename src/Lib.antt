-- ===== src/Lib.antt =====
-- Arodonata: verification of the core of the Python package of src/arodonata, a client library for Check
-- Point management servers. The package speaks to a server's web API through a limiter of
-- concurrent requests, waits for the server's tasks, guards cross-process work by rows of a
-- database table, and plans and applies declarative changes. Each part below is modelled on its
-- own, as the functions and the state of the source.
--
-- * Locks follows src/arodonata/adapters/storage/lock_adapter.py. A table is a list of rows; a
--   transaction is a function of the time and the table; `retry` is the loop around a transaction;
--   `acquire` is the loop around attempts, between which other workers may change the table. A method's
--   call is a sequence of transactions, and the interleaving of workers is a list of transactions.
-- * Limiter follows src/arodonata/adapters/checkpoint/rate_limiter.py: the slot queue of one server as a
--   record, and the event loop's interleavings as a step relation; Limiter/Gate is `LoginGate`, from
--   where its locks are held to where the login is let through.
-- * Tasks follows src/arodonata/adapters/checkpoint/task_waiter.py: the loop of `wait_for_tasks` over the
--   rounds that the outside world makes, each with the time that passes and what the poll gives.
-- * Numbering follows src/arodonata/rulebase/numbering.py, `number_layer_rulebase`: the rules of a layer with
--   those of the layers below them are a forest, and a number like 2.1.3 is the list of its parts.
--   Numbering/Packages is `number_package_rulebase`, which numbers the layers of a policy package,
--   and Numbering/Policies is `extract_policy_packages`, which groups the layers of a snapshot.
-- * Pager follows src/arodonata/adapters/checkpoint/pager.py: a round of a pass is a function of what is
--   collected so far and of the server, which answers by the number of the call, offset and limit.
-- * Inverse follows src/arodonata/cpcrud/inverse.py: an operation is the list of the fields of its
--   dictionary, and a plan's actions are grouped by domain and inverted from the last to the first.
-- * Matching follows src/arodonata/cpcrud/rule_identity.py and src/arodonata/cpcrud/position_helper.py: the four
--   types of rules are one record with a kind, and the name maps are dictionaries.
-- * Differ follows src/arodonata/cpcrud/differ.py, where it compares members and metadata: a change is the
--   entry of the update payload, if there is one.
-- * Guard follows src/arodonata/mcp/security.py: the checks that a request passes before it reaches the MCP
--   server; the digest of tokens is a parameter.
-- * Executor follows src/arodonata/cpcrud/executor.py, `_stream_single_pass`: a pass adds its requests to the
--   history of requests, by which the server answers each, with an answer, an exception, the error of a
--   server's identity or a cancellation; the outcome is a report or what is raised, with the history.
-- * Topology follows src/arodonata/core/services/topology_service.py, where it decides which gateways are
--   between two endpoints: Topology/Effective applies the annotations, Topology/Scores weighs the
--   evidence for an interface, Topology/Locate finds the interfaces behind which an endpoint is, and
--   Topology/Flows pairs them. An address is its number, and Topology/Addresses parses texts to them.
-- * Common has the shared names, lists over the native numbers, Python's text methods, and the JSON
--   values of the API.
--
-- Times and durations are whole milliseconds, where the source has floating-point seconds. Texts are
-- ASCII where they are stripped or lowered. A loop without a bound of its own runs on fuel, and a
-- theorem states how much is enough: for `acquire` with a poll interval of a millisecond at least, one
-- more round than its timeout has milliseconds, since each of its sleeps takes one at least; likewise
-- for `wait_for_tasks`. A pass of
-- the pager moves its offset in every round, so that the total bounds its rounds; `number_layer` nests
-- once for each layer that is not visited yet. The paths in the other files' comments are below
-- src/arodonata.
--
-- Python's `str` of a value that is not a text, and its `int` of a text, are parameters.
--
-- Of the executor the events, the overlay of a session, the registry of staged sessions, the retries and
-- the later publication of what was staged are not modelled.
--
-- Not modelled: logging, tracing, the texts of error messages, TLS, the HTTP transport, SQL itself,
-- and the components of the package that no file names.
pub mod Common
pub mod Locks
pub mod Limiter
pub mod Tasks
pub mod Numbering
pub mod Pager
pub mod Inverse
pub mod Matching
pub mod Differ
pub mod Guard
pub mod Topology
pub mod Executor
