-- ===== src/Lib.antt =====
-- SPECTRE runs a reference and a candidate implementation of a service side by side, compares what
-- they do, and quarantines the candidate when they differ. A mirror is one such pair. Its proxies
-- admit candidate work (internal/proxy) and pair each request of the candidate with one of the
-- reference (internal/protocol): at ingress by request ID, to compare the responses, and at egress
-- by the hash of the request, to replay the reference's response to the candidate. The payloads are
-- compared (internal/comparison) as a schema declares them (internal/schema), under the rules and
-- for the endpoints that scripts declare (internal/httpserver/route), and the candidate is stopped
-- at the first difference. A mirror streams its state, its quarantines and its call counts to a
-- server (internal/server), whose messages stand for the data model (internal/model) and whose
-- store keeps states and divergences.
--
-- Which file models which part, with the functions of the source in snake case:
--   Prelude: names shared by all, native lists, equality tests, maps as association lists, results.
--   Model: internal/model, one file for each of traffic, differences, quarantines, states (with call
--     counts and updates) and divergences (with filters).
--   Schema: internal/schema/schema.go. Construct is `New`, with Closed and Mild on the schemas that
--     it returns. Validate is `Validate`; Validate/Instance says what an instance of a type is, and
--     Validate/Complete that the instances are what passes.
--   Proxy: internal/proxy. Candidates is candidates.go (admit, start, finish, quarantine, close,
--     cancel), Budget is budget.go, Calls is calls.go.
--   Future: internal/future/future.go.
--   Protocol: internal/protocol. Arrivals, Queues, Exchanges and Egress are egress.go, Responses is
--     the comparison of two responses in ingress.go with types.go, Ingress is the pairs of
--     ingress.go and Ingress/Handlers what the handlers do around them.
--   Route: internal/httpserver/route/matcher.go.
--   Comparison: internal/comparison/internal. Json is the decoded values, Path the paths and
--     Document the edits of document.go, Differ the traversal of diff.go, Compare its entry with the
--     merge of list indexes. Rules is internal/comparison/javascript/rule.go, and Rules/Selection
--     `SelectRule` of internal/comparison/scripts.go.
--   Server/Storage: internal/server/storage. Memory is memory.go; what its backends share is
--     storage.go.
--   Server/Wire: internal/server/wire/wire.go. Enums are the enumerations, Reasons the quarantines,
--     Messages the rest.
--   Server/Service: internal/server/service.go, and Filter is filter.go.
--   Migration: internal/state/state.go, with Unreached and the checks of dependencies. Cycles
--     is `checkCycles`.
--   Server/Reporter: internal/server/reporter/reporter.go. Streams says what the server restores
--     from the messages of a mirror on the wire, Backoff how long a mirror waits before it opens
--     the next stream.
-- The files below each of these hold its lemmas, and its Tests the runs at concrete inputs.
--
-- How code is written as definitions. A struct is a record, and a method is a function that takes
-- the receiver and returns it changed. What runs under one lock is one step, and an interleaving is
-- a sequence of steps: `Reach` of Proxy/Candidates/Steps, of Server/Service/Steps and of the
-- Steps of Protocol/Egress and Protocol/Ingress. A pointer that is shared is a place in a list of
-- all that were made. A Go string is the list of its bytes, a time a number of nanoseconds, a
-- uint64 wraps at 2 ^ 64, and a map is a list of entries, whose order stands for the order of
-- iteration. A panic and a blocked send are outcomes of their own. An error keeps its cause rather
-- than its text.
--
-- Fuel. `diff` and `validate_from` go one level down into a payload with each call, so that the
-- depth of the reference, or of the payload, plus one is enough: `collect` gives `diff` that much,
-- and `validate` is given any number above the depth. The walk of `Unreached` takes one ID from its
-- queue a round, and each node adds its dependencies once: the length of the first queue and the
-- number of all dependencies are enough. `check_cycles` goes one node deeper with each call, and no
-- node twice: the number of nodes plus two is enough. `search` halves its interval, for which its
-- width, the length of the queue, is enough. All else is structural.
--
-- Parameters stand for code outside the repository: `strconv.Quote` (`quote` in Comparison, and
-- `Quoting`, with the parser that undoes it, in Server/Storage), the weighted semaphore of
-- golang.org/x/sync in Proxy/Budget, the JavaScript engine (`Evaluation` in Comparison/Rules, whose
-- functions leave another state of the runtime behind), the patterns of net/http (`Mux` in Route)
-- and the text of wrapped errors in Protocol/Responses. `Store` of Server/Service is the source's
-- own interface, which the memory backend fills; `Scripts` of Protocol/Responses is what the engine
-- asks of the scripts. The steps of Protocol/Ingress take as `is_reference` which of the two
-- acceptors was given an exchange, since each reports only its own.
--
-- Not modelled: the normalisation of payloads before they are compared (run.go, plan.go, target.go
-- and traverse.go), which evaluates normalisers in JavaScript; the Redis backend and the client of
-- the server; the parsers and renderers of schemas and of migration states, and the check of unique
-- settings in the latter; the start of the protocol engine from its configuration; the HTTP proxies
-- and the lifecycle of a mirror; and the processes, sandboxes, logging and command line around
-- them.
pub mod Prelude
pub mod Model
pub mod Schema
pub mod Proxy
pub mod Server
pub mod Comparison
pub mod Migration
pub mod Future
pub mod Protocol
pub mod Route
