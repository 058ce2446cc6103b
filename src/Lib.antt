-- ===== src/Lib.antt =====
-- The verification library of article-sentinel, the inspection of articles for keywords.
--
-- The program takes tasks over HTTP, writes each with an outbox message in one transaction, relays the
-- messages to a queue, and runs the tasks in workers: these page through the articles, scan them for
-- the keywords of the task and write results, on which operators then act. The parts and their files:
--
-- Base      lists, tests and tables. A table is the list of its rows in the order of the primary key;
--           Base/Rows has the statements that GORM issues on it, Base/RowLaws their laws.
-- Text      Go's strings as lists of bytes, with the functions of package strings that the program
--           calls. Case beyond ASCII is a parameter, the record `Unicode`.
-- Domain    internal/modules/articleinspect/domain/constants.go, a child module for each group.
-- Model     internal/modules/articleinspect/domain/model_inspection.go, a record for each table.
-- Outbox    internal/modules/articleinspect/outbox. Codec, Statements, Relay, Pending and Cleanup follow
--           codec.go, relay.go and cleanup.go: `DispatchMessage` is `dispatch_message`, `claimMessage` is
--           `claim_message`, `markDispatched`, `scheduleRetry` and `moveToDeadLetter` are `update_message`
--           with `set_dispatched`, `set_retry` and `set_dead_letter`. The state is the table and what the
--           dispatcher has accepted; the clock, JSON, the dispatcher's answers and the statements that the
--           database refuses are the record `Env`. Row is the specification, a table of decisions for one
--           row. System is a step relation for any number of relays over one table and one clock, each of
--           which reads the clock once, before its claim; Consistent and Once are its invariant. Drain is
--           about a pass that all due rows fit in.
-- Scan      internal/modules/articleinspect/scan/scanner.go. Slices out of range are the outcome
--           `panicked`. The loop of `containsHits` runs on fuel, of which the length of the field and two
--           suffice; regular expressions are a parameter.
-- Articles  internal/modules/articleinspect/articles/repository.go and repository_candidates.go. SQL's
--           LIKE is a parameter.
-- Worker    internal/modules/articleinspect/worker/executor.go and rules.go. `ExecuteTask` is
--           `execute_task` in Worker/Execute, whose paging loop runs on fuel; one more than there are
--           articles of the task suffices.
-- Tasks     internal/modules/articleinspect/tasks/service.go: `CreateWithOutbox` and `Delete`.
-- Audit     internal/modules/articleinspect/audit/writer.go and shared/operator.go.
-- Lifecycle internal/modules/articleinspect/lifecycle/service.go and diff.go.
-- Actions   internal/modules/articleinspect/actions/service.go and repository.go.
-- Paging    internal/modules/articleinspect/shared/paging.go and the pages of a query, whose offset wraps
--           at 64 bits.
-- Rules     internal/modules/articleinspect/rules. Normalize is validator_keywords.go, Keywords
--           repository_keywords.go, KeywordService service_keywords.go and snapshot.go, Categories the
--           repository and the service of categories. The state is the tables; the collation, LIKE, the
--           operator and what the server stores of a column with a default are the record `Env`. View
--           has the look-up that a read amounts to, Changes what each change makes of the tables, Sound
--           and Preserve the invariant.
-- Auth      internal/identity/admin_session.go and admin_session_token.go; Auth/Codes and Auth/Login are
--           internal/api/handlers/auth.go with SessionContext of internal/middleware/session.go, and
--           Auth/ClientIp is the address of the client in internal/middleware/auth.go. Signing, JSON,
--           random codes and the package net are parameters. An operation of the store of codes holds
--           its mutex, so that it is one step.
--
-- Times and durations are natural numbers, and so are the 64-bit ids and counters, which only grow by
-- one and stay far below their bounds; state numbers are natural numbers below 128. The columns that
-- GORM maintains itself are left out. A column for a time keeps whole seconds: the times of the outbox
-- are rounded as they are stored. A transaction is one step: a statement that is refused undoes it.
-- `RowsAffected` of an update counts the rows that it changes. For keywords and categories that is
-- written out, with `update_at`, which keeps whole seconds, as a parameter; the other updates whose
-- number the code reads change the status of a row or, with a lease of a second or more, the end of
-- its lease, so that they change each row that they match. What GORM stores of a Boolean column with
-- a default is a parameter.
-- A statement that the database may refuse is an optional error in an environment record, so that
-- every branch of the source is a branch of the definitions. JSON, decimal numbers and the wording of
-- times are parameters, as is `ErrRecordNotFound` against other errors, which are different outcomes.
--
-- Not modelled: the HTTP routes and transports, the authentication by headers and roles, configuration,
-- the scheduler and the queue's client, which are glue over libraries; the queries of results, of the
-- audit and of the article centre, with the lists of the task service; logging; the front end.
pub mod Base
pub mod Text
pub mod Domain
pub mod Outbox
pub mod Scan
pub mod Articles
pub mod Model
pub mod Worker
pub mod Audit
pub mod Lifecycle
pub mod Actions
pub mod Tasks
pub mod Paging
pub mod Rules
pub mod Auth
