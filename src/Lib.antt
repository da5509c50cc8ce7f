-- ===== src/Lib.antt =====
-- Verification library of the achievement system backend: models of its parts in this type theory,
-- and proofs about them.
--
-- The program is a web server over PostgreSQL, Redis and an S3 store. A request passes the
-- authentication (src/middleware/auth.rs), which asks the access rules that administrators grant
-- (src/modules/admin/api_rule/service.rs), and then reaches a handler. Files of archive records are
-- uploaded under sessions with quotas in Redis (src/modules/archive/service.rs), and are deleted from
-- the store by background tasks: a handler submits a command to a durable outbox
-- (src/tasks/dispatcher.rs), a pump moves it to a bounded queue, a worker takes it from there
-- (src/tasks/manager.rs) and a handler runs it with retries and settles its row
-- (src/tasks/handler/default_handler.rs, src/tasks/handler/command_runner.rs).
--
-- Files and code:
--   Prelude, Effect      shared names and lemmas; actions that may fail and change a state, and the
--                        faults of a statement (it works, is refused, or its reply is lost)
--   Errors               the error type of the handlers, src/common/error.rs
--   Storage              the bulk deletions of src/utils/s3_storage.rs: `delete_objects_with_report`
--                        with its chunks and its report, and `delete_objects`; the S3 client is a parameter
--   Tasks                the types of src/tasks/models.rs and src/tasks/handler/executable.rs
--   Tasks.Runner         `run_executable_with_retry`; the command is a parameter
--   Tasks.DeleteObjects  src/tasks/handler/command/delete_archive_objects_command.rs
--   Tasks.Outbox         the methods of `TaskDispatcher`: Table has the state, the rows of
--                        `task_outbox` with the queue, the clock and the faults to come; Dispatcher has
--                        one function per method and per SQL statement; the rest are proofs
--   Tasks.Handler        `DefaultTaskHandler::handle`
--   Tasks.Worker         the loop of `add_command_worker_with_concurrency`, one event a round
--   Tasks.Reach          the steps of the server, the pump and the workers over one outbox
--   Access               src/domain/http_method.rs and src/domain/route_registry.rs, and the tables
--   Access.Pattern       the tests on paths, among them LIKE and RTRIM of the database
--   Access.Grants        src/modules/admin/api_rule/service.rs, and `get_user_effective_routes` of
--                        src/modules/user/service.rs
--   Access.Guard         src/middleware/auth.rs
--   Upload               the quota script and `check_file_validity` of src/modules/archive/service.rs
--   Json, Schema         JSON values; the file fields of a template's schema and its validation,
--                        src/domain/schema.rs; the JSON schema library is a parameter
--   Server               the state that the handlers share: the tables, the open transaction, the cache
--                        of contexts of src/utils/schema.rs, Redis, the store and the outbox
--   Templates            src/modules/admin/template/service.rs; Context has the cached contexts of
--                        src/modules/archive/service.rs, Handlers src/modules/admin/template/routes.rs
--   Archive              the keys of a record's files and `delete_files_by_object_keys` of
--                        src/modules/archive/service.rs; Files, Urls and Records have its files, links
--                        and statements, Handlers and Presigned src/modules/archive/routes.rs; the rest are
--                        proofs
--   Users                the administration of users and login: src/modules/admin/user/service.rs,
--                        src/modules/admin/user/routes.rs and src/modules/auth/service.rs
--   Cleanup              src/tasks/periodic/s3_cleanup.rs and the listing of src/utils/s3_storage.rs;
--                        AvatarKeys has the keys of avatars, Orphans and Kept what is left
--   Tests                the theorems at concrete inputs
--
-- State is passed explicitly: an action takes it and gives it back beside its result or its error, as
-- what was changed before an error stays changed. A table is a list of rows, a SQL statement a
-- function of it, `NOW()` a field of the state. Numbers are natural numbers; the two 64-bit counters
-- of the dispatcher wrap, a product of a duration and a factor beyond `Duration::MAX` panics, and
-- delays are cut at `i64::MAX` seconds, as in the source. Ids of rows and times are not bounded.
--
-- Fuel: the retry loop takes `max_retries + 1` rounds, and `slice.chunks` as many as there are
-- elements; that both are enough is proved. The listing of objects takes as many rounds as a parameter allows,
-- as the service decides how many pages there are. The other loops are structural.
--
-- A handler runs as one sequence of steps: the requests of others do not come between its statements.
-- A statement answers in the order of the table, where the database promises none; a time-out of a
-- recovery is a number of whole seconds.
--
-- Parameters are the S3 client, the JSON codec of a command, the JSON schema library, the ids that are
-- drawn, `Uuid::parse_str`, the hashing of passwords, the encoding and verification of a token, the text of an error and of a JSON value, the
-- URL encoding, the guess of a content type, `trim`, `to_uppercase`, `to_lowercase` and the extension of
-- a file name. What is relied on is a
-- hypothesis of the theorem, such as `Accounts` for the answers of the store.
--
-- Not modelled: avatars, the paged queries and responses, the interval tasks and the shutdown of the task manager, start-up and configuration. Logging has no
-- counterpart.
pub mod Prelude
pub mod Effect
pub mod Errors
pub mod Json
pub mod Schema
pub mod Storage
pub mod Tasks
pub mod Access
pub mod Upload
pub mod Archive
pub mod Server
pub mod Templates
pub mod Users
pub mod Cleanup
pub mod Tests
