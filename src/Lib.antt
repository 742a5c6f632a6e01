-- ===== src/Lib.antt =====
-- CronMon: a monitor for scheduled jobs. A job pings an HTTP endpoint; a scheduler takes checks
-- down whose pings are late; alerts go through a channel to a worker that delivers and records
-- them.
--
-- Parts and files (paths from the repository's root):
--
-- - Time, Model, Schedule: internal/model/model.go and internal/schedule/schedule.go. A time is
--   its nanoseconds since the Unix epoch, a duration an int64 that wraps. The cron library is the
--   record `Cron`, with what it documents of Next as `IsCron`.
-- - Table, Cache: internal/cache/check_cache.go. A Go map is an association list. Each method
--   holds the mutex throughout and is one function on the cache and the database behind it.
--   `CheckStore` is what the cache relies on of a repository, and `Coherent` that the cache is
--   what the rows read back as.
-- - Repository, Sqlite: internal/repository and internal/db/migrations/001_initial.sql. A query
--   takes the tables to a result and the tables afterwards; constraints, cascades and the order of
--   results are those of the schema and the SQL. `faults` says which statements fail in the
--   driver. A DATETIME text is given by its instant in seconds. `Sqlite.Store` fills `CheckStore`.
-- - Alerts: the buffered channel of main.go and its non-blocking senders, of capacity 64.
-- - World: what the goroutines share, the cache, the database behind it and the alert channel.
-- - Scheduler: internal/scheduler/scheduler.go, the evaluation pass, the cleanup and the loop of
--   run.
-- - Net, Strconv, Http: what the code uses of Go's net, strconv and net/http.
-- - Notify: internal/netutil/ip.go and internal/notify. Notify.Email has the text of a mail, its
--   header, and sendSMTP as the list of the calls that it makes, each of which may fail;
--   Notify.Posting, Slack and Webhook have the payloads as the fields that json.Marshal gets, and
--   the request over the client of Notify.Client, whose dialer is that of Notify.Ssrf.
-- - Migrations: internal/db/db.go, with what the SQL of a file does as a parameter.
-- - Main: main.go. Main.Notifiers are those that it registers; Main.Mux is the matching of
--   http.ServeMux, Main.Routes the patterns of buildMux with the authentication and the method
--   override in front of them, and Main.Serve each route with its handler. Main.Program is main
--   and run, from the configuration and the database to the shutdown; a life of the process has
--   the order in which its goroutines take turns.
-- - Handler: internal/handler/ping.go, check.go, channel.go and dashboard.go. A handler takes the
--   request and the shared state to the response and the state. Fresh UUIDs and the clock are
--   arguments.
-- - Middleware: internal/middleware. Config: internal/config/config.go.
-- - System: main.go, the program as a sequence of events over the shared state: pings, the
--   scheduler's passes, edits of checks and channels, pages and deliveries. System.Draining is the
--   worker after the alert channel was closed, and System.Liveness the way of an overdue check to
--   its alert.
-- - Tests: concrete inputs at which the theorems apply.
--
-- The events of System are whole requests, passes and deliveries. The handlers of pings and edits
-- read a check and write it back in two steps under the lock: System.Interleaved has these steps
-- one by one, with those of other goroutines between them, and Handler/Ping/Race a pass that takes
-- down the check that a ping has read. Loops run over a list, but for the worker's after the
-- channel is closed: it has fuel for one round more than the channel's capacity, 65 in main.go,
-- and System.Draining shows that this is enough.
--
-- Not modelled: log output but for the request log, tickers, timeouts and the cancellation of
-- contexts; the templates of the dashboard and their functions, which print durations by way of
-- float64, and the static files; a .env file that cannot be parsed; a handler that is still
-- running when the alert channel is closed. crypto/sha256, encoding/json, net/mail, net/url,
-- net.ParseIP, net/smtp, the client of net/http, how http.ServeMux takes escapes from a path, the
-- SQL driver, SQLite's execution of a migration, and how numbers, times and encoded words are
-- printed are parameters. Text is a list of code points.
pub mod Base
pub mod Time
pub mod Model
pub mod Schedule
pub mod Table
pub mod Repository
pub mod Cache
pub mod Sqlite
pub mod Net
pub mod Strconv
pub mod Http
pub mod Main
pub mod Migrations
pub mod Alerts
pub mod World
pub mod Scheduler
pub mod Notify
pub mod Handler
pub mod Middleware
pub mod Config
pub mod System
pub mod Tests
