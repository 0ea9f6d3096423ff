-- ===== src/Lib.antt =====
-- xray-routing-panel: a model of the control plane's state services, with the theorems that make
-- them correct.
--
-- The program keeps its state in one SQLite database, in the files of the Xray runtime directory and
-- in two Xray processes. Services, workers and scripts work on it.
--   * Failover, app/state/dns_failover.py with app/dns_failover.py and app/runtime/dns_failover.py:
--     a worker probes the data plane and moves a DNS record between two addresses. Peak has the
--     peak window, Config the configuration and what is derived from it, State the state row
--     and the event history, Transition the decision, Service the check, the switch and the worker.
--   * Traffic, app/state/traffic.py: the totals and the daily rows of each port, from the access log
--     and from the byte counters. Sync has the place in the log and the order of the updates.
--   * Ports, app/state/ports.py with status_payload and port_is_expired of app/helpers.py: Operations
--     has the mutations of a port, Status the status shown.
--   * Apply, app/xray/apply.py: which ports run, the apply (Persist: render, test, restart, commit, or
--     the rollback), and apply_mutation (Mutation), which every change of a port goes through: traffic
--     is synchronized and committed, the operation runs, ports past their bounds are stopped, and the
--     result is applied.
--   * Commerce, app/state/commerce.py: Orders has the creation and the reviews of an order, Payment
--     the proofs, Allocation the choice of a port, Fulfilment fulfill_order, Lifecycle the steps of an
--     order's status and (Runs) sequences of calls, each in its transaction.
--   * Routing, app/xray/ai_routing and app/state/ai_routing.py: the upstream of the AI traffic.
--     Endpoints parses the texts host:port, Candidates builds the list of upstreams without
--     repetition, Selector probes them and chooses, Domains is the store of the classified domains,
--     Manager decides the route and applies it in cycles, Manual is the mode that an operator sets.
--   * Recovery, scripts/node_recovery.py: Paths has the safe relative paths, Collected and Local the
--     files of a node, Manifest builds the recovery manifest of a backup, Bundle validates a backup,
--     Prepare writes a node's folder from it.
--   * Sessions, app/auth: the administrator, a tenant or a customer as the one login of a session.
--   * Reporter, components/xray_ops/rules.py: the counters with their resets, the intervals of
--     samples, the statuses.
--   * Settings, app/config/parsers.py: the numbers, switches and times of day of the environment.
--
-- Correspondence. Database has the tables as lists of rows in the order of their keys, with the next
-- key of each AUTOINCREMENT table, and the transaction of app/storage/sqlite.py. A method that
-- runs in a transaction is an `Exec Db A`: it takes the tables and gives a result or the exception,
-- with the tables as it left them; `transaction` and the rollback of the apply take them back. A
-- definition has the name of its method, less suffixes like _in_tx where nothing else has the name.
-- UPDATE, DELETE and SELECT with a WHERE are `update`, `select` and `find` over rows. UNIQUE indexes
-- are tests before the write that raise an IntegrityError.
--
-- What the code reads of the world is an argument: clocks, random texts, lookups of addresses, the
-- answers of the DNS provider, of the renderer, of the configuration test, of the two processes and of
-- the watcher that reloads the data plane, whether a file could be written, and whether a run of the AI
-- domain manager returned. There is a record for each call (Reading, SwitchReading, CheckReading,
-- TrafficReading, Draws, OrderReading, ProofReading, World, MutationWorld, ManualWorld). A clock that
-- one call reads several times is read once, except
-- where StopClocks and the apply's `now` keep the readings apart. So are the code's calls of the
-- standard library: the case tables (`lower`), urlparse, json.dumps, SHA-256, tar, readers of JSON.
--
-- Numbers and bounds. Times are seconds since the epoch: the program stores ISO texts of one form in
-- UTC, which order alike; the reporter's samples have times in whole milliseconds. Python's integers
-- are unbounded, so there is no wrap-around. The subtractions of the peak window are taken modulo a
-- day, with a day added first. The history keeps 500 entries. The draws of tokens, user names and
-- order numbers end after 16 tries, as in the code, and the search for a free port after the length of
-- the range; a write that meets a lock is tried 4 times, as in the code. Nothing else in the model has
-- a fuel.
--
-- Not modelled: the web layer, the configuration renderer, node control, subscriptions, logging; of
-- the AI routing the domain classifier, the artifacts it writes and its snapshots; of the operations
-- reporter all but its rules, of the scripts all but the node recovery; the parsing of a log line,
-- which is a parameter of Traffic.Sync; plans, customers, forms and the queries that only display;
-- schema migrations.
mod Prelude
pub mod Database
pub mod Failover
pub mod Traffic
pub mod Ports
pub mod Routing
pub mod Recovery
pub mod Sessions
pub mod Reporter
pub mod Apply
pub mod Commerce
pub mod Tests
pub mod Settings
