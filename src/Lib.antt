-- ===== src/Lib.antt =====
-- Zero (zero/), a companion that lives in Telegram groups. This library models the parts of it that
-- keep state which must not go wrong, and proves what makes them correct.
--
-- Parts and files:
--   * Base and its children: texts by code points (Codes), signed integers (Ints), exceptions as
--     values (Results), tables of the database as lists of rows with SELECT, UPDATE and COUNT (Rows),
--     and their laws.
--   * Tenancy: zero/tenancy. Ids is the guard on owner identifiers, which the Office repository and
--     the proactive outbox repeat; Roles is models.py (the states of a group, permissions, scopes);
--     Registry, Quotas, Refunds and Settings are the class TenancyRegistry of registry.py, with the
--     proofs in Moves, Lifecycle, Spending, Refunds and Settings.
--   * Office: zero/office. Model is the schema of db.py; Transitions, Quota, Lease and Delivery are
--     the methods of OfficeRepository, under the names they have there; Ledger, Commands, Slots,
--     Once and Lost are proofs about them; Coordinator is DeliveryCoordinator of delivery.py.
--   * Proactive: zero/proactive_transport.py (Outbox), zero/proactive_policy.py (Policy), and
--     zero/proactive_scheduler.py (Selection, Scheduler, Retries), with the proofs in Attempts and Limits, and in
--     Fairness, Claims and Budget.
--   * Sessions: zero/sessions.py. Registry is SessionRegistry, Login is login_session, Adapter is
--     TelethonLoginAdapter.login; the proofs are in Sound, Methods, Active and Adapter.
--   * Templates: zero/template_jobs.py. Catalog is TEMPLATE_REGISTRY, Calendar and Schedule are
--     _next_run, Jobs,
--     Cron and Runs are TemplateJobService; the proofs are in Due, Approval and Grants.
--   * Router: zero/router.py. Keys is KeyState and KeyPool, Route and Complete are IndependentRouter,
--     Requests puts its calls together; Window is the
--     events of one pool; the proofs are in Choice, Minute, Day, Health, Load and Best.
--   * WebSearch: TTLCache of zero/web_search/cache.py (Cache), with the proofs in Entries, Bounds
--     and Recent.
--   * Providers: zero/providers. Profile is base.py; Limiter and Registry are registry.py, with the
--     proofs in Profile, Rate and Usage.
--   * Panel: zero/panel_cache.py (Snapshot), with its proof in Flights. A close is two steps there: the
--     cancellation of its task, and the end of that task.
--   * Tests, and the Tests of Office, Sessions, Templates, Router, Tenancy, Proactive,
--     Providers and Panel: runs on concrete tables.
--
-- How they correspond: a method is a function of the same name from the tables to its result and the
-- new tables. A transaction that raises leaves the tables as they were, so that an exception is a
-- value of Result without tables; a rollback that returns gives the old ones back. A row is a record
-- with the columns of the schema, a table the list of its rows in the order of insertion. What the
-- code draws or reads elsewhere is an argument: the clock, the uuid4, the environment, the local hour,
-- and what a send to Telegram gave. The write lock of a transaction (BEGIN IMMEDIATE) makes a run of
-- several processes a sequence of transactions, which is how Commands, Once, Attempts and Lifecycle
-- put them together. Where a method holds no such lock, it is one step here all the same: so a login,
-- with what its client answers, a run of a job, and a call of a provider.
--
-- Bounds: loops are recursion on the list that the code goes through, or on the number of its
-- attempts. Three have fuel: the rounds of _fair_select, as many as its limit, which is enough since a
-- round selects at least one row (Proactive.Fairness), the levels of cancelled children, and the months
-- up to that of a day, as many as days, since no month is empty (Templates.Calendar). Time zones are
-- zoneinfo's: a parameter gives the wall clock of a zone at a time and the time of a wall clock, where
-- the second showing of an hour that a set-back repeats is not told from the first. Counters,
-- clocks and sizes are natural numbers, and a CHECK that refuses a negative counter is a test before
-- the subtraction. Python's integers do not overflow, nor do these. Clocks are whole seconds.
--
-- Not modelled: migrations of the schema, JSON encoding, logging, prompts and model calls, file and
-- network access, and the parts of zero/ that the sections above do not name: the rest of web search, storage,
-- memory, stickers and gifs, the rest of the panel, the terminal interface, the brain, the
-- planning of follow-ups, the workers of Office, and configuration.
mod Base
mod Tests
pub mod Tenancy
pub mod Office
pub mod Sessions
pub mod Templates
pub mod Router
pub mod Panel
pub mod Proactive
pub mod Providers
pub mod WebSearch
