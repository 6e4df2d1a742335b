-- ===== src/Lib.antt =====
-- plomio: billing, API keys, tasks, automations and notifications of a service that parses
-- marketplaces, modelled from the Python services and repositories, with the theorems that make
-- them correct.
--
-- The program. Users put tasks (packages/task) in a queue; workers (apps/worker_parser) claim them,
-- parse their items page by page and report progress; every result is charged to the user's wallet
-- (packages/billing), and a task whose owner may not spend any more is paused. Tasks may be put
-- through API keys (packages/api_keys) with limits of their own. A scheduler sweeps the queue for
-- tasks that are too old and for workers that are lost. An automation (packages/automation) watches
-- a product: the scheduler puts a check of it into the queue when it is due, reads the result when
-- the task has ended, writes the log, and tells the user of changes. Users choose the events
-- that they are told of (packages/notifications); another sweep sends the messages.
--
-- The files.
--   Prelude: names of the library, Boolean tests, integers, tables as lists.
--   Core/Result, Core/Time, Core/Enums: exceptions as values, instants, enums (core and the enums.py
--     and exceptions.py of the packages).
--   Database: the tables as lists of rows (the models.py and entities.py) and the monad of service
--     methods (core/transaction_manager.py, core/repository.py).
--   Billing/Pricing, Billing/Wallets, Billing/Limits, Billing/Journal: BillingService and its
--     repositories (packages/billing/src/service.py, packages/billing/src/repository.py). The
--     children hold the proofs; Billing/Wallets/Prices says what a charge is to cost.
--   ApiKeys: ApiKeyService and ApiKeyRepository (packages/api_keys/src). ApiKeys/Calls has runs of
--     its calls.
--   Tasks, Tasks/Creation, Tasks/Items, Tasks/Restart, Tasks/Queue: TaskService, TaskRepository and
--     TaskItemRepository (packages/task/src/service.py, packages/task/src/repository.py), with the
--     names of the methods. Tasks/Steps is the state machine of a task, Tasks/Calls has runs of the
--     calls, and Tasks/Effects, Tasks/ItemEffects and Tasks/Refinement relate the two.
--   Database/AutomationTables: the tables of packages/automation and packages/result.
--   Automations, with Automations/Creation, Automations/Checks, Automations/Changes,
--     Automations/History, Automations/Charts and Automations/Listings: AutomationService and its
--     repositories (packages/automation/src/service.py, packages/automation/src/repository.py).
--     Automations/Checks/Dispatch is dispatch_due_checks, a client of the guards of Billing/Limits
--     and ApiKeys and of create_task; Automations/Checks/Results is _finalize_check and its child
--     Sweep process_pending_results; Automations/Changes is _diff_against_previous_and_baseline;
--     Automations/Creation/Batch is bulk_create_automations. Automations/Calls has runs of the calls.
--   Results: ResultService and ResultItemRepository (packages/result/src).
--   Notifications, with Notifications/Notify, Notifications/Preferences, Notifications/Deliveries
--     and Notifications/Links: NotificationService, its repositories and TelegramLinkStore
--     (packages/notifications/src). Notifications/Gates says when a filter lets a notice through.
--   Sessions: SessionPoolStore (packages/sessions/src/redis_store.py) for one marketplace.
--   Worker/Retry, Worker/Execution, Worker/HotSession: retry_policy.py, error_classifier.py,
--     PageExecutor of execution.py and HotSessionSlot of hot_session.py (apps/worker_parser/src).
--   Worker/Pages: the loop of process_item_pages (apps/worker_parser/src/task_runner.py).
--   Tests: a small database, and each theorem applied to it.
--
-- How the model reads the code.
--   A service method is a function from the database to a result and a database. A transaction block
--   keeps what its body wrote only where the body returns. Each call runs alone: the row locks of
--   lock_by_id, lock_or_create and claim_next make concurrent calls take turns. The clock is an
--   argument `now`, one for each call, in microseconds since 1970. Ids and foreign keys, UUIDs
--   included, are natural numbers, and `next_id` gives ids not given out before. Credits are
--   integers; a multiplier is in hundredths. BaseRepository.update keeps a column that it is given
--   as None; it changes the row that a selection by key finds.
--   NotificationService.notify is the record of its arguments in `notices`, less the links. Where no
--   service is given to BillingService, `notifies` is false. Notifications has the service itself,
--   over tables of its own: the events, the preferences, the deliveries, the Telegram accounts.
--   The texts of messages and the variables of a template are the interface Catalog, and what the
--   Telegram client answers for a delivery is an argument. The caches of a sweep are left out, since
--   the rows that they hold do not change in it.
--   Prices are in kopecks and not negative; a rating is a number that is compared only. The test of
--   a threshold, a division of floats in the source, is written with products. Links without an
--   article, and the matching of texts in searches, are as extract_article,
--   normalize_product_input (core/marketplace_article.py) and the database say, which are
--   parameters. The steps of a chart are seconds, its instants microseconds; the instants of
--   the pool of sessions are milliseconds.
--   Loops on fuel: a chart has until / step + 2 rounds, the export of the journal a round for each
--   page and one more, PageExecutor.run four, the most that a policy allows, the loop over pages
--   has any; the results say what is enough. The month of an instant is found in at most as many
--   rounds as days have passed.
--
-- Not modelled: failures of the database and of Redis; read-only listings for display; of the
-- parser worker, what follows the loop over pages, the concurrency and the parsers of the
-- marketplaces; the texts of messages, direct requests, proxies, users, the REST
-- layer. The recognition of articles in links and the hash of an API key are parameters.
pub mod ApiKeys
pub mod Automations
pub mod Billing
pub mod Core
pub mod Database
pub mod Notifications
pub mod Prelude
pub mod Results
pub mod Sessions
pub mod Tasks
pub mod Tests
pub mod Worker
