-- ===== src/Lib.antt =====
-- abstract-block-dumper: tasks that a Django and Celery application runs for blocks of a chain.
--
-- The scheduler follows the heads of a chain and submits each new block to the registered tasks. A
-- submission is a row of the table `TaskAttempt` and a Celery message; a worker claims the row, runs
-- the task's function and records its outcome, a failed try is retried by a message with an ETA, and
-- a sweep recovers attempts that nothing carries. Tasks come in two kinds: those of a `BlockDumper`,
-- whose queues have a policy (retries, message TTL, throttle, time limits), and those declared with
-- `@block_task`, which follow global settings.
--
-- The modules, with the code they are about (under src/abstract_block_dumper of the repository):
--   Prelude         tests, lists, dicts with text keys, results of calls that may raise
--   Numeric         _internal/numeric.py
--   Retry           Policy: _internal/services/retry_policy.py; Schedule: the retry settings of
--                   _internal/dal/django_dal.py; Rules: _internal/services/retry_rules.py
--   Attempt         models.py; Database: the table behind Django's ORM; Transitions, Reopen:
--                   _internal/dal/attempt_transitions.py; Reads: _internal/dal/queue_attempts.py;
--                   Events: all writes as steps of an interleaving; Changes, Invariant, Lease, Finality,
--                   Counting, Limit, Lifecycle: what sequences of writes keep
--   Queue           _internal/services/queue_policy.py
--   Settings        _internal/services/recovery_settings.py
--   Registry        Dumper: _internal/dal/dumper_registry.py; Items: _internal/dal/memory_registry.py
--   Dispatch        _internal/services/queue_executor.py
--   Runner          _internal/services/task_runner.py; Retry: a failed try with tries left
--   Reconciler      _internal/services/reconciler.py
--   BlockTask       the `@block_task` operations of _internal/dal/django_dal.py; Executor:
--                   _internal/services/executor.py; Wrapper: the worker side in v1/decorators.py
--   Throttle        _internal/services/throttle.py; Waits: the gate over several looks
--   Backfill        Queued: _internal/services/queue_backfiller.py; Window:
--                   _internal/services/window_backfiller.py; Skips: the blocks left out
--   BackfillScheduler  _internal/services/backfill_scheduler.py; Head: its cache of the chain's head;
--                   Moments: what other processes do meanwhile; DryRun: the preview; Ends, Sends, Estimate:
--                   how a backfill ends and what it may send
--   Gaps, BackfillCommand  management/commands/backfill_blocks_v1.py
--   Declaration     _internal/services/block_dumper.py, and the registration in v1/decorators.py
--   Processor       _internal/services/block_processor.py
--   Scheduler       _internal/services/scheduler.py; Loop: its loop over the heads, and the sweep
--   ChainClient     _internal/providers/bittensor_client.py: its connections (Leaks) and the head in its
--                   cache (Cache)
--   CeleryConfig    _internal/services/celery_config.py
--   TimeLimits      _internal/services/time_limits.py
--   Examples        an in-memory table, and each theorem at a concrete input
--
-- How state is modelled. The table is an abstract type with the queries that the code makes and their
-- documented laws (Attempt.Database), since the database is no code of the repository; each UPDATE is
-- one step, so that every interleaving of processes is a list of such steps with their clock readings
-- (Attempt.Events). Operations that also send take and return the table with the list of the messages
-- that Celery accepted; whether Celery accepts a message is a parameter. Exceptions are values.
-- Instants and durations are natural numbers of microseconds, and a Python float is read as its
-- nearest number of ticks; powers in back-off delays are a parameter with the laws of Python's
-- arithmetic, overflow included (Retry.Policy.Power). An argument dict stands for its canonical JSON
-- text. The functions of tasks, their conditions, and the reads of the chain are parameters.
--
-- No function runs on fuel: loops run over lists (blocks, argument sets, ids, registered tasks). A
-- throttle gate that waits runs over the list of what it sees after each sleep, and says that it
-- still waits when that list ends. A backfill takes a list of moments: what the other processes have
-- made of the table when each of its blocks begins, and what its gate sees; an interrupt arrives
-- between two blocks. The loop of the scheduler takes a list of turns, each with the clock, the reads of
-- the heads and the starting blocks that it sees.
--
-- Not modelled: logging and metrics; the checks and inspection of brokers and queues, the other
-- management commands, the admin page and the migrations; the Celery signals; the
-- bittensor library; the sleeps of the scheduler and its measure of lag; the deletion of phantom
-- tasks in _internal/dal/django_dal.py.
pub mod Prelude
pub mod Numeric
pub mod Retry
pub mod Attempt
pub mod Queue
pub mod Settings
pub mod Registry
pub mod Dispatch
pub mod Runner
pub mod Reconciler
pub mod BlockTask
pub mod Throttle
pub mod Backfill
pub mod Processor
pub mod Gaps
pub mod BackfillScheduler
pub mod BackfillCommand
pub mod Scheduler
pub mod TimeLimits
pub mod Declaration
pub mod ChainClient
pub mod CeleryConfig
mod Examples
