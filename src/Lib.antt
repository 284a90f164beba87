-- ===== src/Lib.antt =====
-- A verification library for AGF-Orchestrator, the Python program in src/agf_orchestrator/ that plans,
-- schedules, reviews and delivers software work by agents under an owner's policy.
--
-- The parts that are modelled:
-- - A roadmap (src/agf_orchestrator/roadmap_models.py) is a set of items with dependencies. Roadmap/Models.antt
--   has its data and `validate`, Roadmap/Acyclic.antt the depth-first search `_validate_acyclic`,
--   Roadmap/Lifecycle.antt the operations `transition`, `supersede`, `eligible_items` and `revise`.
-- - A scheduler works through a roadmap. Scheduler/Models.antt has its state and lifecycle
--   (scheduler_models.py), Scheduler/Selection.antt the lease of the next eligible item
--   (scheduler_selection.py: `select_next`), Scheduler/Loop.antt the bounded loop over a step function
--   (scheduler_loop.py: `run_bounded`), Scheduler/Safety.antt the stop gates (scheduler_safety.py),
--   Scheduler/Recovery.antt the recovery from an expired lease (scheduler_recovery.py),
--   Scheduler/Store.antt the state's file (scheduler_store.py), Scheduler/Commands.antt the commands on it
--   (scheduler_commands.py: `execute`) and Scheduler/Journal.antt the events and the human inbox
--   (scheduler_journal.py). All of these stand in src/agf_orchestrator/.
-- - Risk/Models.antt and Risk/Engine.antt: the risk assessment of a change
--   (src/agf_orchestrator/risk_models.py, risk_engine.py).
-- - Merge/Models.antt and Merge/Policy.antt: gate evidence, and the engine that authorizes a merge from it
--   (src/agf_orchestrator/merge_models.py, merge_policy.py: `MergePolicyEngine.evaluate`). A decision carries
--   the risk assessment.
-- - Session/Models.antt and Session/Manager.antt: the statuses of a session of work and the transitions of
--   stored sessions (src/agf_orchestrator/session_models.py, session_manager.py, session_store.py).
-- - Scope.antt: the lexical check of changed paths against the paths of a task
--   (src/agf_orchestrator/path_scope.py).
-- - Campaign/: a campaign is a long piece of work that waits for outside events and retries
--   (src/agf_orchestrator/campaign_runner.py). Campaign/Models.antt has its state and `validate`,
--   Campaign/Store.antt `CampaignStore` with the lease of `claim`, Campaign/Steps.antt the states that a runner
--   writes and the backoff, Campaign/Deferred.antt and Campaign/Recovery.antt the retries that are put into a
--   file of their own when the project's lock is held, and Campaign/Runner.antt the operations of
--   `PersistentCampaignRunner`. Campaign/World.antt has the actions that these are composed of.
-- - Finding/: reproduced defects, which are recorded and closed
--   (src/agf_orchestrator/causal_findings.py). Finding/Models.antt has their data, identity and `validate`,
--   Finding/Store.antt `CausalFindingStore`, whose files are a list with the names of project and finding.
-- - Capability/: the choice of a provider by what it is known to be able to do. Capability/Profiles.antt has the
--   profiles (src/agf_orchestrator/capability_profiles.py) and Capability/Selection.antt `CapabilitySelector`
--   (capability_selection.py).
-- The files below a file of this list hold the theorems on it. Base.antt has what they share: Python's
-- texts, integers, sorting and exceptions. Tests.antt has concrete inputs.
--
-- How the code is modelled:
-- - Code that raises returns a `Result`: the value, or the exception's class with its message. Python's
--   dataclasses are records and its enumerations are data types, so that the `isinstance` checks are the
--   types of the fields. Python's integers are ℤ, its texts native strings with the Unicode tables
--   that `strip`, `isdigit` and `\d` need; a regular expression is a Boolean test.
-- - A stateful operation is a function from the contents of its file to a result and the contents that it
--   leaves. A file is absent, malformed or a document; the JSON text and the checks of a document's shape
--   stand behind that split. A write replaces the file whole or fails with an `OSError`, which the argument
--   `Disk` decides. The operations of the scheduler's and the sessions' stores hold a lock, so that each is one
--   step; `execute` takes two locks in turn and so has two arguments for the file.
-- - `CausalFindingStore` takes no lock: `record` and `close` read a file and then write it, and others may write in
--   between. `record_between` and `close_between` of Finding/Store.antt have the files at the reading and the files
--   at the writing as two arguments; `record_finding` and `close` are the calls that nobody interrupts, and a
--   sequence of calls consists of such calls.
-- - A session is one file, that of the identity asked for, which the session in it bears. `SessionStore.save` writes
--   to the file of the session's own identity, which is another if the file was put under a wrong name.
-- - The operations of a campaign take several locks in turn, so that other processes may write in between. They
--   are actions on a world (Campaign/World.antt): the campaign's file, the deferred retry and an old file of that
--   kind, and what the outside answers, one entry for each question: `turns` what others write before each
--   section under the project's lock, `locks` and `disks` the failures, `clock` the times. A lock is released at
--   the end of its section, and nobody else writes the deferral while the lock of the campaign's operations is
--   held. What was written before an exception stays written.
-- - The depth-first search runs on fuel, the number of items and one more: the items on its stack are distinct,
--   so that it is never deeper. A roadmap has at most 500 items, which keeps Python below its recursion limit.
--   The bounded loop runs on `max_steps`.
-- - Parameters: the step function of the loop; the SHA-256 hash of an object's canonical JSON (`Hash`); whether
--   a text is a time that is not in the future (`Observed`, one answer for all calls of one evaluation); the
--   clock and the random identifiers of sessions (`Call`).
-- - A campaign's times are whole seconds of a `Calendar`, whose laws are that `strptime` reads what `strftime`
--   prints and that it prints something; the range of years is not bounded. Its counters are natural numbers, so
--   that the tests that they are not negative are their type. A runner is given a `Setup`: the digest of a
--   deferral, the probe and the work, which return or raise, and the guard of a wake. `run_forever` runs on its
--   `max_ticks`.
-- - A finding's proposal is a JSON object; its type and its equality are parameters, and so is the digest of the
--   identity.
-- - The checks of a capability profile ask a `Platform` for SHA-256 of a text and of the canonical JSON, for the
--   instant that `strptime` reads and for the `repr` of a text.
-- - Gates are given to the policy engine as `GateEvidence` objects; `MergePolicy.freshness_limits`, which it does
--   not read, is left out. The risk assessment of a decision is the object and not its dictionary.
--
-- Not modelled: the conversions to and from dictionaries, `critical_path`, the checks of the stores'
-- constructors and of symbolic links, `run_forever` without `max_ticks`, and the parts of the program that run models, git, subprocesses, signatures and databases.
pub mod Base
pub mod Roadmap
pub mod Scheduler
pub mod Risk
pub mod Merge
pub mod Session
pub mod Scope
pub mod Campaign
pub mod Finding
pub mod Capability
pub mod Tests
