-- ===== src/Lib.antt =====
-- Chromium i686 port: the automation scripts under scripts/, which watch for stable versions,
-- dispatch preflight builds, keep a build alive across runners, and publish its result.
--
-- The parts and their files:
-- - Prelude, Result, Json, Text: what the scripts use of Python. Exceptions are values with their
--   class; `json.loads` yields the data type `Json`; regular expressions are recognisers by clauses.
-- - Host: the outside world. `Host` has the GitHub CLI, the clock and a few library functions as
--   fields, so each theorem holds for every behaviour of them; where a theorem needs more, it is a
--   hypothesis. A script's run is an action on a `State`, which also records each command that was
--   sent to the CLI. Host.Tally counts commands, Host.Laws inverts actions that returned.
-- - Dispatch (scripts/github_workflow_dispatch.py): Lookup has the listing of runs and the lookups,
--   Confirm the checks on listed runs (`recent_dispatch_head_state`,
--   `confirm_expected_dispatch_head`, `exact_active_exists`, `exact_exists_since`), Once
--   `dispatch_once`. `dispatch_once` guards, sends the one `gh workflow run`, and looks for evidence.
-- - Watcher (scripts/chromium_stable_watcher.py): Gh has `run_gh`, `gh_json` and
--   `gh_resource_text` with their retries, Rest the paged reads, Select `select_candidates` on the
--   sorted versions of Text.Version.Sorting, RunState `list_port_run_state`, Manifest and
--   Health the release checks, Feed the baseline and the version feed, Main the decisions of `main`.
-- - Recovery (scripts/chromium_runner_recovery.py): the budget of automatic recoveries.
-- - Release (scripts/github_release_tag.py, scripts/github_immutable_release.py): Tag resolves a tag
--   and creates it, Publish completes a draft, publishes it and compares what is there.
-- - Prune (scripts/github_checkpoint_prune.py): the lookup of a checkpoint with its checks of the
--   run, the deletion, and the look that confirms it.
-- - Issue (scripts/github_maintenance_issue.py): finding, creating and closing the issue that marks a
--   version as processed.
-- - Handoff (scripts/github_release_handoff.py): the wait for the build, with its checks of the run,
--   the wait for a publisher that is there already, and the dispatch of one.
-- - Archive (scripts/validate_checkpoint_archive.py): what a checkpoint archive may hold. Text.Paths
--   has Python's `posixpath`, with `normpath` against a walk along the path.
-- - Watchdog (scripts/ninja_stall_watchdog.py): Progress decides what a round does, Machine is the
--   outside, Child ends the child process, Run is the supervised run and Main the command.
-- - Cleanup (scripts/github_released_checkpoint_cleanup.py): Release reads the identity of a release,
--   Bytes and Workflow prove it, Guard has what must hold before a phase, Checkpoints and Caches find
--   and delete, and Main puts the phases in order.
--
-- Loops: a loop over `range(n)` is a recursion on the number of rounds that are left, with the
-- source's own bound (the attempts, or the page limit and one probe), so there is no other fuel.
-- Times are microseconds on the native numbers. Messages of exceptions are kept only where a script
-- reads them; prints, argument parsers and the reading of environment variables are left out, and
-- the values read are parameters (`Settings`, `lookup_limit`).
--
-- Not modelled:
-- scripts/github_release_state.py and scripts/chromium_source_object.py, whose answers are parameters
-- where a modelled script calls them; the scripts that drive compilers and Windows tools, read the headers of executables
-- and extract archives, and the workflows under .github.
mod Prelude
pub mod Result
pub mod Json
pub mod Host
pub mod Text
pub mod Archive
pub mod Watchdog
pub mod Recovery
pub mod Release
pub mod Prune
pub mod Issue
pub mod Handoff
pub mod Cleanup
pub mod Dispatch
pub mod Watcher
