-- ===== src/Browser/Shutdown.antt =====
-- crates/eiger-browser/src/lib.rs, `LaunchedBrowser::shutdown`: the escalation from a polite close
-- to SIGTERM and SIGKILL.
pub mod Escalation
use eiger.Common.{ℕ, String, Bool, ◌&&◌, List, [], ◌∷◌, ◌++◌, if◌then◌else◌}
use eiger.Browser.{
  LaunchedBrowser, ShutdownKind, graceful, terminated, killed, already_exited, ShutdownReport,
}

-- What the process and the operating system answer during a shutdown: `child.try_wait()` reports
-- an exit, `Browser.close` succeeds in time, the process exits in time after the close and after
-- SIGTERM, and `child.kill()` succeeds.
pub record ChildAnswers : Type 0 where
  pub exited_before : Bool
  pub close_succeeds : Bool
  pub exits_after_close : Bool
  pub exits_after_sigterm : Bool
  pub kill_succeeds : Bool

-- What a shutdown does to the outside, in order.
pub data Effect : Type 0 where
  abort_stealth_task : Effect
  browser_close : String → Effect
  sigterm sigkill : ℕ → Effect

abbrev report : LaunchedBrowser → ShutdownKind → String → ShutdownReport
report b kind reason = record { pid = b.pid; kind = kind; reason = reason }

-- The part after the close.
terminate : LaunchedBrowser → String → ChildAnswers → ShutdownReport × List Effect
terminate b reason a =
    if a.exits_after_sigterm
    then (report b terminated reason, sigterm b.pid ∷ [])
    else (report b killed reason, sigterm b.pid ∷ sigkill b.pid ∷ [])

close : LaunchedBrowser → String → ChildAnswers → ShutdownReport × List Effect
unfolding terminate
close b reason a =
    let (last, effects) = terminate b reason a in
    if a.close_succeeds && a.exits_after_close
    then (report b graceful reason, browser_close b.browser_ws_url ∷ [])
    else (last, browser_close b.browser_ws_url ∷ effects)

unfoldable pub shutdown : LaunchedBrowser → String → ChildAnswers → ShutdownReport × List Effect
unfolding close
shutdown b reason a =
    let aborted : List Effect = if b.stealth_task then abort_stealth_task ∷ [] else [] in
    let (last, effects) = close b reason a in
    if a.exited_before
    then (report b already_exited reason, aborted)
    else (last, aborted ++ effects)

-- `terminate_child`, after a launch that failed; `exited_before` is here that `try_wait` did not report
-- a child that still runs.
unfoldable pub terminate_child : ℕ → ChildAnswers → List Effect
terminate_child pid a =
    if a.exited_before
    then []
    else if a.exits_after_sigterm
    then sigterm pid ∷ []
    else sigterm pid ∷ sigkill pid ∷ []

-- The drop of a `LaunchedBrowser`.
unfoldable pub drop_browser : LaunchedBrowser → ChildAnswers → List Effect
drop_browser b a =
    let aborted : List Effect = if b.stealth_task then abort_stealth_task ∷ [] else [] in
    aborted ++ (if a.exited_before then [] else sigkill b.pid ∷ [])
