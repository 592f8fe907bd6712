-- ===== src/Browser/Launch.antt =====
-- crates/eiger-browser/src/lib.rs, `prepare_user_data_dir` and `launch_chrome`. What the operating
-- system answers is in a record.
use eiger.Common.{
  ◌⊎◌, ℕ, ◌≡◌, refl, String, Bool, true, false, Option, none, some, Result, ok, err, map_err, ◌>>=◌,
  ◌*◌, ◌≤◌, inl, inr, List, if◌then◌else◌,
}
use eiger.Common.Exec.{Outcome}
use eiger.Serde.{Serde}
use eiger.Socket.{Socket}
use eiger.Browser.{
  ChromeLaunchOptions, UserDataDir, temporary, persistent, LaunchedBrowser, BrowserError,
  missing_executable, spawn, user_data_dir, devtools_port,
}
use eiger.Browser.Args.{chrome_args}
use eiger.Browser.Cdp.{TargetDescriptor, inject_stealth_into_existing_targets}
use eiger.Browser.Executable.{Machine, resolve_chrome_executable}
use eiger.Browser.Ready.{BrowserReady, Poll, wait_until_ready}
use eiger.Browser.Ready.Ending.{wait_until_ready-Ends}

-- `create_dir_all`, `tempdir`, the spawn of a program with arguments (which gives the id of the child,
-- if it has one), the rounds of the wait, and the text of a duration.
pub record System : Type 0 where
  pub machine : Machine
  pub create_dir : String → Result (Unit {0}) String
  pub temp_dir : Result String String
  pub spawn_child : String → List String → Result (Option ℕ) String
  pub polls : ℕ → Poll
  pub show_duration : ℕ → String

unfoldable pub prepare_user_data_dir : System → Option String → Result UserDataDir BrowserError
prepare_user_data_dir y (some path) = do
  created ← map_err (user_data_dir path) (y.create_dir path)
  ok (persistent path)
prepare_user_data_dir y none = do path ← map_err devtools_port y.temp_dir; ok (temporary path)

abbrev pub dir_path : UserDataDir → String
dir_path (temporary path) = path
dir_path (persistent path) = path

-- What a launch leaves: its result, the id of the child that was started, whether `terminate_child` ran,
-- and how the injection into the targets that are there ended, which the launch only logs; `none` where
-- there was none.
pub record Launch : Type 0 where
  pub result : Result LaunchedBrowser BrowserError
  pub started : Option ℕ
  pub child_terminated : Bool
  pub injection : Option (Outcome ℕ BrowserError (Unit {0}))

abbrev failed : BrowserError → Launch
failed e = record { result = err e; started = none; child_terminated = false; injection = none }

abbrev launched_browser : ChromeLaunchOptions → UserDataDir → ℕ → BrowserReady → LaunchedBrowser
launched_browser o dir pid ready = record {
  pid = pid;
  http_base_url = ready.http_base_url;
  browser_ws_url = ready.browser_ws_url;
  user_data_dir = dir;
  stealth_task = o.stealth.enabled;
  close_timeout = o.close_timeout;
  terminate_timeout = o.terminate_timeout;
}

-- `connect` is `connect_async`, `fetch` the GET request with the reading of its answer.
module _ (J : Serde) (connect : ℕ → String → Result Socket String)
    (fetch : String → Result (List TargetDescriptor) String) where
  -- The injection into the targets of the new browser, where the launch is one with stealth.
  abbrev injection_of : LaunchedBrowser → Option (Outcome ℕ BrowserError (Unit {0}))
  injection_of b =
      if b.stealth_task
      then some (inject_stealth_into_existing_targets J connect fetch b 0)
      else none

  -- After the wait; `none` passes on that its fuel ran out.
  abbrev after_wait :
      ChromeLaunchOptions
      → UserDataDir
      → ℕ
      → Option (Result BrowserReady BrowserError)
      → Option Launch
  after_wait o dir pid none = none
  after_wait o dir pid (some (err e)) =
      some
        (record { result = err e; started = some pid; child_terminated = true; injection = none })
  after_wait o dir pid (some (ok ready)) = some (record {
    result = ok (launched_browser o dir pid ready);
    started = some pid;
    child_terminated = false;
    injection = injection_of (launched_browser o dir pid ready);
  })

  abbrev after_spawn :
      System → ChromeLaunchOptions → UserDataDir → String → Result (Option ℕ) String → Option Launch
  after_spawn y o dir executable (err source) = some (failed (spawn executable source))
  after_spawn y o dir executable (ok none) = some (failed missing_executable)
  after_spawn y o dir executable (ok (some pid)) =
      after_wait o dir pid (wait_until_ready y.show_duration y.polls pid o.launch_timeout)

  abbrev after_dir :
      System → ChromeLaunchOptions → String → Result UserDataDir BrowserError → Option Launch
  after_dir y o executable (err e) = some (failed e)
  after_dir y o executable (ok dir) =
      after_spawn y o dir executable (y.spawn_child executable (chrome_args (dir_path dir) o))

  abbrev after_resolve : System → ChromeLaunchOptions → Result String BrowserError → Option Launch
  after_resolve y o (err e) = some (failed e)
  after_resolve y o (ok executable) =
      after_dir y o executable (prepare_user_data_dir y o.user_data_dir)

  unfoldable pub launch_chrome : System → ChromeLaunchOptions → Option Launch
  unfolding inject_stealth_into_existing_targets resolve_chrome_executable prepare_user_data_dir
      chrome_args wait_until_ready
  launch_chrome y o = after_resolve y o (resolve_chrome_executable y.machine o.executable)

-- What a launch leaves of the child, for each kind of result.
abbrev pub NoOrphan : ChromeLaunchOptions → Launch → Result LaunchedBrowser BrowserError → Type 0
NoOrphan o l (ok b) =
    (l.started ≡ some b.pid)
    × (l.child_terminated ≡ false)
    × (b.stealth_task ≡ o.stealth.enabled)
    × (b.close_timeout ≡ o.close_timeout)
    × (b.terminate_timeout ≡ o.terminate_timeout)
NoOrphan o l (err e) = (l.started ≡ none) ⊎ (l.child_terminated ≡ true)

abbrev Ends : ChromeLaunchOptions → Option Launch → Type 0
Ends o m = (l : Launch) × (m ≡ some l) × NoOrphan o l l.result

failed-Ends : (o : ChromeLaunchOptions) (e : BrowserError) → Ends o (some (failed e))
failed-Ends o e = (failed e, refl, inl refl)

module _ (J : Serde) (connect : ℕ → String → Result Socket String)
    (fetch : String → Result (List TargetDescriptor) String) where
  after_wait-Ends :
      (o : ChromeLaunchOptions) (dir : UserDataDir) (pid : ℕ) (r : Result BrowserReady BrowserError)
      → Ends o (after_wait J connect fetch o dir pid (some r))
  after_wait-Ends o dir pid (ok ready) = (_, refl, (refl, refl, refl, refl, refl))
  after_wait-Ends o dir pid (err e) = (_, refl, inr refl)

  module _ (y : System) (o : ChromeLaunchOptions)
      (slept : (j : ℕ) → j * 100_000_000 ≤ (y.polls j).elapsed) where
    after_spawn-Ends :
        (dir : UserDataDir) (executable : String) (r : Result (Option ℕ) String)
        → Ends o (after_spawn J connect fetch y o dir executable r)
    after_spawn-Ends dir executable (err source) = failed-Ends o _
    after_spawn-Ends dir executable (ok none) = failed-Ends o _
    after_spawn-Ends dir executable (ok (some pid)) =
        let (r, e, from) =
          wait_until_ready-Ends y.show_duration y.polls pid o.launch_timeout slept in
        rw e (after_wait-Ends o dir pid r)

    after_dir-Ends :
        (executable : String) (r : Result UserDataDir BrowserError)
        → Ends o (after_dir J connect fetch y o executable r)
    after_dir-Ends executable (err e) = failed-Ends o e
    after_dir-Ends executable (ok dir) = after_spawn-Ends dir executable _

    after_resolve-Ends :
        (r : Result String BrowserError) → Ends o (after_resolve J connect fetch y o r)
    after_resolve-Ends (err e) = failed-Ends o e
    after_resolve-Ends (ok executable) = after_dir-Ends executable _

  -- Where each round of the wait begins at least 100 ms after the one before, a launch ends. A browser that
  -- it returns is the child that was started, was not terminated, and has the timeouts and the stealth task of the options; where it
  -- returns an error, no child that has an id was started, or the child was terminated.
  pub launch_chrome-NoOrphan :
      (y : System) (o : ChromeLaunchOptions)
      → ((j : ℕ) → j * 100_000_000 ≤ (y.polls j).elapsed)
      → (l : Launch) × (launch_chrome J connect fetch y o ≡ some l) × NoOrphan o l l.result
  unfolding launch_chrome
  launch_chrome-NoOrphan y o slept =
      after_resolve-Ends y o slept (resolve_chrome_executable y.machine o.executable)
