-- ===== src/Pool/Shutdown/Counting.antt =====
-- crates/eiger-pool/src/lib.rs: what a termination counts, said apart from the code.
use eiger.Common.{
  ◌≡◌, refl, String, Bool, true, false, List, [], ◌∷◌, Option, none, some, fetch_add, if◌then◌else◌,
  Bool-cases, inl, inr,
}
use eiger.Text.{starts_with}
use eiger.Browser.{LaunchedBrowser, ShutdownKind, graceful, terminated, killed, already_exited}
use eiger.Browser.Shutdown.{ChildAnswers, shutdown}
use eiger.Pool.State.{Counters}
use eiger.Pool.Shutdown.{count_recycle_reason, counted_shutdown, is_killed}

pub data Cause : Type 0 where
  rss_limit idle lifetime process_exit unhealthy : Cause

-- How the reason of each cause begins.
abbrev pub causes : List (String × Cause)
causes =
    ("rss limit exceeded", rss_limit)
    ∷ ("max idle time exceeded", idle)
    ∷ ("max session lifetime exceeded", lifetime)
    ∷ ("browser process exited", process_exit)
    ∷ ("cdp health check failed", unhealthy)
    ∷ []

-- The first cause that a reason begins with.
abbrev pub cause_in : List (String × Cause) → String → Option Cause
cause_in [] reason = none
cause_in ((start, cause) ∷ more) reason =
    let rest = cause_in more reason in if starts_with start reason then some cause else rest

-- Each cause has its counter, and a reason of no cause has none.
abbrev pub recycled : Option Cause → Counters → Counters
recycled none c = c
recycled (some rss_limit) c = record c {
  sessions_rss_limit_recycled_total = fetch_add c.sessions_rss_limit_recycled_total;
}
recycled (some idle) c = record c {
  sessions_idle_recycled_total = fetch_add c.sessions_idle_recycled_total;
}
recycled (some lifetime) c = record c {
  sessions_lifetime_recycled_total = fetch_add c.sessions_lifetime_recycled_total;
}
recycled (some process_exit) c = record c {
  sessions_process_exit_recycled_total = fetch_add c.sessions_process_exit_recycled_total;
}
recycled (some unhealthy) c = record c {
  sessions_cdp_unhealthy_recycled_total = fetch_add c.sessions_cdp_unhealthy_recycled_total;
}

abbrev pub by_kill : ShutdownKind → Bool
by_kill killed = true
by_kill _ = false

-- Whether there was a browser, and its shutdown ended with a kill.
abbrev pub was_killed : Option LaunchedBrowser → String → ChildAnswers → Bool
was_killed none reason answers = false
was_killed (some b) reason answers = by_kill (shutdown b reason answers).0.kind

abbrev pub hard_killed : Bool → Counters → Counters
hard_killed false c = c
hard_killed true c = record c {
  sessions_hard_killed_total = fetch_add c.sessions_hard_killed_total;
}

pub count_recycle_reason-recycled :
    (reason : String) (c : Counters)
    → count_recycle_reason reason c ≡ recycled (cause_in causes reason) c
unfolding count_recycle_reason
count_recycle_reason-recycled reason c =
    elim (Bool-cases (starts_with "rss limit exceeded" reason)) [
      | inl h ↦ rw h refl
      | inr h ↦ elim (Bool-cases (starts_with "max idle time exceeded" reason)) [
        | inl g ↦ rw (h, g) refl
        | inr g ↦ elim (Bool-cases (starts_with "max session lifetime exceeded" reason)) [
          | inl k ↦ rw (h, g, k) refl
          | inr k ↦ elim (Bool-cases (starts_with "browser process exited" reason)) [
            | inl l ↦ rw (h, g, k, l) refl
            | inr l ↦ elim (Bool-cases (starts_with "cdp health check failed" reason)) [
              | inl m ↦ rw (h, g, k, l, m) refl
              | inr m ↦ rw (h, g, k, l, m) refl
            ]
          ]
        ]
      ]
    ]

counted_kind :
    (kind : ShutdownKind) (c : Counters)
    → (if is_killed kind
        then record c { sessions_hard_killed_total = fetch_add c.sessions_hard_killed_total }
        else c)
      ≡ hard_killed (by_kill kind) c
counted_kind graceful c = refl
counted_kind terminated c = refl
counted_kind killed c = refl
counted_kind already_exited c = refl

pub counted_shutdown-hard_killed :
    (o : Option LaunchedBrowser) (reason : String) (answers : ChildAnswers) (c : Counters)
    → counted_shutdown o reason answers c ≡ hard_killed (was_killed o reason answers) c
counted_shutdown-hard_killed none reason answers c = refl
counted_shutdown-hard_killed (some b) reason answers c =
    counted_kind (shutdown b reason answers).0.kind c
