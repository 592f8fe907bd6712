-- ===== src/Browser/Shutdown/Escalation.antt =====
-- How far a shutdown of a browser goes.
use eiger.Common.{
  ◌≡◌, refl, inl, inr, String, true, false, ◌&&◌, List, [], ◌∷◌, ◌++◌, Bool-cases, if◌then◌else◌,
}
use eiger.Browser.{LaunchedBrowser, ShutdownKind, graceful, terminated, killed, already_exited}
use eiger.Browser.Shutdown.{
  ChildAnswers, Effect, abort_stealth_task, browser_close, sigterm, sigkill, close, shutdown,
  terminate,
}

-- What a shutdown of each kind did after the stealth task was ended.
abbrev pub effects_of : LaunchedBrowser → ShutdownKind → List Effect
effects_of b already_exited = []
effects_of b graceful = browser_close b.browser_ws_url ∷ []
effects_of b terminated = browser_close b.browser_ws_url ∷ sigterm b.pid ∷ []
effects_of b killed = browser_close b.browser_ws_url ∷ sigterm b.pid ∷ sigkill b.pid ∷ []

-- What the answers were when a shutdown is of a kind.
abbrev pub Answered : ChildAnswers → ShutdownKind → Type 0
Answered a already_exited = a.exited_before ≡ true
Answered a graceful = (a.exited_before ≡ false) × (a.close_succeeds && a.exits_after_close ≡ true)
Answered a terminated =
    (a.exited_before ≡ false)
    × (a.close_succeeds && a.exits_after_close ≡ false)
    × (a.exits_after_sigterm ≡ true)
Answered a killed =
    (a.exited_before ≡ false)
    × (a.close_succeeds && a.exits_after_close ≡ false)
    × (a.exits_after_sigterm ≡ false)

abbrev stealth_effects : LaunchedBrowser → List Effect
stealth_effects b = if b.stealth_task then abort_stealth_task ∷ [] else []

append_nil {ℓ} : {A : Type ℓ} (xs : List A) → xs ≡ xs ++ []
append_nil [] = refl
append_nil (x ∷ xs) = rw (← append_nil xs)

-- The kind that a shutdown reports says exactly how far it went: the process had exited before; it
-- exited after a close through CDP; it exited after SIGTERM too; or it was killed as well. Each measure
-- is taken only after the gentler ones failed, and the report carries the pid and the reason.
pub shutdown_escalates :
    (b : LaunchedBrowser) (reason : String) (a : ChildAnswers)
    → ((shutdown b reason a).1
        ≡ (if b.stealth_task then abort_stealth_task ∷ [] else [])
          ++ effects_of b (shutdown b reason a).0.kind)
      × Answered a (shutdown b reason a).0.kind
      × ((shutdown b reason a).0.pid ≡ b.pid)
      × ((shutdown b reason a).0.reason ≡ reason)
unfolding shutdown close terminate
shutdown_escalates b reason a = elim (Bool-cases a.exited_before) [
  | inl h ↦ rw (h, shutdown) (append_nil (stealth_effects b), refl, refl, refl)
  | inr h ↦ elim (Bool-cases (a.close_succeeds && a.exits_after_close)) [
    | inl g ↦ rw (h, g, shutdown, close) (refl, (refl, g), refl, refl)
    | inr g ↦ elim (Bool-cases a.exits_after_sigterm) [
      | inl k ↦ rw (h, g, k, shutdown, close, terminate) (refl, (refl, g, refl), refl, refl)
      | inr k ↦ rw (h, g, k, shutdown, close, terminate) (refl, (refl, g, refl), refl, refl)
    ]
  ]
]
