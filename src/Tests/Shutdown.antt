-- ===== src/Tests/Shutdown.antt =====
-- Shutdowns of a browser and of a session with concrete answers.
use eiger.Common.{◌≡◌, refl, Bool, [], ◌∷◌, ◌++◌, some, get_elem?, if◌then◌else◌}
use eiger.Browser.Shutdown.{abort_stealth_task, shutdown}
use eiger.Browser.Shutdown.Escalation.{effects_of, Answered, shutdown_escalates}
use eiger.Pool.State.{Arc, from_config}
use eiger.Pool.Create.{new_entry, create_session}
use eiger.Pool.Shutdown.{terminate_session}
use eiger.Pool.Shutdown.Counting.{idle, recycled, was_killed, hard_killed}
use eiger.Pool.Shutdown.Ending.{ended, terminate_session_ends}
use eiger.Tests.Machine.{machine}
use eiger.Tests.Fixture.{one, chrome, stubborn}

shutdown_escalates_example :
    ((shutdown chrome "idle" stubborn).1
      ≡ (if chrome.stealth_task then abort_stealth_task ∷ [] else [])
        ++ effects_of chrome (shutdown chrome "idle" stubborn).0.kind)
    × Answered stubborn (shutdown chrome "idle" stubborn).0.kind
    × ((shutdown chrome "idle" stubborn).0.pid ≡ 41)
    × ((shutdown chrome "idle" stubborn).0.reason ≡ "idle")
shutdown_escalates_example = shutdown_escalates chrome "idle" stubborn

abbrev first : Arc
first = record { entry = new_entry Bool.true chrome 7 100 100; strong = 2 }

first_there : get_elem? one.arcs 0 ≡ some first
unfolding create_session from_config
first_there = refl

first_listed : machine.get one.sessions 7 ≡ some 0
unfolding create_session from_config
first_listed = refl

terminate_session_ends_example :
    (get_elem? (terminate_session machine 7 "max idle time exceeded" stubborn one).1.arcs 0
      ≡ some (record { entry = ended "max idle time exceeded" first.entry; strong = 1 }))
    × ((terminate_session machine 7 "max idle time exceeded" stubborn one).1.counters
        ≡ hard_killed
            (was_killed (some chrome) "max idle time exceeded" stubborn)
            (recycled (some idle) one.counters))
terminate_session_ends_example =
    terminate_session_ends machine 7 0 "max idle time exceeded" stubborn one first first_listed
      first_there
