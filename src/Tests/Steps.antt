-- ===== src/Tests/Steps.antt =====
-- Runs of the pool's tasks at a concrete configuration.
use eiger.Common.{◌≡◌, ◌+◌, ◌≤◌, refl, ℕ, [], ◌∷◌, Option, none, some, ok, err, length}
use eiger.Pool.{not_connectable}
use eiger.Pool.Heap.{live}
use eiger.Pool.State.{SessionPool, from_config, drop_arc}
use eiger.Pool.State.Owners.{strongs}
use eiger.Pool.Create.{launch_session, launch_options}
use eiger.Metrics.{ProcessSample}
use eiger.Pool.Sessions.{connect_session, get_session, list_sessions}
use eiger.Pool.Sessions.Listing.{find_info, list_sessions-get_session}
use eiger.Pool.Shutdown.{begin_shutdown, finish_shutdown}
use eiger.Pool.Steps.{
  admitted, holding, Step, admit, launch, let_go, terminate, finish, Reach, here, next,
}
use eiger.Pool.Ledger.{Answers, events, replay, ledger}
use eiger.Pool.Ledger.Refines.{pool-Refines}
use eiger.Pool.Maintenance.{Probe, kill_reason_for, maintenance_pass}
use eiger.Pool.Maintenance.Pass.{remains}
use eiger.Pool.Maintenance.Recycles.{maintenance_pass_recycles}
use eiger.Pool.Steps.Invariant.{Inv, permits_in_flight}
use eiger.Pool.Steps.Capacity.{Reach-permits, count-le-max}
use eiger.Pool.Steps.SingleUse.{connected_once}
use eiger.Tests.Machine.{machine}
use eiger.Tests.Fixture.{config, new_pool, launches, plain, first_handle, stubborn}

abbrev admitted_one : SessionPool machine
admitted_one = record new_pool { semaphore = 1 }

admission : Step machine new_pool [] admitted_one (admitted ∷ [])
unfolding from_config
admission = admit 1 refl

abbrev created_one : SessionPool machine
created_one =
    (launch_session machine (launches 7) (launch_options machine admitted_one plain) admitted_one).1

-- A session is created.
creation : Reach machine new_pool [] created_one (holding 0 ∷ [])
unfolding launch_session launch_options from_config
creation = next (next here admission) (launch [] [] (launches 7) plain)

Reach-permits_example :
    machine.available created_one.semaphore
      + live (strongs created_one.arcs)
      + permits_in_flight (holding 0 ∷ [])
    ≡ 2
Reach-permits_example = Reach-permits machine config creation

pool-Refines_example :
    ((j : ℕ) → ledger machine created_one j ≡ replay (events machine creation) j)
    × ((now instant id : ℕ)
        → Answers machine created_one id
            (replay (events machine creation) id)
            (connect_session machine now instant id created_one).0)
pool-Refines_example = pool-Refines machine config creation

abbrev sampled : ℕ → Option (ProcessSample ℕ)
sampled pid = some (record { pid = pid; rss_bytes = 2_000_000; cpu_percent = 3; process_count = 2 })

list_sessions-get_session_example :
    (length (list_sessions machine sampled 300 created_one) ≡ machine.count created_one.sessions)
    × ((j : ℕ)
        → find_info j (list_sessions machine sampled 300 created_one)
          ≡ get_session machine sampled 300 j created_one)
list_sessions-get_session_example = list_sessions-get_session machine sampled 300 config creation

abbrev measured : ℕ → Probe ℕ
measured id = record {
  instant = 40_000_000_000;
  checked_at = 40_000_000_000;
  sample = some (record { pid = 41; rss_bytes = 2_000_000; cpu_percent = 3; process_count = 2 });
  health = ok tt;
  child = stubborn;
}

maintenance_pass_recycles_example :
    Inv machine 2 (maintenance_pass machine measured created_one) (holding 0 ∷ [])
    × ((j : ℕ)
        → machine.get (maintenance_pass machine measured created_one).sessions j
          ≡ remains machine measured created_one j)
maintenance_pass_recycles_example = maintenance_pass_recycles machine config measured creation

-- The session is over the limit of its memory, so nothing of it remains.
nothing_remains : remains machine measured created_one 7 ≡ none
unfolding kill_reason_for launch_session launch_options from_config
nothing_remains = refl

count-le-max_example :
    (machine.count created_one.sessions ≤ live (strongs created_one.arcs))
    × (machine.count created_one.sessions ≤ 2)
count-le-max_example = count-le-max machine config creation

-- Its handle is dropped, and it is terminated.
abbrev dropped_one : SessionPool machine
dropped_one = drop_arc machine 0 created_one

abbrev ending_one : SessionPool machine
ending_one =
    begin_shutdown machine 0 "terminated by client"
      (record dropped_one { sessions = machine.remove dropped_one.sessions 7 })

abbrev ended_one : SessionPool machine
ended_one = finish_shutdown machine 0 "terminated by client" stubborn ending_one

ended : Reach machine new_pool [] ended_one []
unfolding launch_session launch_options from_config drop_arc
ended =
    next (next (next creation (let_go [] [] 0)) (terminate 7 0 "terminated by client" refl))
      (finish [] [] 0 "terminated by client" stubborn)

ended_empty : machine.entries ended_one.sessions ≡ []
unfolding launch_session launch_options from_config drop_arc begin_shutdown finish_shutdown
ended_empty = refl

-- The same id is connected to twice, and the first handle is dropped in between.
connected : (connect_session machine 200 200 7 created_one).0 ≡ ok first_handle
unfolding launch_session launch_options from_config connect_session
connected = refl

abbrev connected_one : SessionPool machine
connected_one = (connect_session machine 200 200 7 created_one).1

abbrev let_go_one : SessionPool machine
let_go_one = drop_arc machine 0 connected_one

still_there : machine.get let_go_one.sessions 7 ≡ some 0
unfolding launch_session launch_options from_config connect_session drop_arc
still_there = refl

connected_once_example : (connect_session machine 300 300 7 let_go_one).0 ≡ err (not_connectable 7)
connected_once_example =
    connected_once machine created_one let_go_one (holding 0 ∷ []) [] 200 200 7 first_handle 300 300
      7 connected (next here (let_go [] [] 0)) still_there
