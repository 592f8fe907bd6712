-- ===== src/Tests/Pool.antt =====
-- Runs of the pool at concrete configurations and requests.
use eiger.Common.{◌≡◌, refl, ok, err, if◌then◌else◌, ◌||◌}
use eiger.Text.{append, is_empty_str, trim}
use eiger.Pool.{browser}
use eiger.Pool.Profile.{ends_with_slash, profile_path}
use eiger.Pool.Profile.Safety.{IsDirectoryName, profile_path_safe}
use eiger.Pool.State.{from_config}
use eiger.Pool.Create.{create_session}
use eiger.Pool.Create.Outcomes.{IsUntouched, IsCreated, create_session_err, create_session_ok}
use eiger.Pool.Sessions.{readiness}
use eiger.Pool.Readiness.{Reports, create_session-Reports}
use eiger.Browser.{missing_executable}
use eiger.Tests.Machine.{machine}
use eiger.Tests.Fixture.{new_pool, one, launches, fails, plain, with_profile_id, first_handle}

launch_fails : (create_session machine fails plain one).0 ≡ err (browser missing_executable)
unfolding create_session from_config
launch_fails = refl

create_session_err_example : IsUntouched machine one (create_session machine fails plain one).1
create_session_err_example =
    create_session_err machine fails plain one (browser missing_executable) launch_fails

first_created :
    (create_session machine (launches 7) (with_profile_id "work") new_pool).0 ≡ ok first_handle
unfolding create_session from_config profile_path
first_created = refl

create_session_ok_example :
    IsCreated machine
      (launches 7)
      new_pool
      (create_session machine (launches 7) (with_profile_id "work") new_pool).1
      first_handle
unfolding from_config
create_session_ok_example =
    create_session_ok machine (launches 7) (with_profile_id "work") new_pool first_handle refl
      first_created

work_profile : profile_path "/profiles" " work " ≡ ok "/profiles/work"
unfolding profile_path
work_profile = refl

profile_path_safe_example :
    IsDirectoryName (trim " work ")
    × ("/profiles/work" ≡ (
        if is_empty_str "/profiles" || ends_with_slash "/profiles"
        then append "/profiles" (trim " work ")
        else append "/profiles" (append "/" (trim " work "))))
profile_path_safe_example = profile_path_safe "/profiles" " work " work_profile

create_session-Reports_example :
    Reports
      (readiness machine one)
      (create_session machine fails plain one).0
      (readiness machine (create_session machine fails plain one).1)
create_session-Reports_example = create_session-Reports machine fails plain one
