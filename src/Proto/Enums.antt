-- ===== src/Proto/Enums.antt =====
-- The enumerations of src/proto/systemtestrs/src/lib.rs: their discriminants, and the names of their
-- variants in the proto file.
use rules_systemtest.Prelude.{String, Option, none, some, ◌==◌, string_eq, nat_eq, if◌then◌else◌}
use rules_systemtest.Prelude.Int.{ℤ, pos, negsuc}

pub data LeaseStatus : Type 0 where
  unknown pending succeeded : LeaseStatus
  failed : LeaseStatus

-- `LeaseStatus as i32`
unfoldable pub lease_status_number : LeaseStatus → ℤ
lease_status_number unknown = pos 0
lease_status_number pending = pos 1
lease_status_number succeeded = pos 2
lease_status_number failed = pos 3

-- `LeaseStatus::try_from(i32)`: the variant with the discriminant.
unfoldable pub lease_status_try_from : ℤ → Option LeaseStatus
lease_status_try_from (pos n) =
    if n == 0
    then some unknown
    else if n == 1
    then some pending
    else if n == 2
    then some succeeded
    else if n == 3
    then some failed
    else none
lease_status_try_from (negsuc n) = none

unfoldable pub lease_status_as_str_name : LeaseStatus → String
lease_status_as_str_name unknown = "LEASE_STATUS_UNKNOWN"
lease_status_as_str_name pending = "PENDING"
lease_status_as_str_name succeeded = "SUCCEEDED"
lease_status_as_str_name failed = "FAILED"

unfoldable pub lease_status_from_str_name : String → Option LeaseStatus
lease_status_from_str_name value =
    if value == "LEASE_STATUS_UNKNOWN"
    then some unknown
    else if value == "PENDING"
    then some pending
    else if value == "SUCCEEDED"
    then some succeeded
    else if value == "FAILED"
    then some failed
    else none

pub data CreateProgressStatus : Type 0 where
  create_progress_unknown create_progress_enqueued create_progress_creating : CreateProgressStatus
  create_progress_running create_progress_succeeded create_progress_error : CreateProgressStatus

-- `CreateProgressStatus as i32`
unfoldable pub create_progress_status_number : CreateProgressStatus → ℤ
create_progress_status_number create_progress_unknown = pos 0
create_progress_status_number create_progress_enqueued = pos 1
create_progress_status_number create_progress_creating = pos 2
create_progress_status_number create_progress_running = pos 3
create_progress_status_number create_progress_succeeded = pos 4
create_progress_status_number create_progress_error = pos 5

-- `CreateProgressStatus::try_from(i32)`: the variant with the discriminant.
unfoldable pub create_progress_status_try_from : ℤ → Option CreateProgressStatus
create_progress_status_try_from (pos n) =
    if n == 0
    then some create_progress_unknown
    else if n == 1
    then some create_progress_enqueued
    else if n == 2
    then some create_progress_creating
    else if n == 3
    then some create_progress_running
    else if n == 4
    then some create_progress_succeeded
    else if n == 5
    then some create_progress_error
    else none
create_progress_status_try_from (negsuc n) = none

unfoldable pub create_progress_status_as_str_name : CreateProgressStatus → String
create_progress_status_as_str_name create_progress_unknown = "CREATE_PROGRESS_UNKNOWN"
create_progress_status_as_str_name create_progress_enqueued = "CREATE_PROGRESS_ENQUEUED"
create_progress_status_as_str_name create_progress_creating = "CREATE_PROGRESS_CREATING"
create_progress_status_as_str_name create_progress_running = "CREATE_PROGRESS_RUNNING"
create_progress_status_as_str_name create_progress_succeeded = "CREATE_PROGRESS_SUCCEEDED"
create_progress_status_as_str_name create_progress_error = "CREATE_PROGRESS_ERROR"

unfoldable pub create_progress_status_from_str_name : String → Option CreateProgressStatus
create_progress_status_from_str_name value =
    if value == "CREATE_PROGRESS_UNKNOWN"
    then some create_progress_unknown
    else if value == "CREATE_PROGRESS_ENQUEUED"
    then some create_progress_enqueued
    else if value == "CREATE_PROGRESS_CREATING"
    then some create_progress_creating
    else if value == "CREATE_PROGRESS_RUNNING"
    then some create_progress_running
    else if value == "CREATE_PROGRESS_SUCCEEDED"
    then some create_progress_succeeded
    else if value == "CREATE_PROGRESS_ERROR"
    then some create_progress_error
    else none

pub data FixtureElementStatus : Type 0 where
  fixture_element_unknown fixture_element_creating fixture_element_running : FixtureElementStatus
  fixture_element_error : FixtureElementStatus

-- `FixtureElementStatus as i32`
unfoldable pub fixture_element_status_number : FixtureElementStatus → ℤ
fixture_element_status_number fixture_element_unknown = pos 0
fixture_element_status_number fixture_element_creating = pos 1
fixture_element_status_number fixture_element_running = pos 2
fixture_element_status_number fixture_element_error = pos 3

-- `FixtureElementStatus::try_from(i32)`: the variant with the discriminant.
unfoldable pub fixture_element_status_try_from : ℤ → Option FixtureElementStatus
fixture_element_status_try_from (pos n) =
    if n == 0
    then some fixture_element_unknown
    else if n == 1
    then some fixture_element_creating
    else if n == 2
    then some fixture_element_running
    else if n == 3
    then some fixture_element_error
    else none
fixture_element_status_try_from (negsuc n) = none

unfoldable pub fixture_element_status_as_str_name : FixtureElementStatus → String
fixture_element_status_as_str_name fixture_element_unknown = "FIXTURE_ELEMENT_UNKNOWN"
fixture_element_status_as_str_name fixture_element_creating = "FIXTURE_ELEMENT_CREATING"
fixture_element_status_as_str_name fixture_element_running = "FIXTURE_ELEMENT_RUNNING"
fixture_element_status_as_str_name fixture_element_error = "FIXTURE_ELEMENT_ERROR"

unfoldable pub fixture_element_status_from_str_name : String → Option FixtureElementStatus
fixture_element_status_from_str_name value =
    if value == "FIXTURE_ELEMENT_UNKNOWN"
    then some fixture_element_unknown
    else if value == "FIXTURE_ELEMENT_CREATING"
    then some fixture_element_creating
    else if value == "FIXTURE_ELEMENT_RUNNING"
    then some fixture_element_running
    else if value == "FIXTURE_ELEMENT_ERROR"
    then some fixture_element_error
    else none
