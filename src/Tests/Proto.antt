-- ===== src/Tests/Proto.antt =====
-- The enumerations at some of their names.
use rules_systemtest.Prelude.{◌≡◌, none, refl}
use rules_systemtest.Prelude.Int.{pos}
use rules_systemtest.Proto.{
  succeeded, lease_status_from_str_name, lease_status_as_str_name, lease_status_try_from,
  lease_status_number, create_progress_error, create_progress_status_from_str_name,
  create_progress_status_as_str_name, create_progress_status_try_from,
  create_progress_status_number, fixture_element_running, fixture_element_status_from_str_name,
  fixture_element_status_as_str_name, fixture_element_status_try_from,
  fixture_element_status_number,
}
use rules_systemtest.Proto.Names.{IsCoded, enum-IsCoded}

lower_case_name : lease_status_from_str_name "succeeded" ≡ none
unfolding lease_status_from_str_name
lower_case_name = refl

enum-IsCoded_example :
    IsCoded lease_status_from_str_name lease_status_as_str_name lease_status_try_from
      lease_status_number "SUCCEEDED"
      (pos 2)
      succeeded
    × IsCoded create_progress_status_from_str_name create_progress_status_as_str_name
        create_progress_status_try_from create_progress_status_number "SUCCEEDED"
        (pos 2)
        create_progress_error
    × IsCoded fixture_element_status_from_str_name fixture_element_status_as_str_name
        fixture_element_status_try_from fixture_element_status_number "SUCCEEDED"
        (pos 2)
        fixture_element_running
enum-IsCoded_example =
    enum-IsCoded "SUCCEEDED" (pos 2) succeeded create_progress_error fixture_element_running
