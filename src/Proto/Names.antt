-- ===== src/Proto/Names.antt =====
-- The names and the discriminants of the enumerations of src/proto/systemtestrs/src/lib.rs.
use rules_systemtest.Prelude.{String, ◌≡◌, refl, ap, ◌∙◌, ◌↔◌, Option, some, arith, string_eq}
use rules_systemtest.Prelude.Int.{ℤ, pos, negsuc}
use rules_systemtest.Proto.Enums.{
  LeaseStatus, CreateProgressStatus, FixtureElementStatus, lease_status_number,
  lease_status_try_from, lease_status_as_str_name, lease_status_from_str_name,
  create_progress_status_number, create_progress_status_try_from,
  create_progress_status_as_str_name, create_progress_status_from_str_name,
  fixture_element_status_number, fixture_element_status_try_from,
  fixture_element_status_as_str_name, fixture_element_status_from_str_name,
}

lease_status_of_name :
    (v : String) (s : LeaseStatus)
    → lease_status_from_str_name v ≡ some s
    → v ≡ lease_status_as_str_name s
unfolding lease_status_from_str_name lease_status_as_str_name
lease_status_of_name v s h = ground (
  arith,
  string_eq.beq_iff v "LEASE_STATUS_UNKNOWN",
  string_eq.beq_iff v "PENDING",
  string_eq.beq_iff v "SUCCEEDED",
  string_eq.beq_iff v "FAILED",
)

lease_status_self :
    (s : LeaseStatus) → lease_status_from_str_name (lease_status_as_str_name s) ≡ some s
unfolding lease_status_from_str_name lease_status_as_str_name
lease_status_self LeaseStatus.unknown = refl
lease_status_self LeaseStatus.pending = refl
lease_status_self LeaseStatus.succeeded = refl
lease_status_self LeaseStatus.failed = refl

lease_status_of_number :
    (n : ℤ) (s : LeaseStatus) → lease_status_try_from n ≡ some s → n ≡ lease_status_number s
unfolding lease_status_try_from lease_status_number
lease_status_of_number (pos n) s h = ground arith
lease_status_of_number (negsuc n) s h = cc

lease_status_number_self :
    (s : LeaseStatus) → lease_status_try_from (lease_status_number s) ≡ some s
unfolding lease_status_try_from lease_status_number
lease_status_number_self LeaseStatus.unknown = refl
lease_status_number_self LeaseStatus.pending = refl
lease_status_number_self LeaseStatus.succeeded = refl
lease_status_number_self LeaseStatus.failed = refl

create_progress_status_of_name :
    (v : String) (s : CreateProgressStatus)
    → create_progress_status_from_str_name v ≡ some s
    → v ≡ create_progress_status_as_str_name s
unfolding create_progress_status_from_str_name create_progress_status_as_str_name
create_progress_status_of_name v s h = ground (
  arith,
  string_eq.beq_iff v "CREATE_PROGRESS_UNKNOWN",
  string_eq.beq_iff v "CREATE_PROGRESS_ENQUEUED",
  string_eq.beq_iff v "CREATE_PROGRESS_CREATING",
  string_eq.beq_iff v "CREATE_PROGRESS_RUNNING",
  string_eq.beq_iff v "CREATE_PROGRESS_SUCCEEDED",
  string_eq.beq_iff v "CREATE_PROGRESS_ERROR",
)

create_progress_status_self :
    (s : CreateProgressStatus)
    → create_progress_status_from_str_name (create_progress_status_as_str_name s) ≡ some s
unfolding create_progress_status_from_str_name create_progress_status_as_str_name
create_progress_status_self CreateProgressStatus.create_progress_unknown = refl
create_progress_status_self CreateProgressStatus.create_progress_enqueued = refl
create_progress_status_self CreateProgressStatus.create_progress_creating = refl
create_progress_status_self CreateProgressStatus.create_progress_running = refl
create_progress_status_self CreateProgressStatus.create_progress_succeeded = refl
create_progress_status_self CreateProgressStatus.create_progress_error = refl

create_progress_status_of_number :
    (n : ℤ) (s : CreateProgressStatus)
    → create_progress_status_try_from n ≡ some s
    → n ≡ create_progress_status_number s
unfolding create_progress_status_try_from create_progress_status_number
create_progress_status_of_number (pos n) s h = ground arith
create_progress_status_of_number (negsuc n) s h = cc

create_progress_status_number_self :
    (s : CreateProgressStatus)
    → create_progress_status_try_from (create_progress_status_number s) ≡ some s
unfolding create_progress_status_try_from create_progress_status_number
create_progress_status_number_self CreateProgressStatus.create_progress_unknown = refl
create_progress_status_number_self CreateProgressStatus.create_progress_enqueued = refl
create_progress_status_number_self CreateProgressStatus.create_progress_creating = refl
create_progress_status_number_self CreateProgressStatus.create_progress_running = refl
create_progress_status_number_self CreateProgressStatus.create_progress_succeeded = refl
create_progress_status_number_self CreateProgressStatus.create_progress_error = refl

fixture_element_status_of_name :
    (v : String) (s : FixtureElementStatus)
    → fixture_element_status_from_str_name v ≡ some s
    → v ≡ fixture_element_status_as_str_name s
unfolding fixture_element_status_from_str_name fixture_element_status_as_str_name
fixture_element_status_of_name v s h = ground (
  arith,
  string_eq.beq_iff v "FIXTURE_ELEMENT_UNKNOWN",
  string_eq.beq_iff v "FIXTURE_ELEMENT_CREATING",
  string_eq.beq_iff v "FIXTURE_ELEMENT_RUNNING",
  string_eq.beq_iff v "FIXTURE_ELEMENT_ERROR",
)

fixture_element_status_self :
    (s : FixtureElementStatus)
    → fixture_element_status_from_str_name (fixture_element_status_as_str_name s) ≡ some s
unfolding fixture_element_status_from_str_name fixture_element_status_as_str_name
fixture_element_status_self FixtureElementStatus.fixture_element_unknown = refl
fixture_element_status_self FixtureElementStatus.fixture_element_creating = refl
fixture_element_status_self FixtureElementStatus.fixture_element_running = refl
fixture_element_status_self FixtureElementStatus.fixture_element_error = refl

fixture_element_status_of_number :
    (n : ℤ) (s : FixtureElementStatus)
    → fixture_element_status_try_from n ≡ some s
    → n ≡ fixture_element_status_number s
unfolding fixture_element_status_try_from fixture_element_status_number
fixture_element_status_of_number (pos n) s h = ground arith
fixture_element_status_of_number (negsuc n) s h = cc

fixture_element_status_number_self :
    (s : FixtureElementStatus)
    → fixture_element_status_try_from (fixture_element_status_number s) ≡ some s
unfolding fixture_element_status_try_from fixture_element_status_number
fixture_element_status_number_self FixtureElementStatus.fixture_element_unknown = refl
fixture_element_status_number_self FixtureElementStatus.fixture_element_creating = refl
fixture_element_status_number_self FixtureElementStatus.fixture_element_running = refl
fixture_element_status_number_self FixtureElementStatus.fixture_element_error = refl

-- The text names the variant exactly when it parses to it, and the number is its discriminant exactly
-- when it converts to it.
abbrev pub IsCoded :
    {S : Type 0}
    → (String → Option S)
    → (S → String)
    → (ℤ → Option S)
    → (S → ℤ)
    → String
    → ℤ
    → S
    → Type 0
IsCoded from_str_name as_str_name try_from number v n s =
    ((from_str_name v ≡ some s) ↔ (v ≡ as_str_name s)) × ((try_from n ≡ some s) ↔ (n ≡ number s))

-- For each of LeaseStatus, CreateProgressStatus and FixtureElementStatus: a text is the name of a
-- variant exactly when it parses to that variant, and a number is its discriminant exactly when it
-- converts to it.
pub enum-IsCoded :
    (v : String) (n : ℤ) (l : LeaseStatus) (c : CreateProgressStatus) (e : FixtureElementStatus)
    → IsCoded lease_status_from_str_name lease_status_as_str_name lease_status_try_from
        lease_status_number v n l
      × IsCoded create_progress_status_from_str_name create_progress_status_as_str_name
          create_progress_status_try_from create_progress_status_number v n c
      × IsCoded fixture_element_status_from_str_name fixture_element_status_as_str_name
          fixture_element_status_try_from fixture_element_status_number v n e
enum-IsCoded v n l c e = (
  (
    (lease_status_of_name v l, λ p. ap lease_status_from_str_name p ∙ lease_status_self l),
    (lease_status_of_number n l, λ p. ap lease_status_try_from p ∙ lease_status_number_self l),
  ),
  (
    (
      create_progress_status_of_name v c,
      λ p. ap create_progress_status_from_str_name p ∙ create_progress_status_self c,
    ),
    (
      create_progress_status_of_number n c,
      λ p. ap create_progress_status_try_from p ∙ create_progress_status_number_self c,
    ),
  ),
  (
    (
      fixture_element_status_of_name v e,
      λ p. ap fixture_element_status_from_str_name p ∙ fixture_element_status_self e,
    ),
    (
      fixture_element_status_of_number n e,
      λ p. ap fixture_element_status_try_from p ∙ fixture_element_status_number_self e,
    ),
  ),
)
