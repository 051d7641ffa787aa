-- ===== src/Lease.antt =====
-- Leases: src/coordinator/src/lease.rs.
use rules_systemtest.Prelude.{String, ◌≡◌, ◌↔◌, Bool, true, arith, Equality, ◌==◌, string_eq}
use rules_systemtest.Fixture.{FixtureFingerprint}

-- A random id is handed to `random` as the text of the UUID that was drawn.
pub record LeaseId : Type 0 where
  pub text : String

unfoldable pub random : String → LeaseId
random uuid = record { text = uuid }

unfoldable pub into_string : LeaseId → String
into_string id = id.text

-- `LeaseId::from`
unfoldable pub from : String → LeaseId
from s = record { text = s }

abbrev pub lease_id_beq : LeaseId → LeaseId → Bool
lease_id_beq a b = a.text == b.text

pub lease_id_beq_iff : (a b : LeaseId) → (lease_id_beq a b ≡ true) ↔ (a ≡ b)
lease_id_beq_iff a b = ground (arith, string_eq.beq_iff a.text b.text)

instance abbrev pub lease_id_eq : Equality LeaseId
lease_id_eq = record { beq = lease_id_beq; beq_iff = lease_id_beq_iff }

pub record LeaseRecord : Type 0 where
  pub fingerprint : FixtureFingerprint
