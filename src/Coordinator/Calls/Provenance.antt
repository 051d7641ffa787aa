-- ===== src/Coordinator/Calls/Provenance.antt =====
-- Where the fixtures come from: each was provisioned for a call with its fingerprint.
use rules_systemtest.Prelude.{String, ◌≡◌, refl, ap}
use rules_systemtest.Prelude.Int.{ℤ}
use rules_systemtest.Result.{Result, ok, Status}
use rules_systemtest.Os.{Os}
use rules_systemtest.Proto.{FixtureResult}
use rules_systemtest.Fixture.{Codec, FixtureFingerprint, FixtureRecord}
use rules_systemtest.Coordinator.Slots.{or_default}
use rules_systemtest.Coordinator.TakeLease.{Draws, Pending, Process, begin, provision}
use rules_systemtest.Coordinator.Preserved.{Reaches-IsValid}
use rules_systemtest.Coordinator.Stored.{Stored, default-Stored, release-Stored}
use rules_systemtest.Coordinator.Calls.{
  Service, calls, finishes, gives_up, releases, Serves, starts, then,
}
use rules_systemtest.Coordinator.Calls.Begins.{IsComputed, begin-Tells}
use rules_systemtest.Coordinator.Calls.Stores.{begun-Stored, finish-Stored}
use rules_systemtest.Coordinator.Calls.History.{Serves-Reaches, finished-IsWaiting}

module _ (os : Os) (codec : Codec) (instance_dir : String) where
  open os use {World}

  -- The fixture was provisioned, by the plugin that its record keeps, for a call with its
  -- fingerprint, and its record has the outputs of the plugin's result, the call's policy and the
  -- call's client.
  pub record IsProvisioned (fp : FixtureFingerprint) (r : FixtureRecord (Process os)) : Type 0 where
    pub call : Pending
    pub draws : Draws
    pub result : FixtureResult
    pub before : World
    pub after : World
    pub fingerprinted : IsComputed os codec call
    pub fingerprint : call.fingerprint ≡ fp
    pub provisioned : provision os instance_dir call draws before ≡ (ok (r.plugin, result), after)
    pub outputs : r.outputs ≡ result.outputs
    pub sharing : r.sharing ≡ or_default call.desc.sharing
    pub creator : r.creating_client_id ≡ call.client_id

  -- The slots in use are no part of it.
  other_slots-IsProvisioned :
      (n : ℤ) (fp : FixtureFingerprint) (r : FixtureRecord (Process os))
      → IsProvisioned fp r
      → IsProvisioned fp (record r { used_slots = n })
  other_slots-IsProvisioned n fp r h = record {
    call = h.call;
    draws = h.draws;
    result = h.result;
    before = h.before;
    after = h.after;
    fingerprinted = h.fingerprinted;
    fingerprint = h.fingerprint;
    provisioned = h.provisioned;
    outputs = h.outputs;
    sharing = h.sharing;
    creator = h.creator;
  }

  -- In each service that calls reach in any order, with fresh lease ids and limits that fit in an
  -- i64, each fixture of the table was provisioned, by the plugin that its record keeps, for a
  -- call with its fingerprint, and its record has the outputs of the plugin's result, the call's
  -- policy and the call's client.
  pub Serves-IsProvisioned :
      {s : Service os} → Serves os codec instance_dir s → Stored IsProvisioned s.state
  Serves-IsProvisioned starts = default-Stored IsProvisioned
  Serves-IsProvisioned (then {s} h (calls req draws w fresh fits)) =
      let (begun, t, _) = begin os codec req draws s.state w in
      begun-Stored os codec IsProvisioned other_slots-IsProvisioned req draws s.state t w begun
        (begin-Tells os codec req draws s.state w) (Serves-IsProvisioned h)
  Serves-IsProvisioned (then {s} h (finishes before after p draws w u e fresh)) =
      finish-Stored os IsProvisioned p draws s.state u (provision os instance_dir p draws w).0
        (λ plugin result done. record {
          call = p;
          draws = draws;
          result = result;
          before = w;
          after = (provision os instance_dir p draws w).1;
          fingerprinted = (finished-IsWaiting os codec instance_dir before after p draws h e).0;
          fingerprint = refl;
          provisioned =
              ap {B = Result Status (Process os × FixtureResult) × World}
                (λ o. (o, (provision os instance_dir p draws w).1)) done;
          outputs = refl;
          sharing = refl;
          creator = refl;
        })
        (Serves-IsProvisioned h)
  Serves-IsProvisioned (then h (gives_up before after p draws e)) = Serves-IsProvisioned h
  Serves-IsProvisioned (then {s} h (releases req)) =
      release-Stored IsProvisioned s.state req
        (Reaches-IsValid os codec (Serves-Reaches os codec instance_dir h))
        (λ fp r. other_slots-IsProvisioned _ fp r) (Serves-IsProvisioned h)
