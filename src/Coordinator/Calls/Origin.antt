-- ===== src/Coordinator/Calls/Origin.antt =====
-- Which call of a history a stored fixture comes from, with the worlds in which the history read
-- that call's plugin file and started its plugin.
use rules_systemtest.Prelude.{String, ◌≡◌, refl, subst, inl, All, All-middle}
use rules_systemtest.Prelude.Int.{ℤ}
use rules_systemtest.Result.{ok}
use rules_systemtest.Os.{Os}
use rules_systemtest.Proto.{FixtureResult}
use rules_systemtest.Fixture.{Codec, FixtureFingerprint, FixtureRecord}
use rules_systemtest.Coordinator.TakeLease.{Draws, Pending, Process, begin, provision}
use rules_systemtest.Coordinator.Preserved.{Reaches-IsValid}
use rules_systemtest.Coordinator.Stored.{Stored, default-Stored, release-Stored}
use rules_systemtest.Coordinator.Calls.{
  Service, Move, calls, finishes, gives_up, releases, Serves, starts, then,
}
use rules_systemtest.Coordinator.Calls.Begins.{begin-Tells}
use rules_systemtest.Coordinator.Calls.History.{Serves-Reaches}
use rules_systemtest.Coordinator.Calls.Stores.{begun-Stored, finish-Stored}
use rules_systemtest.Coordinator.Calls.Worlds.{
  Asked, Ran, Asked-later, Ran-later, HasBegun, Serves-HasBegun,
}

module _ (os : Os) (codec : Codec) (instance_dir : String) where
  open os use {World}

  -- The fixture comes from a call of the history: its plugin was started in the world `before`,
  -- where it gave the outputs, and the file of its plugin was read in the world `read`.
  pub record Comes {s : Service os} (h : Serves os codec instance_dir s) (fp : FixtureFingerprint)
      (r : FixtureRecord (Process os)) : Type 0 where
    pub call : Pending
    pub draws : Draws
    pub result : FixtureResult
    pub read : World
    pub before : World
    pub asked : Asked os codec instance_dir h call draws read
    pub ran : Ran os codec instance_dir h call draws before
    pub fingerprint : call.fingerprint ≡ fp
    pub provisioned : (provision os instance_dir call draws before).0 ≡ ok (r.plugin, result)
    pub outputs : r.outputs ≡ result.outputs

  other_slots-Comes :
      {s : Service os} (h : Serves os codec instance_dir s) (n : ℤ) (fp : FixtureFingerprint)
      (r : FixtureRecord (Process os))
      → Comes h fp r
      → Comes h fp (record r { used_slots = n })
  other_slots-Comes h n fp r c = record {
    call = c.call;
    draws = c.draws;
    result = c.result;
    read = c.read;
    before = c.before;
    asked = c.asked;
    ran = c.ran;
    fingerprint = c.fingerprint;
    provisioned = c.provisioned;
    outputs = c.outputs;
  }

  Comes-later :
      {s t : Service os} (h : Serves os codec instance_dir s) (m : Move os codec instance_dir s t)
      → Stored (Comes h) s.state
      → Stored (Comes (then h m)) s.state
  Comes-later h m all fp r found =
      let c = all fp r found in
      record {
        call = c.call;
        draws = c.draws;
        result = c.result;
        read = c.read;
        before = c.before;
        asked = Asked-later os codec instance_dir h c.call c.draws c.read m c.asked;
        ran = Ran-later os codec instance_dir h c.call c.draws c.before m c.ran;
        fingerprint = c.fingerprint;
        provisioned = c.provisioned;
        outputs = c.outputs;
      }

  -- Every fixture of the table comes from a call of the history.
  pub Serves-Comes :
      {s : Service os} (h : Serves os codec instance_dir s) → Stored (Comes h) s.state
  Serves-Comes starts = default-Stored (Comes starts)
  Serves-Comes (then {s} h (calls req draws w fresh fits)) =
      let (begun, t, _) = begin os codec req draws s.state w in
      begun-Stored os codec (Comes (then h (calls req draws w fresh fits)))
        (other_slots-Comes (then h (calls req draws w fresh fits))) req draws s.state t w begun
        (begin-Tells os codec req draws s.state w)
        (Comes-later h (calls req draws w fresh fits) (Serves-Comes h))
  Serves-Comes (then {s} h (finishes before after p draws w u e fresh)) =
      let (read, asked) =
        (All-middle (HasBegun os codec instance_dir h) before after (p, draws)
          (subst (All (HasBegun os codec instance_dir h)) e
            (Serves-HasBegun os codec instance_dir h))).0 in
      finish-Stored os (Comes (then h (finishes before after p draws w u e fresh))) p draws s.state
        u (provision os instance_dir p draws w).0
        (λ plugin result done. record {
          call = p;
          draws = draws;
          result = result;
          read = read;
          before = w;
          asked = asked;
          ran = inl (refl, refl, refl);
          fingerprint = refl;
          provisioned = done;
          outputs = refl;
        })
        (Comes-later h (finishes before after p draws w u e fresh) (Serves-Comes h))
  Serves-Comes (then h (gives_up before after p draws e)) =
      Comes-later h (gives_up before after p draws e) (Serves-Comes h)
  Serves-Comes (then {s} h (releases req)) =
      release-Stored (Comes (then h (releases req))) s.state req
        (Reaches-IsValid os codec (Serves-Reaches os codec instance_dir h))
        (λ fp r. other_slots-Comes (then h (releases req)) _ fp r)
        (Comes-later h (releases req) (Serves-Comes h))
