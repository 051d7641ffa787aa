-- ===== src/Coordinator/Calls/Identity.antt =====
-- Whose outputs a client gets: those of a fixture with the identity of the one that it asked for.
use mathlib.Core.Path.{subst₂}
use rules_systemtest.Prelude.{String, ◌≡◌, refl, sym, ap, ◌∙◌, subst, ◌⊎◌, inl, inr, some}
use rules_systemtest.Result.{Result, ok, err, Status}
use rules_systemtest.Os.{Os}
use rules_systemtest.Proto.{
  binary_path, Bytes, BTreeMap, Value, TakeLeaseRequest, TakeLeaseResponse, FixtureResult,
}
use rules_systemtest.Fixture.{Codec}
use rules_systemtest.Fixture.Identity.{compute-ok}
use rules_systemtest.Fixture.Canonical.{
  SameIdentity, Collision, Ambiguity, fingerprint-SameIdentity,
}
use rules_systemtest.Coordinator.Memory.{State}
use rules_systemtest.Coordinator.Slots.{register}
use rules_systemtest.Coordinator.TakeLease.{
  Draws, Pending, Process, Begun, replied, provisioning, begin, provision, finish, continue_begun,
  take_lease,
}
use rules_systemtest.Coordinator.Calls.{Service, Serves}
use rules_systemtest.Coordinator.Calls.Begins.{IsComputed, Asks, Shares, Tells, begin-Tells}
use rules_systemtest.Coordinator.Calls.Worlds.{Asked, Ran, Asked-IsComputed}
use rules_systemtest.Coordinator.Calls.Origin.{Serves-Comes}

module _ (os : Os) (codec : Codec) where
  open os use {World}

  -- The calls ask for one fixture, with plugin files that held the same bytes when they were read,
  -- or the digest or the encoding has failed.
  abbrev pub AsksTheSame : Pending → World → Pending → World → Type 0
  AsksTheSame p w q u =
      (b : Bytes) × (c : Bytes) × ((os.read p.path w).0 ≡ ok b)
      × ((os.read q.path u).0 ≡ ok c)
      × (SameIdentity p.desc q.desc b c ⊎ (Collision codec ⊎ Ambiguity codec))

  IsComputed-AsksTheSame :
      (p q : Pending) (h : IsComputed os codec p) (k : IsComputed os codec q)
      → p.fingerprint ≡ q.fingerprint
      → AsksTheSame p h.before q k.before
  IsComputed-AsksTheSame p q h k same =
      let (b, b_read, b_print) =
        compute-ok os codec p.desc p.path p.path p.fingerprint h.before h.after h.named
          h.computed in
      let (c, c_read, c_print) =
        compute-ok os codec q.desc q.path q.path q.fingerprint k.before k.after k.named
          k.computed in
      (
        b,
        c,
        b_read,
        c_read,
        fingerprint-SameIdentity codec p.desc q.desc b c (sym b_print ∙ same ∙ c_print),
      )

  module _ (instance_dir : String) (req : TakeLeaseRequest) (w : World) (draws : Draws)
      {s : Service os} (h : Serves os codec instance_dir s) where
    -- The plugin of the call that the outputs come from was read and started where the history
    -- says, or by the call at hand: read in the world `w`, and started once its first part is over.
    abbrev pub IsOrigin : Pending → Pending → Draws → World → World → Type 0
    IsOrigin call origin origin_draws read before =
        (Asked os codec instance_dir h origin origin_draws read
          × Ran os codec instance_dir h origin origin_draws before)
        ⊎ ((origin ≡ call)
            × (origin_draws ≡ draws)
            × (read ≡ w)
            × (before ≡ (begin os codec req draws s.state w).2))

    -- A plugin that was provisioned for a call gave the outputs, and that call asked, in the world
    -- where its plugin's file was read, for what the request asks for in the world `w`.
    pub record IsServed (outputs : BTreeMap String Value) : Type 0 where
      pub call : Pending
      pub described : req.fixture ≡ some call.desc
      pub named : call.desc.plugin ≡ some (binary_path call.path)
      pub origin : Pending
      pub origin_draws : Draws
      pub read : World
      pub before : World
      pub is_origin : IsOrigin call origin origin_draws read before
      pub plugin : Process os
      pub result : FixtureResult
      pub provisioned :
          (provision os instance_dir origin origin_draws before).0 ≡ ok (plugin, result)
      pub outputs_lem : outputs ≡ result.outputs
      pub same : AsksTheSame call w origin read

    Shares-IsServed :
        (response : TakeLeaseResponse) (t : State (Process os))
        → Shares os codec req draws s.state w response t
        → IsServed response.outputs
    Shares-IsServed response t shares =
        let c =
          Serves-Comes os codec instance_dir h shares.call.fingerprint shares.fixture
            shares.found in
        let (computed, read) =
          Asked-IsComputed os codec instance_dir h c.call c.draws c.read c.asked in
        record {
          call = shares.call;
          described = shares.asked.described;
          named = shares.asked.fingerprinted.named;
          origin = c.call;
          origin_draws = c.draws;
          read = c.read;
          before = c.before;
          is_origin = inl (c.asked, c.ran);
          plugin = shares.fixture.plugin;
          result = c.result;
          provisioned = c.provisioned;
          outputs_lem = ap (λ (r : TakeLeaseResponse). r.outputs) shares.response_lem ∙ c.outputs;
          same =
              subst₂ (λ u v. AsksTheSame shares.call u c.call v) shares.asked.now read
                (IsComputed-AsksTheSame shares.call c.call shares.asked.fingerprinted computed
                  (sym c.fingerprint));
        }

    finish-IsServed :
        (p : Pending) (w' : World) (u : State (Process os))
        (outcome : Result Status (Process os × FixtureResult)) (response : TakeLeaseResponse)
        → (provision os instance_dir p draws (begin os codec req draws s.state w).2).0 ≡ outcome
        → Asks os codec req draws s.state w p
        → (finish os p draws outcome u w').0 ≡ ok response
        → IsServed response.outputs
    unfolding finish register
    finish-IsServed p w' u (err e) response done asks replies = absurd (cc replies)
    finish-IsServed p w' u (ok (plugin, result)) response done asks replies = record {
      call = p;
      described = asks.described;
      named = asks.fingerprinted.named;
      origin = p;
      origin_draws = draws;
      read = w;
      before = (begin os codec req draws s.state w).2;
      is_origin = inr (refl, refl, refl, refl);
      plugin = plugin;
      result = result;
      provisioned = done;
      outputs_lem = cc replies;
      same =
          subst (λ v. AsksTheSame p v p v) asks.now
            (IsComputed-AsksTheSame p p asks.fingerprinted asks.fingerprinted refl);
    }

    continue_begun-IsServed :
        (others : State (Process os) → State (Process os)) (begun : Begun os)
        (t : State (Process os)) (response : TakeLeaseResponse)
        → Tells os codec req draws s.state w begun t
        → (continue_begun os instance_dir draws others
            (begun, t, (begin os codec req draws s.state w).2)).0
          ≡ ok response
        → IsServed response.outputs
    continue_begun-IsServed others (replied (err e)) t response tells replies = absurd (cc replies)
    continue_begun-IsServed others (replied (ok r)) t response tells replies =
        let same : r ≡ response = cc replies in
        subst (λ (x : TakeLeaseResponse). IsServed x.outputs) same (Shares-IsServed r t tells)
    continue_begun-IsServed others (provisioning p) t response (_, asks) replies =
        let (outcome, w') =
          provision os instance_dir p draws (begin os codec req draws s.state w).2 in
        finish-IsServed p w' (others t) outcome response refl asks replies

    -- In each service that calls reach in any order, with fresh lease ids and limits that fit in
    -- an i64, whatever other handlers do meanwhile: the outputs that a take_lease grants are those
    -- that a plugin gave when it was provisioned for this call, or for one of the history that
    -- began in one world and finished with the plugin started in another; that call's description
    -- agrees with the request's in everything but the name and the plugin's path, and its plugin
    -- file, in the world in which it began, held the same bytes as the request's in the world of
    -- this call - or two different byte strings with one digest, or two different descriptions
    -- with one encoding, are found.
    pub take_lease-IsServed :
        (others : State (Process os) → State (Process os)) (w' : World) (t : State (Process os))
        (response : TakeLeaseResponse)
        → take_lease os codec instance_dir draws others req s.state w ≡ (ok response, t, w')
        → IsServed response.outputs
    unfolding take_lease
    take_lease-IsServed others w' t response replies =
        let (begun, u, _) = begin os codec req draws s.state w in
        continue_begun-IsServed others begun u response (begin-Tells os codec req draws s.state w)
          (ap {A = Result Status TakeLeaseResponse × State (Process os) × World} (λ x. x.0) replies)
