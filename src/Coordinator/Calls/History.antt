-- ===== src/Coordinator/Calls/History.antt =====
-- The histories of calls as histories of the steps of Coordinator/Step, and the calls that wait.
use rules_systemtest.Prelude.{String, ◌≡◌, subst, some, ◌∷◌, ◌++◌, List, All, All-middle, Option}
use rules_systemtest.Os.{Os}
use rules_systemtest.Proto.{FixtureDescription, TakeLeaseRequest}
use rules_systemtest.Fixture.{Codec}
use rules_systemtest.Coordinator.Memory.{State, default}
use rules_systemtest.Coordinator.TakeLease.{
  Draws, Pending, Process, Begun, replied, provisioning, begin, provision,
}
use rules_systemtest.Coordinator.Step.{FitsI64, Reaches, here, next, Step}
use rules_systemtest.Coordinator.Calls.{
  Waiting, Service, FitsDescription, queue, Move, calls, finishes, gives_up, releases, Serves,
  starts, then,
}
use rules_systemtest.Coordinator.Calls.Begins.{IsComputed, Tells, begin-Tells}

module _ (os : Os) (codec : Codec) where
  -- A call that waits has the fingerprint of its description, and asks for as many slots as fit.
  abbrev pub IsWaiting : Waiting → Type 0
  IsWaiting (p, draws) = IsComputed os codec p × FitsI64 p.desc.sharing

  asked-FitsI64 :
      (fixture : Option FixtureDescription) (d : FixtureDescription)
      → fixture ≡ some d
      → FitsDescription fixture
      → FitsI64 d.sharing
  asked-FitsI64 fixture d e fits = subst FitsDescription e fits

  queue-IsWaiting :
      (req : TakeLeaseRequest) (draws : Draws) (s t : State (Process os)) (w : os.World)
      (begun : Begun os) (waiting : List Waiting)
      → Tells os codec req draws s w begun t
      → FitsDescription req.fixture
      → All IsWaiting waiting
      → All IsWaiting (queue os begun draws waiting)
  queue-IsWaiting req draws s t w (replied r) waiting tells fits all = all
  queue-IsWaiting req draws s t w (provisioning p) waiting (_, asks) fits all =
      ((asks.fingerprinted, asked-FitsI64 req.fixture p.desc asks.described fits), all)

module _ (os : Os) (codec : Codec) (instance_dir : String) where
  Move-IsWaiting :
      {s t : Service os}
      → Move os codec instance_dir s t
      → All (IsWaiting os codec) s.waiting
      → All (IsWaiting os codec) t.waiting
  Move-IsWaiting {s} (calls req draws w fresh fits) all =
      let (begun, t, _) = begin os codec req draws s.state w in
      queue-IsWaiting os codec req draws s.state t w begun s.waiting
        (begin-Tells os codec req draws s.state w) fits all
  Move-IsWaiting (finishes before after p draws w u e fresh) all =
      (All-middle (IsWaiting os codec) before after (p, draws)
        (subst (All (IsWaiting os codec)) e all)).1
  Move-IsWaiting (gives_up before after p draws e) all =
      (All-middle (IsWaiting os codec) before after (p, draws)
        (subst (All (IsWaiting os codec)) e all)).1
  Move-IsWaiting (releases req) all = all

  pub Serves-IsWaiting :
      {s : Service os} → Serves os codec instance_dir s → All (IsWaiting os codec) s.waiting
  Serves-IsWaiting starts = tt
  Serves-IsWaiting (then h m) = Move-IsWaiting m (Serves-IsWaiting h)

  -- A call that finishes is one of those that wait.
  pub finished-IsWaiting :
      {s : Service os} (before after : List Waiting) (p : Pending) (draws : Draws)
      → Serves os codec instance_dir s
      → s.waiting ≡ before ++ (p, draws) ∷ after
      → IsWaiting os codec (p, draws)
  finished-IsWaiting before after p draws h e =
      (All-middle (IsWaiting os codec) before after (p, draws)
        (subst (All (IsWaiting os codec)) e (Serves-IsWaiting h))).0

  -- A history of calls is a history of the steps that their locked parts are.
  pub Serves-Reaches :
      {s : Service os} → Serves os codec instance_dir s → Reaches os codec default s.state
  Serves-Reaches starts = here
  Serves-Reaches (then h (calls req draws w fresh fits)) =
      next (Serves-Reaches h) (Step.begins req draws w fresh)
  Serves-Reaches (then h (finishes before after p draws w u e fresh)) = next (Serves-Reaches h) (
      Step.finishes p draws (provision os instance_dir p draws w).0 u fresh
        (finished-IsWaiting before after p draws h e).1)
  Serves-Reaches (then h (gives_up before after p draws e)) = Serves-Reaches h
  Serves-Reaches (then h (releases req)) = next (Serves-Reaches h) (Step.releases req)
