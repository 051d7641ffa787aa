-- ===== src/Coordinator/Calls/Worlds.antt =====
-- Which calls of a history began, waited and finished, and in which worlds.
use rules_systemtest.Prelude.{
  String, ◌≡◌, refl, subst, ◌∙◌, ◌⊎◌, inl, inr, List, [], ◌∷◌, ◌++◌, All, All-middle,
}
use rules_systemtest.Os.{Os}
use rules_systemtest.Proto.{TakeLeaseRequest}
use rules_systemtest.Fixture.{Codec}
use rules_systemtest.Coordinator.TakeLease.{Draws, Pending, Begun, replied, provisioning, begin}
use rules_systemtest.Coordinator.Step.{IsFresh}
use rules_systemtest.Coordinator.Calls.{
  Waiting, Service, queue, FitsDescription, Move, calls, finishes, gives_up, releases, Serves,
  starts, then,
}
use rules_systemtest.Coordinator.Calls.Begins.{IsComputed, Tells, begin-Tells}

module _ (os : Os) (codec : Codec) (instance_dir : String) where
  open os use {World}

  -- In the history, a call with these draws began in the world, and waits for its plugin as `p`.
  abbrev pub Asked :
      {s : Service os} → Serves os codec instance_dir s → Pending → Draws → World → Type 0
  Asked starts p d u = ⊥
  Asked (then {s} h (calls req draws w _ _)) p d u =
      (((begin os codec req draws s.state w).0 ≡ provisioning p) × (draws ≡ d) × (w ≡ u))
      ⊎ Asked h p d u
  Asked (then h (finishes _ _ _ _ _ _ _ _)) p d u = Asked h p d u
  Asked (then h (gives_up _ _ _ _ _)) p d u = Asked h p d u
  Asked (then h (releases _)) p d u = Asked h p d u

  -- In the history, the plugin of the call was started in the world, and the call finished.
  abbrev pub Ran :
      {s : Service os} → Serves os codec instance_dir s → Pending → Draws → World → Type 0
  Ran starts p d u = ⊥
  Ran (then h (calls _ _ _ _ _)) p d u = Ran h p d u
  Ran (then h (finishes _ _ q draws w _ _ _)) p d u =
      ((q ≡ p) × (draws ≡ d) × (w ≡ u)) ⊎ Ran h p d u
  Ran (then h (gives_up _ _ _ _ _)) p d u = Ran h p d u
  Ran (then h (releases _)) p d u = Ran h p d u

  pub Asked-later :
      {s t : Service os} (h : Serves os codec instance_dir s) (p : Pending) (d : Draws) (u : World)
      (m : Move os codec instance_dir s t)
      → Asked h p d u
      → Asked (then h m) p d u
  Asked-later h p d u (calls _ _ _ _ _) asked = inr asked
  Asked-later h p d u (finishes _ _ _ _ _ _ _ _) asked = asked
  Asked-later h p d u (gives_up _ _ _ _ _) asked = asked
  Asked-later h p d u (releases _) asked = asked

  pub Ran-later :
      {s t : Service os} (h : Serves os codec instance_dir s) (p : Pending) (d : Draws) (u : World)
      (m : Move os codec instance_dir s t)
      → Ran h p d u
      → Ran (then h m) p d u
  Ran-later h p d u (calls _ _ _ _ _) ran = ran
  Ran-later h p d u (finishes _ _ _ _ _ _ _ _) ran = inr ran
  Ran-later h p d u (gives_up _ _ _ _ _) ran = ran
  Ran-later h p d u (releases _) ran = ran

  -- The fingerprint of a call is that of its description in the world in which it began.
  pub Asked-IsComputed :
      {s : Service os} (h : Serves os codec instance_dir s) (p : Pending) (d : Draws) (u : World)
      → Asked h p d u
      → (c : IsComputed os codec p) × (c.before ≡ u)
  Asked-IsComputed starts p d u asked = elim asked [ ]
  Asked-IsComputed (then {s} h (calls req draws w _ _)) p d u (inl (waits, _, now)) =
      let (_, asks) =
        subst (λ b. Tells os codec req draws s.state w b (begin os codec req draws s.state w).1)
          waits (begin-Tells os codec req draws s.state w) in
      (asks.fingerprinted, asks.now ∙ now)
  Asked-IsComputed (then h (calls _ _ _ _ _)) p d u (inr asked) = Asked-IsComputed h p d u asked
  Asked-IsComputed (then h (finishes _ _ _ _ _ _ _ _)) p d u asked = Asked-IsComputed h p d u asked
  Asked-IsComputed (then h (gives_up _ _ _ _ _)) p d u asked = Asked-IsComputed h p d u asked
  Asked-IsComputed (then h (releases _)) p d u asked = Asked-IsComputed h p d u asked

  -- A call that waits has begun.
  abbrev pub HasBegun : {s : Service os} → Serves os codec instance_dir s → Waiting → Type 0
  HasBegun h (p, d) = (u : World) × Asked h p d u

  HasBegun-later :
      {s t : Service os} (h : Serves os codec instance_dir s) (m : Move os codec instance_dir s t)
      (waiting : List Waiting)
      → All (HasBegun h) waiting
      → All (HasBegun (then h m)) waiting
  HasBegun-later h m [] all = tt
  HasBegun-later h m ((p, d) ∷ waiting) ((u, asked), all) =
      ((u, Asked-later h p d u m asked), HasBegun-later h m waiting all)

  queue-HasBegun :
      {s : Service os} (h : Serves os codec instance_dir s) (req : TakeLeaseRequest) (draws : Draws)
      (w : World) (fresh : IsFresh s.state draws) (fits : FitsDescription req.fixture)
      (b : Begun os)
      → (begin os codec req draws s.state w).0 ≡ b
      → All (HasBegun (then h (calls req draws w fresh fits))) s.waiting
      → All (HasBegun (then h (calls req draws w fresh fits))) (queue os b draws s.waiting)
  queue-HasBegun h req draws w fresh fits (replied r) begun all = all
  queue-HasBegun h req draws w fresh fits (provisioning p) begun all =
      ((w, inl (begun, refl, refl)), all)

  pub Serves-HasBegun :
      {s : Service os} (h : Serves os codec instance_dir s) → All (HasBegun h) s.waiting
  Serves-HasBegun starts = tt
  Serves-HasBegun (then {s} h (calls req draws w fresh fits)) =
      queue-HasBegun h req draws w fresh fits (begin os codec req draws s.state w).0 refl
        (HasBegun-later h (calls req draws w fresh fits) s.waiting (Serves-HasBegun h))
  Serves-HasBegun (then {s} h (finishes before after p draws w u e fresh)) =
      HasBegun-later h (finishes before after p draws w u e fresh) (before ++ after)
        (All-middle (HasBegun h) before after (p, draws)
          (subst (All (HasBegun h)) e (Serves-HasBegun h))).1
  Serves-HasBegun (then {s} h (gives_up before after p draws e)) =
      HasBegun-later h (gives_up before after p draws e) (before ++ after)
        (All-middle (HasBegun h) before after (p, draws)
          (subst (All (HasBegun h)) e (Serves-HasBegun h))).1
  Serves-HasBegun (then {s} h (releases req)) =
      HasBegun-later h (releases req) s.waiting (Serves-HasBegun h)
