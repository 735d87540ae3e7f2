-- ===== src/Daemon/Loop/Selection.antt =====
-- Which issue of the tracker a run of agent-platform/daemon/loop.py takes.
use cortxt.Prelude.{
  String, ◌≡◌, ◌≢◌, refl, Bool, true, false, Option, none, some, List, [], ◌∷◌, arith, contains,
  subst, if◌then◌else◌,
}
use mathlib.Core.Option.{some-injective}
use cortxt.Daemon.Loop.{
  World, Setup, Issue, issue_id_of, task_tags, when_provided, consider, Candidate, first_candidate,
}

module _ (setup : Setup) (w : World) (claimed : List String) where
  -- The candidate is the issue under its id, that is not claimed, with its task shapes and the engine
  -- that the router gives for them, and the engine has an adapter.
  pub record IsRouted (i : Issue) (c : Candidate) : Type 0 where
    pub issue : c.issue ≡ i
    pub named : c.issue_id ≡ issue_id_of setup i
    pub unclaimed : contains (issue_id_of setup i) claimed ≡ false
    pub tags : c.tags ≡ task_tags i.labels setup.shapes
    pub shaped : c.tags ≢ []
    pub choice : c.choice ≡ setup.route c.tags
    pub provided : w.has_provider c.choice.engine_id ≡ true

  -- The issue is claimed, has no task shape, or is routed to an engine with no adapter.
  pub data IsPassedOver (i : Issue) : Type 0 where
    is_claimed : contains (issue_id_of setup i) claimed ≡ true → IsPassedOver i
    has_no_shape : task_tags i.labels setup.shapes ≡ [] → IsPassedOver i
    has_no_adapter :
        w.has_provider (setup.route (task_tags i.labels setup.shapes)).engine_id ≡ false
        → IsPassedOver i

  -- The candidate is the first of the issues that is not passed over.
  pub data IsFirst (c : Candidate) : List Issue → Type 0 where
    is_first : (i : Issue) {later : List Issue} → IsRouted i c → IsFirst c (i ∷ later)
    is_later :
        (i : Issue) {later : List Issue} → IsPassedOver i → IsFirst c later → IsFirst c (i ∷ later)

  abbrev Considered : Issue → Option Candidate → Type 0
  Considered i none = IsPassedOver i
  Considered i (some c) = IsRouted i c

  consider_lem : (i : Issue) → Considered i (consider setup w claimed i)
  unfolding consider
  consider_lem i =
      unclaimed (contains (issue_id_of setup i) claimed) refl (task_tags i.labels setup.shapes) refl
    where
      candidate : List String → Candidate
      candidate tags = record {
        issue = i;
        issue_id = issue_id_of setup i;
        tags = tags;
        choice = setup.route tags;
      }

      shaped :
          (t : String) (ts : List String) (b : Bool)
          → w.has_provider (setup.route (t ∷ ts)).engine_id ≡ b
          → contains (issue_id_of setup i) claimed ≡ false
          → task_tags i.labels setup.shapes ≡ t ∷ ts
          → Considered i (if b then some (candidate (t ∷ ts)) else none)
      shaped t ts true has free same = record {
        issue = refl;
        named = refl;
        unclaimed = free;
        tags = rw same refl;
        shaped = λ e. ground arith;
        choice = refl;
        provided = has;
      }
      shaped t ts false has free same = has_no_adapter (rw same has)

      unclaimed :
          (b : Bool)
          → contains (issue_id_of setup i) claimed ≡ b
          → (tags : List String) → task_tags i.labels setup.shapes ≡ tags
          → Considered i (
              if b
              then none
              else elim tags [ [] ↦ none | t ∷ ts ↦ when_provided w (candidate (t ∷ ts)) ])
      unclaimed true taken tags same = is_claimed taken
      unclaimed false free [] same = has_no_shape same
      unclaimed false free (t ∷ ts) same =
          shaped t ts (w.has_provider (setup.route (t ∷ ts)).engine_id) refl free same

  pub first_candidate-IsFirst :
      (issues : List Issue) (c : Candidate)
      → first_candidate setup w claimed issues ≡ some c
      → IsFirst c issues
  unfolding first_candidate
  first_candidate-IsFirst [] c h = absurd (ground arith)
  first_candidate-IsFirst (i ∷ issues) c h =
      choose (consider setup w claimed i) (consider_lem i) h (first_candidate-IsFirst issues c)
    where
      choose :
          (o : Option Candidate)
          → Considered i o
          → (elim o [ none ↦ first_candidate setup w claimed issues | some e ↦ some e ]) ≡ some c
          → (first_candidate setup w claimed issues ≡ some c → IsFirst c issues)
          → IsFirst c (i ∷ issues)
      choose none passed k rest = is_later i passed (rest k)
      choose (some e) fits k rest =
          is_first i (subst (λ c. IsRouted i c) (some-injective _ _ k) fits)

  -- the candidate of a run is routed by its own task shapes
  pub IsFirst-route :
      {c : Candidate} {issues : List Issue} → IsFirst c issues → c.choice ≡ setup.route c.tags
  IsFirst-route (is_first i fits) = fits.choice
  IsFirst-route (is_later i passed rest) = IsFirst-route rest
