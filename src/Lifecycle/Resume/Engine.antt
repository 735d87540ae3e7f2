-- ===== src/Lifecycle/Resume/Engine.antt =====
-- The engine, the profile, the engine session and the directory that the history of a run gives, and
-- that resume_run of agent-platform/cortxt_mcp/run_lifecycle.py invokes.
use cortxt.Prelude.{
  String, Bool, true, false, ◌≡◌, ◌≢◌, refl, ap, ◌∙◌, Option, none, some, List, [], ◌∷◌, ◌==◌,
  ==_true, unequal, Bool-cases, inl, inr, if◌then◌else◌,
}
use cortxt.Value.{Value, Fields, null, str, get, lookup}
use cortxt.Platform.{Platform, truthy}
use cortxt.Lifecycle.Schema.{Floats}
use cortxt.Lifecycle.Runs.{
  Event, Session, last_engine_turn, first_of, or_empty, or_newer, or_value, run_identity,
}
use cortxt.Lifecycle.Turns.{Call}
use cortxt.Lifecycle.Service.{as_int, worktree_of}
use cortxt.Lifecycle.Resume.{resume_call}

-- The payload of the newest event of a type, if there is one; the newest stand first.
pub data Newest {F : Type 0} (type : String) : List (Event F) → Option (Fields F) → Type 0 where
  no_event : Newest type [] none
  is_newest :
      (e : Event F) {older : List (Event F)}
      → e.event_type ≡ type
      → Newest type (e ∷ older) (some e.payload)
  not_newest :
      (e : Event F) {older : List (Event F)} {o : Option (Fields F)}
      → e.event_type ≢ type
      → Newest type older o
      → Newest type (e ∷ older) o

-- The payload of the oldest event of a type, if there is one.
pub data Oldest {F : Type 0} (type : String) : List (Event F) → Option (Fields F) → Type 0 where
  no_events : Oldest type [] none
  is_older :
      (e : Event F) {older : List (Event F)} {payload : Fields F}
      → Oldest type older (some payload)
      → Oldest type (e ∷ older) (some payload)
  is_oldest :
      (e : Event F) {older : List (Event F)}
      → e.event_type ≡ type
      → Oldest type older none
      → Oldest type (e ∷ older) (some e.payload)
  not_oldest :
      (e : Event F) {older : List (Event F)}
      → e.event_type ≢ type
      → Oldest type older none
      → Oldest type (e ∷ older) none

module _ {F : Type 0} where
  last_engine_turn-Newest :
      (events : List (Event F)) → Newest "run.engine_turn" events (last_engine_turn events)
  unfolding last_engine_turn
  last_engine_turn-Newest [] = no_event
  last_engine_turn-Newest (e ∷ older) =
      choose (e.event_type == "run.engine_turn") refl (last_engine_turn-Newest older)
    where
      choose :
          (b : Bool)
          → (e.event_type == "run.engine_turn") ≡ b
          → Newest "run.engine_turn" older (last_engine_turn older)
          → Newest "run.engine_turn"
              (e ∷ older)
              (if b then some e.payload else last_engine_turn older)
      choose true h rest = is_newest e (==_true e.event_type "run.engine_turn" h)
      choose false h rest = not_newest e (unequal e.event_type "run.engine_turn" h) rest

  first_of-Oldest :
      (type : String) (events : List (Event F)) → Oldest type events (first_of type events)
  unfolding first_of
  first_of-Oldest type [] = no_events
  first_of-Oldest type (e ∷ older) =
      choose (first_of type older) (e.event_type == type) refl (first_of-Oldest type older)
    where
      choose :
          (o : Option (Fields F)) (b : Bool)
          → (e.event_type == type) ≡ b
          → Oldest type older o
          → Oldest type (e ∷ older) (or_newer o (if b then some e.payload else none))
      choose (some payload) b h rest = is_older e rest
      choose none true h rest = is_oldest e (==_true e.event_type type h) rest
      choose none false h rest = not_oldest e (unequal e.event_type type h) rest

  -- An entry of a payload, or None.
  abbrev pub entry : Option (Fields F) → String → Value F
  entry none key = null
  entry (some d) key = get d key

  entry_lem : (o : Option (Fields F)) (key : String) → get (or_empty o) key ≡ entry o key
  unfolding get lookup
  entry_lem none key = refl
  entry_lem (some d) key = refl

module _ (p : Platform) (floats : Floats p.Float) where
  -- The first of the values that is true, or the last one.
  abbrev pub first_true : List (Value p.Float) → Value p.Float → Value p.Float
  first_true [] otherwise = otherwise
  first_true (v ∷ values) otherwise = if truthy p v then v else first_true values otherwise

  first_true_lem :
      (a b c : Value p.Float) → or_value p (or_value p a b) c ≡ first_true (a ∷ b ∷ []) c
  first_true_lem a b c = elim (Bool-cases (truthy p a)) [
    | inl e ↦ rw (or_value, e, e) refl
    | inr e ↦ rw (or_value, e) refl
  ]

  -- What a resumption invokes: the prompt, the model and the provider are the client's, and the rest is
  -- of the run's history. The engine and the profile are those of the newest turn, or of the creation.
  pub record IsCallOf (arguments : Fields p.Float) (s : Session p.Float) (call : Call p.Float)
      : Type 0 where
    pub turn : Option (Fields p.Float)
    pub is_turn : Newest "run.engine_turn" s.events turn
    pub creation : Option (Fields p.Float)
    pub is_creation : Oldest "run.created" s.events creation
    pub engine :
        call.engine_id
        ≡ first_true (entry turn "engine_id" ∷ get s.created "runtime" ∷ []) (str "hermes")
    pub profile :
        call.profile
        ≡ first_true (entry turn "profile" ∷ entry creation "profile" ∷ []) (str "builder")
    pub session : call.session_id ≡ entry turn "session_id"
    pub directory : call.cwd ≡ first_true (entry creation "worktree" ∷ []) null
    pub prompt : call.prompt ≡ get arguments "prompt"
    pub model : call.model ≡ get arguments "model"
    pub provider : call.provider ≡ get arguments "provider"
    pub timeout : call.timeout_seconds ≡ as_int p floats (get arguments "max_runtime_seconds")

  pub resume_call-IsCallOf :
      (arguments : Fields p.Float) (s : Session p.Float)
      → IsCallOf arguments s (resume_call p floats arguments (run_identity p s))
  unfolding run_identity
  resume_call-IsCallOf arguments s = record {
    turn = last_engine_turn s.events;
    is_turn = last_engine_turn-Newest s.events;
    creation = first_of "run.created" s.events;
    is_creation = first_of-Oldest "run.created" s.events;
    engine =
        ap (λ v. or_value p (or_value p v (get s.created "runtime")) (str "hermes"))
          (entry_lem (last_engine_turn s.events) "engine_id")
        ∙ first_true_lem (entry (last_engine_turn s.events) "engine_id") (get s.created "runtime")
            (str "hermes");
    profile =
        ap
          (λ v.
            or_value p (or_value p v (get (or_empty (first_of "run.created" s.events)) "profile"))
              (str "builder"))
          (entry_lem (last_engine_turn s.events) "profile")
        ∙ ap
            (λ v.
              or_value p (or_value p (entry (last_engine_turn s.events) "profile") v)
                (str "builder"))
            (entry_lem (first_of "run.created" s.events) "profile")
        ∙ first_true_lem (entry (last_engine_turn s.events) "profile")
            (entry (first_of "run.created" s.events) "profile") (str "builder");
    session = entry_lem (last_engine_turn s.events) "session_id";
    directory = ap (worktree_of p floats) (entry_lem (first_of "run.created" s.events) "worktree");
    prompt = refl;
    model = refl;
    provider = refl;
    timeout = refl;
  }
