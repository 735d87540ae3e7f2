-- ===== src/Routing/Engine.antt =====
-- `route` of agent-platform/routing/engine_manifest.py. The order of the codes of a text is that
-- of the platform's texts.
pub mod Cheapest
use Prim.Native.Nat.{Ordering}
use Prim.Native.String.{compare}
use cortxt.Prelude.{
  ℕ, String, Bool, true, false, ◌&&◌, ◌||◌, not, Option, none, some, List, [], ◌∷◌, ltb, leb, eqb,
  ◌==◌, contains, if◌then◌else◌,
}
use cortxt.Events.Validation.{least}

pub data CostClass : Type 0 where
  free cheap metered : CostClass

pub data Reliability : Type 0 where
  verified unverified degraded : Reliability

-- a manifest, as `__post_init__` lets it pass
pub record EngineManifest : Type 0 where
  pub engine_id : String
  pub task_shapes : List String
  pub cost_class : CostClass
  pub reliability_class : Reliability
  pub checkpoint_required : Bool

pub record EngineChoice : Type 0 where
  pub engine_id : String
  pub matched_tag : Option String
  pub excluded : List String
  pub checkpoint_required : Bool

-- `COST_ORDER` and `RELIABILITY_ORDER`
abbrev pub cost_order : CostClass → ℕ
cost_order free = 0
cost_order cheap = 1
cost_order metered = 2

abbrev pub reliability_order : Reliability → ℕ
reliability_order verified = 0
reliability_order unverified = 1
reliability_order degraded = 2

abbrev pub default_fallback_engine : String
default_fallback_engine = "claude"

-- the tags of a manifest that the task has
unfoldable pub shared : List String → List String → List String
shared tags [] = []
shared tags (s ∷ shapes) =
    let rest = shared tags shapes in if contains s tags then s ∷ rest else rest

abbrev pub is_degraded : Reliability → Bool
is_degraded degraded = true
is_degraded r = false

abbrev pub within : Option Reliability → Reliability → Bool
within none r = true
within (some least_class) r = leb (reliability_order r) (reliability_order least_class)

-- a manifest and the first of its matching tags
pub record Candidate : Type 0 where
  pub manifest : EngineManifest
  pub tag : String

abbrev pub candidate : EngineManifest → List String → Option Candidate
candidate m [] = none
candidate m (t ∷ tags) = some (record { manifest = m; tag = least t tags })

-- a manifest that matches, is not degraded, and is as reliable as approved
unfoldable pub as_candidate : Option Reliability → List String → EngineManifest → Option Candidate
unfolding shared least
as_candidate approved tags m =
    if is_degraded m.reliability_class || not (within approved m.reliability_class)
    then none
    else candidate m (shared tags m.task_shapes)

-- `candidates` after both filters
unfoldable pub candidates : Option Reliability → List String → List EngineManifest → List Candidate
candidates approved tags [] = []
candidates approved tags (m ∷ manifests) =
    let rest = candidates approved tags manifests in
    elim (as_candidate approved tags m) [ none ↦ rest | some c ↦ c ∷ rest ]

abbrev matches_any : List String → Bool
matches_any [] = false
matches_any (t ∷ ts) = true

unfoldable pub excluded_engines : List String → List EngineManifest → List String
unfolding shared
excluded_engines tags [] = []
excluded_engines tags (m ∷ manifests) =
    let rest = excluded_engines tags manifests in
    if is_degraded m.reliability_class && matches_any (shared tags m.task_shapes)
    then m.engine_id ∷ rest
    else rest

-- `(COST_ORDER[cost_class], engine_id)` is less
abbrev text_before : String → String → Bool
text_before a b = elim (compare a b) [ Ordering.lt ↦ true | _ ↦ false ]

unfoldable pub before : Candidate → Candidate → Bool
before a b =
    ltb (cost_order a.manifest.cost_class) (cost_order b.manifest.cost_class)
    || eqb (cost_order a.manifest.cost_class) (cost_order b.manifest.cost_class)
      && text_before a.manifest.engine_id b.manifest.engine_id

-- the first of the sorted candidates
unfoldable pub winner : Candidate → List Candidate → Candidate
winner best [] = best
winner best (c ∷ candidates) = winner (if before c best then c else best) candidates

-- `route`; `none` is ValueError
unfoldable pub route :
    List String → List EngineManifest → String → Option Reliability → Option EngineChoice
unfolding candidates excluded_engines
route [] manifests fallback min_reliability = none
route (t ∷ tags) manifests fallback min_reliability =
    elim (candidates min_reliability (t ∷ tags) manifests) [
      | [] ↦ some (record {
        engine_id = fallback;
        matched_tag = none;
        excluded = excluded_engines (t ∷ tags) manifests;
        checkpoint_required = true;
      })
      | c ∷ cs ↦
          let best = winner c cs in
          some (record {
            engine_id = best.manifest.engine_id;
            matched_tag = some best.tag;
            excluded = excluded_engines (t ∷ tags) manifests;
            checkpoint_required = best.manifest.checkpoint_required;
          })
    ]
