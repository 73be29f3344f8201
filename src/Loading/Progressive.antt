-- ===== src/Loading/Progressive.antt =====
-- src/context/ProgressiveContextLoader.ts. `W` is the world behind the loaders.
pub mod Fetching
pub mod Loads
use harp_ochestration.Prelude.{
  ℕ, ◌+◌, ◌/◌, String, Bool, true, List, [], ◌∷◌, ◌++◌, Option, none, some, map, length, lookup,
  insert, string_eq, or_else, ◌⧺◌, if◌then◌else◌,
}
use harp_ochestration.Core.Errors.{HarpError, Result, ok, err, plain}
use harp_ochestration.Observability.{
  Attributes, Sources, Telemetry, Span, text, number, histogram, measure, add_event, set_attribute,
  set_status, end_span,
}
use harp_ochestration.Observability
use harp_ochestration.Observability.Optional.{start_span_of, on_span, on_meter}
use harp_ochestration.Loading.Compactor.{estimate_tokens}

pub record SkillMetadata : Type 0 where
  pub id : String
  pub name : String
  pub description : String
  pub tags : Option (List String)

pub record SkillBody : Type 0 where
  pub instructions : String
  pub reference_ids : Option (List String)

abbrev pub BodyLoader : Type 0 → Type 0
BodyLoader W = String → W → Result SkillBody × W

abbrev pub ReferenceLoader : Type 0 → Type 0
ReferenceLoader W = String → W → Result String × W

pub record Skills (W : Type 0) : Type 0 where
  pub metadata : List (String × SkillMetadata)
  pub body_loaders : List (String × BodyLoader W)
  pub reference_loader : Option (ReferenceLoader W)

pub record TokenCost : Type 0 where
  pub level1 : ℕ
  pub level2 : ℕ
  pub level3 : ℕ

pub record LoadedContext : Type 0 where
  pub catalog : List SkillMetadata
  pub bodies : List (String × SkillBody)
  pub references : List (String × String)
  pub token_cost : TokenCost

abbrev has : {A : Type 0} → Option A → Bool
has none = Bool.false
has (some a) = true

abbrev pub catalog_tokens : List SkillMetadata → ℕ
catalog_tokens [] = 0
catalog_tokens (m ∷ more) = estimate_tokens (m.name ⧺ ": " ⧺ m.description) + catalog_tokens more

-- What a loop gives: its record of what is loaded with the cost, the telemetry and the world.
abbrev pub Loading : Type 0 → Type 0 → Type 0
Loading W A = Result (List (String × A) × ℕ) × Option Telemetry × W

-- The three histograms, the three attributes and the end of the span.
unfoldable pub report : Sources → Option Span → TokenCost → Option Telemetry → Option Telemetry
unfolding on_span on_meter
report sources span cost obs =
    let measured = on_meter (measure histogram "context.tokens.level3" cost.level3 none) (
      on_meter (measure histogram "context.tokens.level2" cost.level2 none)
        (on_meter (measure histogram "context.tokens.level1" cost.level1 none) obs)) in
    let described = on_span (set_attribute "tokens.level3" (number cost.level3)) span (
      on_span (set_attribute "tokens.level2" (number cost.level2)) span
        (on_span (set_attribute "tokens.level1" (number cost.level1)) span measured)) in
    on_span (end_span sources) span
      (on_span (set_status Observability.SpanStatus.ok none) span described)

abbrev pub Loaded : Type 0 → Type 0
Loaded W = Result LoadedContext × Option Telemetry × W

module _ {W : Type 0} where
  unfoldable pub register : SkillMetadata → BodyLoader W → Skills W → Result (Skills W)
  register meta load_body skills =
      if has (lookup meta.id skills.metadata)
      then err (plain ("Skill already registered: " ⧺ meta.id))
      else ok (record skills {
        metadata = insert meta.id meta skills.metadata;
        body_loaders = insert meta.id load_body skills.body_loaders;
      })

  unfoldable pub set_reference_loader : ReferenceLoader W → Skills W → Skills W
  set_reference_loader loader skills = record skills { reference_loader = some loader }

  unfoldable pub catalog_of : Skills W → List SkillMetadata
  catalog_of skills = map (λ entry. entry.1) skills.metadata

  -- What follows the load of one piece, whose cost is read by `cost_of`.
  unfoldable pub after_piece :
      {A : Type 0}
      → String
      → (A → ℕ)
      → List (String × A)
      → ℕ
      → Option Telemetry
      → Result A × W
      → (List (String × A) → ℕ → Option Telemetry → W → Loading W A)
      → Loading W A
  after_piece id cost_of pieces cost obs (err e, w) rest = (err e, obs, w)
  after_piece id cost_of pieces cost obs (ok piece, w) rest =
      rest (insert id piece pieces) (cost + cost_of piece) obs w

  -- One turn of either loop: without a loader, the span gets an event and the loop goes on.
  unfoldable pub load_piece :
      {A : Type 0}
      → String
      → (A → ℕ)
      → (missing : String) → Option (String → W → Result A × W)
      → Option Span
      → List (String × A)
      → ℕ
      → Option Telemetry
      → W
      → (List (String × A) → ℕ → Option Telemetry → W → Loading W A)
      → Loading W A
  unfolding after_piece on_span
  load_piece id cost_of missing none span pieces cost obs w rest =
      rest pieces cost (on_span (add_event missing (some (("id", text id) ∷ []))) span obs) w
  load_piece id cost_of missing (some loader) span pieces cost obs w rest =
      after_piece id cost_of pieces cost obs (loader id w) rest

  unfoldable pub load_bodies :
      Skills W
      → Option Span
      → List String
      → List (String × SkillBody)
      → ℕ
      → Option Telemetry
      → W
      → Loading W SkillBody
  unfolding load_piece
  load_bodies skills span [] bodies level2 obs w = (ok (bodies, level2), obs, w)
  load_bodies skills span (id ∷ ids) bodies level2 obs w =
      load_piece id (λ body. estimate_tokens body.instructions) "skill.unknown"
        (lookup id skills.body_loaders) span bodies level2 obs w (load_bodies skills span ids)

  unfoldable pub load_references :
      Skills W
      → Option Span
      → List String
      → List (String × String)
      → ℕ
      → Option Telemetry
      → W
      → Loading W String
  unfolding load_piece
  load_references skills span [] references level3 obs w = (ok (references, level3), obs, w)
  load_references skills span (id ∷ ids) references level3 obs w =
      load_piece id estimate_tokens "reference.no_loader" skills.reference_loader span references
        level3 obs w (load_references skills span ids)

  unfoldable pub with_references :
      Sources → Skills W → Option Span → List (String × SkillBody) → ℕ → Loading W String → Loaded W
  unfolding report catalog_of
  with_references sources skills span bodies level2 (err e, obs, w) = (err e, obs, w)
  with_references sources skills span bodies level2 (ok (references, level3), obs, w) =
      let cost : TokenCost = record {
        level1 = catalog_tokens (catalog_of skills);
        level2 = level2;
        level3 = level3;
      } in
      (
        ok (record {
          catalog = catalog_of skills;
          bodies = bodies;
          references = references;
          token_cost = cost;
        }),
        report sources span cost obs,
        w,
      )

  unfoldable pub with_bodies :
      Sources → Skills W → Option Span → List String → Loading W SkillBody → Loaded W
  unfolding with_references load_references
  with_bodies sources skills span references (err e, obs, w) = (err e, obs, w)
  with_bodies sources skills span references (ok (bodies, level2), obs, w) =
      with_references sources skills span bodies level2
        (load_references skills span references [] 0 obs w)

  unfoldable pub load :
      Sources
      → Skills W
      → (selected : List String) → (references : Option (List String)) → Option Telemetry
      → W
      → Loaded W
  unfolding with_bodies load_bodies start_span_of
  load sources skills selected references obs w =
      let opened =
        start_span_of sources "context.progressive_load"
          (some (
            ("selectedSkills", number (length selected))
            ∷ ("requestedRefs", number (length (or_else references [])))
            ∷ []))
          obs in
      with_bodies sources skills opened.0 (or_else references [])
        (load_bodies skills opened.0 selected [] 0 opened.1 w)
