-- ===== src/Orchestration/Validator.antt =====
-- src/orchestration/SequentialValidator.ts. A step runs on a world `W` and may throw or reject; spans
-- and counters are telemetry and are left out.
pub mod Laws
use harp_ochestration.Prelude.{
  ℕ, String, Bool, true, false, List, [], ◌∷◌, ◌++◌, Option, none, some, map, leb, if◌then◌else◌,
}
use harp_ochestration.Prelude.Sort.{sort_by}
use harp_ochestration.Core.Errors.{Result, ok, err}

pub record ValidationOutcome : Type 0 where
  pub passed : Bool
  pub detail : Option String

pub record ValidationStep (W : Type 0) : Type 0 where
  pub name : String
  pub cost : ℕ
  pub run : W → Result ValidationOutcome × W

pub record RanStep : Type 0 where
  pub name : String
  pub passed : Bool
  pub detail : Option String

pub record ValidationReport : Type 0 where
  pub passed : Bool
  pub ran_steps : List RanStep
  pub skipped : List String
  pub halted_at : Option String

module _ {W : Type 0} where
  -- The comparison `a.cost - b.cost`.
  abbrev pub no_dearer : ValidationStep W → ValidationStep W → Bool
  no_dearer a b = leb a.cost b.cost

  unfoldable pub ordered : List (ValidationStep W) → List (ValidationStep W)
  unfolding sort_by
  ordered steps = sort_by no_dearer steps

  abbrev pub entry_of : ValidationStep W → ValidationOutcome → RanStep
  entry_of step outcome = record {
    name = step.name;
    passed = outcome.passed;
    detail = outcome.detail;
  }

  -- The branches behind a step: a rejection leaves the loop and the run. `rest` is the loop over the
  -- steps left, after the outcome of this one.
  unfoldable pub after_step :
      Result ValidationOutcome
      → List RanStep
      → ValidationStep W
      → List (ValidationStep W)
      → W
      → (List RanStep → Result ValidationReport × W)
      → Result ValidationReport × W
  after_step (err e) ran step later w rest = (err e, w)
  after_step (ok outcome) ran step later w rest =
      let ran' = ran ++ entry_of step outcome ∷ [] in
      if outcome.passed then rest ran' else (
        ok (record {
          passed = false;
          ran_steps = ran';
          skipped = map (λ s. s.name) later;
          halted_at = some step.name;
        }),
        w,
      )

  -- The loop, with the steps that have run.
  unfoldable pub run_from : List RanStep → List (ValidationStep W) → W → Result ValidationReport × W
  unfolding after_step
  run_from ran [] w =
      (ok (record { passed = true; ran_steps = ran; skipped = []; halted_at = none }), w)
  run_from ran (step ∷ later) w =
      let (outcome, w') = step.run w in
      after_step outcome ran step later w' (λ ran'. run_from ran' later w')

  unfoldable pub run : List (ValidationStep W) → W → Result ValidationReport × W
  run steps w = run_from [] (ordered steps) w
