-- ===== src/Tests/Orchestration.antt =====
-- src/orchestration at concrete inputs.
use mathlib.Core.List.{Perm}
use harp_ochestration.Prelude.{
  ℕ, ◌+◌, String, ◌≡◌, ◌⊎◌, refl, none, some, true, false, List, [], ◌∷◌, Bool,
}
use harp_ochestration.Prelude.Sort.{IsSorted}
use harp_ochestration.Core.Ids.{low}
use harp_ochestration.Orchestration.Strategies.{escalation_strategy}
use harp_ochestration.Orchestration.Selector.{Selection, select, ranking_of}
use harp_ochestration.Orchestration.Selector.Choice.{IsForced, best_at, select_cases}
use harp_ochestration.Orchestration.Validator.{
  ValidationStep, ValidationReport, ordered, no_dearer, run, run_from, after_step,
}
use harp_ochestration.Core.Errors.{ok, err, plain}
use harp_ochestration.Orchestration.Validator.Laws.{Ends, run-Ends}
use harp_ochestration.Tests.Samples.{task_at}

select_cases_example :
    (s : Selection) × (select (task_at low none) ≡ some s)
    × (s.ranking ≡ ranking_of (task_at low none))
    × ((IsForced (task_at low none) × (s.chosen ≡ escalation_strategy))
        ⊎ ((¬ IsForced (task_at low none)) × (s.chosen ≡ best_at low)))
select_cases_example = select_cases (task_at low none)

abbrev step : String → ℕ → Bool → ValidationStep ℕ
step name cost passed = record {
  name = name;
  cost = cost;
  run = λ w. (ok (record { passed = passed; detail = none }), w + 1);
}

abbrev steps : List (ValidationStep ℕ)
steps = step "full suite" 90 true ∷ step "types" 5 true ∷ step "lint" 7 false ∷ []

abbrev halted : ValidationReport
halted = record {
  passed = false;
  ran_steps =
      record { name = "types"; passed = true; detail = none }
      ∷ record { name = "lint"; passed = false; detail = none }
      ∷ [];
  skipped = "full suite" ∷ [];
  halted_at = some "lint";
}

halts : run steps 0 ≡ (ok halted, 2)
unfolding run run_from ordered after_step
halts = refl

-- The step between the two throws, and leaves the run.
abbrev broken : List (ValidationStep ℕ)
broken =
    step "full suite" 90 true
    ∷ record { name = "lint"; cost = 7; run = λ w. (err (plain "spawn ENOENT"), w + 1) }
    ∷ step "types" 5 true
    ∷ []

rejects : run broken 0 ≡ (err (plain "spawn ENOENT"), 2)
unfolding run run_from ordered after_step
rejects = refl

run-Ends_example :
    Ends [] (ordered broken) 0 (run broken 0)
    × Perm (ordered broken) broken
    × IsSorted no_dearer (ordered broken)
run-Ends_example = run-Ends broken 0
