-- ===== src/Tests/Models.antt =====
-- src/models at concrete inputs.
use mathlib.Core.List.{[], ◌∷◌}
use harp_ochestration.Prelude.{
  ℕ, String, ◌+◌, ◌≤◌, ◌≡◌, ◌≢◌, refl, none, some, arith, lookup, List, insert, decimal, true,
  false, if◌then◌else◌, eq_iff, string_eq,
}
use harp_ochestration.Core.Records.{ModelRequest}
use harp_ochestration.Core.Errors.{Result, err, token_budget_exceeded}
use harp_ochestration.Core.Errors
use harp_ochestration.Models.Router.{
  Generate, make_router, scope_of, usage, admit, settle, generate, finish, deliver,
}
use harp_ochestration.Models.Router.Accounting.{recorded, IsBalanced}
use harp_ochestration.Models.Router.Bounds.{serve}
use harp_ochestration.Models.Router.Interleaving.{
  Traffic, Reaches, here, next, starts, settles, idle,
}
use harp_ochestration.Models.Router.Interleaving.Over.{Reaches-refusal}
use harp_ochestration.Models.Router.Interleaving.Exact.{OneEach, Reaches-IsBalanced}
use harp_ochestration.Models.Router.Overlap.{overlap, overlap_loses}
use harp_ochestration.Models.Budget
use harp_ochestration.Models.Budget.{
  BudgetManager, Spend, Check, checks, check, record_spend, make_manager, remaining_of, workflow,
  agent, used_by, check_all, advise, agent_checks, day_checks, finite, state_of,
}
use harp_ochestration.Models.Budget.Verdicts.{IsCutoff, IsDownshift}
use harp_ochestration.Models.Budget.Spending.{
  IsCapped, check-record_spend-IsCapped, make_manager-IsCapped,
}
use harp_ochestration.Models.Budget.{BudgetScope}
use harp_ochestration.Models.Budget.Ledger.{
  Entry, has, balance, ledger_of, record_all, ledger_of-Perm,
}
use harp_ochestration.Models.Budget.Ledger.Checks.{record_all-implements}
use harp_ochestration.Models.Budget.Metering.{
  Tallies, meter_all, meter_all-Tallies, metered, spent_metric, spent_attributes,
}
use harp_ochestration.Observability.{Telemetry}
use mathlib.Core.List.Perm
use harp_ochestration.Tests.Samples.{clock, ask, reply}

-- A provider whose answers cost 61 tokens.
abbrev stub : Generate ℕ
stub request w = (Errors.ok (reply 60), w + 1)

abbrev history : List ModelRequest
history = ask "a" ∷ ask "b" ∷ ask "a" ∷ ask "a" ∷ []

served :
    (usage (serve clock 0 stub history (make_router 100) 0).0 "a" ≡ 122)
    × ((serve clock 0 stub history (make_router 100) 0).1 ≡ 3)
unfolding serve generate deliver admit finish settle make_router usage lookup insert
served = (refl, refl)

-- Calls of two workflows that overlap: "b" starts before "a" settles.
abbrev after_a : Traffic
after_a = record {
  router = settle clock 0 0 (ask "a") (reply 60) (make_router 100);
  pending = record { request = ask "b"; used = 0 } ∷ [];
}

names_differ : scope_of (some "a") ≢ scope_of (some "b")
names_differ e = let same : false ≡ true = (eq_iff "a" "b").1 e in ground (arith, same)

crossed : Reaches clock OneEach (idle 100) after_a
unfolding admit usage make_router lookup
crossed =
    next
      (next (next here (starts (ask "a") 0 tt refl refl))
        (starts (ask "b") 0 (names_differ, tt) refl refl))
      (settles (record { request = ask "b"; used = 0 } ∷ []) []
        (record { request = ask "a"; used = 0 }) 0 (reply 60) refl refl)

Reaches-IsBalanced_example : IsBalanced (settle clock 0 0 (ask "a") (reply 60) (make_router 100))
Reaches-IsBalanced_example = Reaches-IsBalanced clock 100 after_a crossed

-- Two calls of one workflow that both read a usage of 0, and a third that is refused.
abbrev Any : Traffic → ModelRequest → Type 0
Any t request = Unit

abbrev overdrawn : Traffic
overdrawn = record {
  router =
      settle clock 1 0 (ask "a") (reply 120)
        (settle clock 0 0 (ask "a") (reply 60) (make_router 100));
  pending = [];
}

doubled : Reaches clock Any (idle 100) overdrawn
unfolding admit usage make_router lookup
doubled =
    next
      (next (next (next here (starts (ask "a") 0 tt refl refl)) (starts (ask "a") 0 tt refl refl)) (
        settles [] (record { request = ask "a"; used = 0 } ∷ [])
          (record { request = ask "a"; used = 0 }) 0 (reply 60) refl refl))
      (settles [] [] (record { request = ask "a"; used = 0 }) 1 (reply 120) refl refl)

Reaches-refusal_example : 100 ≤ recorded "a" overdrawn.router.records
unfolding admit usage make_router lookup settle insert
Reaches-refusal_example =
    Reaches-refusal clock Any 100 overdrawn (ask "a") (token_budget_exceeded "a" 121 100) doubled
      refl

new-IsBalanced : IsBalanced (make_router 100)
unfolding make_router usage lookup recorded
new-IsBalanced w = refl

overlap_loses_example :
    usage (overlap clock 0 1 (ask "a") (ask "a") (reply 60) (reply 30) 0 0 (make_router 100)) "a"
      + 61
    ≡ recorded "a"
        (overlap clock 0 1 (ask "a") (ask "a") (reply 60) (reply 30) 0 0 (make_router 100)).records
unfolding admit usage make_router lookup
overlap_loses_example =
    overlap_loses clock 0 1 0 0 (ask "a") (ask "a") (reply 60) (reply 30) (make_router 100) "a"
      new-IsBalanced refl refl refl refl

-- The workflow may spend 100 tokens, each agent 1000.
abbrev manager : BudgetManager
manager =
    make_manager (some (record { hard = 1000; soft = 900 })) (record { hard = 100; soft = 80 }) none

abbrev spend : ℕ → Spend
spend n = record { tokens = n; workflow_id = "w"; agent_id = some "ra"; day = none }

checked :
    (check manager "day-1" (spend 20) ≡ Budget.ok (finite 1000))
    × IsDownshift (check manager "day-1" (spend 90))
    × IsCutoff (check manager "day-1" (spend 101))
unfolding check checks make_manager agent_checks day_checks check_all advise used_by lookup decimal
checked = (refl, (_, _, refl), (_, refl))

not_cut : ¬ IsCutoff (check manager "day-1" (spend 20))
not_cut (why, e) = cc (e, checked.0)

check-record_spend-IsCapped_example : IsCapped (record_spend manager "day-1" (spend 20))
check-record_spend-IsCapped_example =
    check-record_spend-IsCapped manager "day-1" (spend 20) not_cut (make_manager-IsCapped _ _ _)

-- The same spends in two orders.
abbrev early_then_late : List Entry
early_then_late = ("day-1", spend 20) ∷ ("day-2", spend 30) ∷ []

abbrev late_then_early : List Entry
late_then_early = ("day-2", spend 30) ∷ ("day-1", spend 20) ∷ []

record_all-implements_example :
    ((scope : BudgetScope) (key : String)
      → Budget.usage (record_all manager early_then_late) scope key
        ≡ (if has (state_of manager scope)
            then balance scope key (ledger_of late_then_early)
            else 0)
          + Budget.usage manager scope key)
    × ((today : String) (input : Spend)
        → check (record_all manager early_then_late) today input
          ≡ check (record_all manager late_then_early) today input)
record_all-implements_example = record_all-implements manager early_then_late late_then_early (
    ledger_of-Perm early_then_late late_then_early
      (Perm.swap ("day-2", spend 30) ("day-1", spend 20) []))

abbrev no_telemetry : Telemetry
no_telemetry = record { ticks = 0; spans = []; metrics = []; log_records = [] }

meter_all-Tallies_example :
    Tallies "w" manager no_telemetry (meter_all manager early_then_late (some no_telemetry))
    × ((meter_all manager early_then_late (some no_telemetry)).0
        ≡ record_all manager early_then_late)
meter_all-Tallies_example = meter_all-Tallies manager early_then_late no_telemetry "w"

-- The counter shows the 50 tokens.
counted :
    (metered "w" (spent_metric (spend 20) ∷ spent_metric (spend 30) ∷ []) ≡ 50)
    × (Budget.usage (record_all manager early_then_late) Budget.BudgetScope.workflow "w" ≡ 50)
unfolding metered spent_attributes lookup Budget.usage record_all record_spend Budget.add
    Budget.add_agent Budget.add_day used_by make_manager insert Budget.state_of
counted = (refl, refl)
