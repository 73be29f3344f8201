-- ===== src/Tests/Knowledge.antt =====
-- The knowledge store and the context loader at concrete inputs.
use harp_ochestration.Prelude.{
  ℕ, ◌+◌, List, [], ◌∷◌, string_eq, nat_eq, includes, none, some, ◌≡◌, refl, take, arith,
  lower_case,
}
use harp_ochestration.Prelude.Sort.{sort_by, insert_by}
use harp_ochestration.Core.Errors.{ok}
use harp_ochestration.Knowledge.{
  KnowledgeHit, architecture, decision, search, search_terms, terms_of, score_of,
}
use harp_ochestration.Knowledge.Ranking.{Ranked, search-Ranked}
use harp_ochestration.Loading.Progressive.{Skills, load}
use harp_ochestration.Loading.Progressive.Fetching.{told}
use harp_ochestration.Loading.Progressive.Loads.{Loads, load-Loads}
use harp_ochestration.Observability.{Sources, Telemetry}

abbrev hits : List KnowledgeHit
hits =
    record { source_id = "arch:0"; text = "The queue is bounded."; kind = architecture }
    ∷ record { source_id = "decision:0"; text = "One queue for each agent."; kind = decision }
    ∷ []

search_test :
    search "agent queue" 1 hits
    ≡ record { source_id = "decision:0"; text = "One queue for each agent."; kind = decision } ∷ []
unfolding search search_terms terms_of score_of sort_by insert_by lower_case includes
search_test = refl

search-Ranked_example :
    (ranking : List KnowledgeHit) × Ranked (terms_of "agent queue") hits ranking
    × (search "agent queue" 1 hits ≡ take 1 ranking)
unfolding terms_of lower_case
search-Ranked_example = search-Ranked "agent queue" 1 hits (λ e. ground (arith, e))

abbrev one_skill : Skills ℕ
one_skill = record {
  metadata =
      ("s", record { id = "s"; name = "Sort"; description = "Sorts a list."; tags = none }) ∷ [];
  body_loaders =
      (
        "s",
        λ id w. (ok (record { instructions = "Use the library."; reference_ids = none }), w + 1),
      )
      ∷ [];
  reference_loader = none;
}

abbrev sources : Sources
sources = record { uuid = λ n. "id"; now = λ n. n }

abbrev no_telemetry : Telemetry
no_telemetry = record { ticks = 0; spans = []; metrics = []; log_records = [] }

-- The skill "t" is unknown, and no reference loader is set.
load-Loads_example :
    Loads one_skill
      ("s" ∷ "t" ∷ [])
      ("r" ∷ [])
      0
      (told (load sources one_skill ("s" ∷ "t" ∷ []) (some ("r" ∷ [])) (some no_telemetry) 0))
load-Loads_example =
    load-Loads one_skill sources ("s" ∷ "t" ∷ []) (some ("r" ∷ [])) (some no_telemetry) 0
