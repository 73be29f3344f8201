-- ===== src/Knowledge.antt =====
-- src/knowledge/KnowledgeStore.ts
pub mod Ranking
use harp_ochestration.Prelude.{
  ℕ, suc, ◌+◌, String, Bool, true, false, List, [], ◌∷◌, ◌++◌, map, filter, take, codes, lower_case,
  includes, is_space, units, if◌then◌else◌, ltb, leb, decimal, ◌⧺◌,
}
use mathlib.Core.List.{reverse}
use harp_ochestration.Prelude.Sort.{sort_by}
use harp_ochestration.Core.Records.{ProjectContext}

pub data KnowledgeKind : Type 0 where
  architecture sop decision issue history : KnowledgeKind

pub record KnowledgeHit : Type 0 where
  pub source_id : String
  pub text : String
  pub kind : KnowledgeKind

abbrev numbered : String → KnowledgeKind → ℕ → List String → List KnowledgeHit
numbered prefix kind i [] = []
numbered prefix kind i (text ∷ texts) =
    record { source_id = prefix ⧺ ":" ⧺ decimal i; text = text; kind = kind }
    ∷ numbered prefix kind (suc i) texts

-- What `load` puts in place of `hits`.
unfoldable pub load : ProjectContext → List KnowledgeHit
load context =
    numbered "arch" architecture 0 context.architecture_docs
    ++ numbered "sop" sop 0 context.standard_operating_procedures
    ++ numbered "decision" decision 0 context.prior_decisions
    ++ numbered "issue" issue 0 context.open_issues
    ++ numbered "history" history 0 context.workflow_history

-- `s.split(/\s+/)`, where `word` is the piece read so far, backwards; `gap` says that the last code
-- point was a space.
abbrev pieces : Bool → List ℕ → List ℕ → List (List ℕ)
pieces gap word [] = reverse word ∷ []
pieces gap word (c ∷ cs) =
    let skipped = pieces true word cs in
    let cut = pieces true [] cs in
    let longer = pieces false (c ∷ word) cs in
    if is_space c then (if gap then skipped else reverse word ∷ cut) else longer

unfoldable pub terms_of : String → List (List ℕ)
terms_of query = filter (λ t. ltb 2 (units t)) (pieces false [] (lower_case query))

-- How many of the terms the text has.
unfoldable pub score_of : List (List ℕ) → KnowledgeHit → ℕ
score_of [] hit = 0
score_of (term ∷ terms) hit =
    (if includes (lower_case hit.text) term then 1 else 0) + score_of terms hit

pub record Scored : Type 0 where
  pub hit : KnowledgeHit
  pub score : ℕ

abbrev pub scored : List (List ℕ) → KnowledgeHit → Scored
scored terms hit = record { hit = hit; score = score_of terms hit }

-- `b.score - a.score` keeps `a` in front of `b`.
abbrev pub before : Scored → Scored → Bool
before a b = leb b.score a.score

unfoldable pub search_terms : List (List ℕ) → ℕ → List KnowledgeHit → List KnowledgeHit
unfolding sort_by
search_terms [] limit hits = take limit hits
search_terms (term ∷ terms) limit hits =
    map (λ entry. entry.hit)
      (take limit
        (sort_by before (filter (λ entry. ltb 0 entry.score) (map (scored (term ∷ terms)) hits))))

-- `search`; a limit that is left out is 10.
unfoldable pub search : String → ℕ → List KnowledgeHit → List KnowledgeHit
unfolding search_terms terms_of
search query limit hits = search_terms (terms_of query) limit hits
