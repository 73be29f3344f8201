-- ===== src/Knowledge/Ranking.antt =====
-- Which hits a search gives, and in which order.
use mathlib.Core.List.{Perm}
use harp_ochestration.Prelude.{
  ℕ, String, Bool, List, [], ◌∷◌, ◌≡◌, ◌≢◌, refl, ap, map, filter, take, ltb, leb, arith, zero, suc,
}
use harp_ochestration.Prelude.Sort.{insert_by, sort_by, IsSorted, sort_by-perm, sort_by-IsSorted}
use harp_ochestration.Knowledge.{
  KnowledgeHit, scored, before, score_of, terms_of, search_terms, search,
}

-- The ranking on the hits themselves.
abbrev pub ranks : List (List ℕ) → KnowledgeHit → KnowledgeHit → Bool
ranks terms a b = leb (score_of terms b) (score_of terms a)

abbrev pub found : List (List ℕ) → KnowledgeHit → Bool
found terms hit = ltb 0 (score_of terms hit)

module _ (terms : List (List ℕ)) where
  insert_by-map :
      (x : KnowledgeHit) (ys : List KnowledgeHit)
      → insert_by before (scored terms x) (map (scored terms) ys)
        ≡ map (scored terms) (insert_by (ranks terms) x ys)
  unfolding insert_by
  insert_by-map x [] = refl
  insert_by-map x (y ∷ ys) = ground (arith, insert_by-map x ys)

  sort_by-map :
      (xs : List KnowledgeHit)
      → sort_by before (map (scored terms) xs) ≡ map (scored terms) (sort_by (ranks terms) xs)
  unfolding sort_by
  sort_by-map [] = refl
  sort_by-map (x ∷ xs) = rw (sort_by-map xs) (insert_by-map x (sort_by (ranks terms) xs))

  filter-map :
      (xs : List KnowledgeHit)
      → filter (λ entry. ltb 0 entry.score) (map (scored terms) xs)
        ≡ map (scored terms) (filter (found terms) xs)
  filter-map [] = refl
  filter-map (x ∷ xs) = ground (arith, filter-map xs)

  hits-take :
      (n : ℕ) (xs : List KnowledgeHit)
      → map (λ entry. entry.hit) (take n (map (scored terms) xs)) ≡ take n xs
  hits-take zero xs = refl
  hits-take (suc n) [] = refl
  hits-take (suc n) (x ∷ xs) = ap (λ l. x ∷ l) (hits-take n xs)

-- A search by terms, when there are any, takes from a ranking of the hits.
unfoldable pub Ranked : List (List ℕ) → List KnowledgeHit → List KnowledgeHit → Type 0
Ranked terms hits ranking =
    Perm ranking (filter (found terms) hits) × IsSorted (ranks terms) ranking

search_terms-Ranked :
    (term : List ℕ) (terms : List (List ℕ)) (limit : ℕ) (hits : List KnowledgeHit)
    → (ranking : List KnowledgeHit) × Ranked (term ∷ terms) hits ranking
      × (search_terms (term ∷ terms) limit hits ≡ take limit ranking)
unfolding search_terms Ranked
search_terms-Ranked term terms limit hits =
    let all = term ∷ terms in
    (
      sort_by (ranks all) (filter (found all) hits),
      (
        sort_by-perm (ranks all) _,
        sort_by-IsSorted (ranks all) (λ x y h. ground (arith, h))
            (λ x y z h k. ground (arith, h, k)) (filter (found all) hits),
      ),
      rw (filter-map all hits, sort_by-map all (filter (found all) hits)) (hits-take all limit _),
    )

-- A search with a term of more than two characters gives the first `limit` hits of a ranking: the
-- hits that have at least one of the terms, each as often as it is stored, so ordered that none
-- stands behind one with fewer terms.
pub search-Ranked :
    (query : String) (limit : ℕ) (hits : List KnowledgeHit)
    → terms_of query ≢ []
    → (ranking : List KnowledgeHit) × Ranked (terms_of query) hits ranking
      × (search query limit hits ≡ take limit ranking)
unfolding search
search-Ranked query limit hits some_term = terms-Ranked (terms_of query) some_term
  where
    terms-Ranked :
        (terms : List (List ℕ))
        → terms ≢ []
        → (ranking : List KnowledgeHit) × Ranked terms hits ranking
          × (search_terms terms limit hits ≡ take limit ranking)
    terms-Ranked [] n = absurd (n refl)
    terms-Ranked (term ∷ terms) n = search_terms-Ranked term terms limit hits
