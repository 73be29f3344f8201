-- ===== src/Orchestration/Context/Scope.antt =====
-- What an agent can and cannot learn from its context.
use harp_ochestration.Prelude.{
  ℕ, zero, suc, ◌≤◌, String, List, [], ◌∷◌, filter, take, length, ◌≡◌, refl, ap, arith, ◌⧺◌,
  decimal,
}
use harp_ochestration.Core.Ids.{ra}
use harp_ochestration.Core.Records.{AgentTask, ProjectContext, Artifact}
use harp_ochestration.Orchestration.Context.{
  scoped_context, source_ids, find_missing_facts, numbered, mentions, implementation_words,
  is_empty,
}

-- Two projects that differ only in what is none of Ra's business: the text of the architecture
-- docs, the decisions, the history, and the procedures that are not about an implementation.
pub record LooksAlike (p q : ProjectContext) : Type 0 where
  pub docs : length p.architecture_docs ≡ length q.architecture_docs
  pub procedures :
      filter (mentions implementation_words) p.standard_operating_procedures
      ≡ filter (mentions implementation_words) q.standard_operating_procedures
  pub has_procedures :
      is_empty p.standard_operating_procedures ≡ is_empty q.standard_operating_procedures
  pub issues : p.open_issues ≡ q.open_issues
  pub terms : p.glossary ≡ q.glossary

numbered-length :
    (kind : String) (i : ℕ) (xs ys : List String)
    → length xs ≡ length ys
    → numbered kind i xs ≡ numbered kind i ys
numbered-length kind i [] [] e = refl
numbered-length kind i [] (y ∷ ys) e = absurd (omega arith)
numbered-length kind i (x ∷ xs) [] e = absurd (omega arith)
numbered-length kind i (x ∷ xs) (y ∷ ys) e =
    ap (λ l. (kind ⧺ decimal i) ∷ l) (numbered-length kind (suc i) xs ys (omega arith))

is_empty-length : (xs ys : List String) → length xs ≡ length ys → is_empty xs ≡ is_empty ys
is_empty-length [] [] e = refl
is_empty-length [] (y ∷ ys) e = absurd (omega arith)
is_empty-length (x ∷ xs) [] e = absurd (omega arith)
is_empty-length (x ∷ xs) (y ∷ ys) e = refl

-- With the same prior artifacts, Ra's context is the same for two projects that look alike to it: of
-- the text of an architecture doc, of a decision, of the history or of a procedure that is not about
-- an implementation nothing reaches Ra but what the prior artifacts say. Of the docs it can learn
-- how many there are.
pub scoped_context-LooksAlike :
    (p q : ProjectContext) (task : AgentTask) (prior : List Artifact) (now : String)
    → LooksAlike p q
    → scoped_context ra task p prior now ≡ scoped_context ra task q prior now
unfolding scoped_context source_ids find_missing_facts
scoped_context-LooksAlike p q task prior now same =
    rw
      (
        numbered-length "arch:" 0 p.architecture_docs q.architecture_docs same.docs,
        is_empty-length p.architecture_docs q.architecture_docs same.docs,
        same.procedures,
        same.has_procedures,
        same.issues,
        same.terms,
      )
      refl

length-take : {A : Type 0} (n : ℕ) (xs : List A) → length (take n xs) ≤ n
length-take zero xs = omega arith
length-take (suc n) [] = omega arith
length-take (suc n) (x ∷ xs) = omega (arith, length-take n xs)
