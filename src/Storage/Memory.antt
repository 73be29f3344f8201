-- ===== src/Storage/Memory.antt =====
-- src/storage/MemoryStore.ts: the artifacts in the order in which they were appended.
use harp_ochestration.Prelude.{
  String, List, [], ◌∷◌, ◌++◌, Option, ◌==◌, string_eq, filter, find, ◌≡◌, ◌↔◌, Elem, Elem-filter,
  eq_iff, arith, some,
}
use harp_ochestration.Core.Records.{Artifact}

unfoldable pub append : Artifact → List Artifact → List Artifact
append artifact artifacts = artifacts ++ artifact ∷ []

unfoldable pub by_workflow : String → List Artifact → List Artifact
by_workflow workflow_id artifacts = filter (λ a. a.workflow_id == workflow_id) artifacts

unfoldable pub by_id : String → List Artifact → Option Artifact
by_id id artifacts = find (λ a. a.id == id) artifacts

-- The store never overwrites: what a lookup has found, it finds after any further artifact, also
-- one with the same id.
pub by_id-append :
    (a b : Artifact) (id : String) (xs : List Artifact)
    → by_id id xs ≡ some b
    → by_id id (append a xs) ≡ some b
unfolding by_id append
by_id-append a b id [] h = cc
by_id-append a b id (x ∷ xs) h = ground (arith, by_id-append a b id xs)

-- The artifacts of a workflow are those stored under its id.
pub by_workflow_iff :
    (id : String) (a : Artifact) (xs : List Artifact)
    → Elem a (by_workflow id xs) ↔ (Elem a xs × (a.workflow_id ≡ id))
unfolding by_workflow
by_workflow_iff id a xs =
    let f = Elem-filter (λ (b : Artifact). b.workflow_id == id) xs a in
    let e = eq_iff a.workflow_id id in (λ h. ((f.0 h).0, e.0 (f.0 h).1), λ h. f.1 (h.0, e.1 h.1))
