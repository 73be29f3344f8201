-- ===== src/Loading/Progressive/Loads.antt =====
-- A load fetches the bodies of the selected skills and then the references, and counts what they cost.
use harp_ochestration.Prelude.{
  ℕ, String, List, [], ◌∷◌, Option, ◌≡◌, refl, arith, map, lookup, string_eq, or_else,
}
use harp_ochestration.Core.Errors.{HarpError, Result, ok, err}
use harp_ochestration.Observability.{Sources, Telemetry, Span}
use harp_ochestration.Loading.Compactor.{estimate_tokens}
use harp_ochestration.Loading.Progressive.{
  SkillBody, Skills, BodyLoader, ReferenceLoader, LoadedContext, Loading, catalog_tokens,
  load_bodies, load_references, with_references, with_bodies, load, catalog_of,
}
use harp_ochestration.Loading.Progressive.Fetching.{
  nothing, told, kept, total, Fetches, Fails, Fetched, ends, fails, piece-Fetched,
}

module _ {W : Type 0} (skills : Skills W) where
  abbrev pub body_of : String → Option (BodyLoader W)
  body_of id = lookup id skills.body_loaders

  abbrev pub reference_of : String → Option (ReferenceLoader W)
  reference_of id = skills.reference_loader

  abbrev pub body_cost : SkillBody → ℕ
  body_cost body = estimate_tokens body.instructions

  -- What a context holds of the bodies and references that were fetched.
  pub record Holds (bodies : List (String × SkillBody)) (references : List (String × String))
      (context : LoadedContext) : Type 0 where
    pub catalog : context.catalog ≡ map (λ entry. entry.1) skills.metadata
    pub bodies_kept : context.bodies ≡ kept bodies []
    pub references_kept : context.references ≡ kept references []
    pub level1 : context.token_cost.level1 ≡ catalog_tokens context.catalog
    pub level2 : context.token_cost.level2 ≡ total body_cost bodies
    pub level3 : context.token_cost.level3 ≡ total estimate_tokens references

  -- What a load comes to, and the world it leaves.
  pub data Loads (selected references : List String) (w : W)
      : Result LoadedContext × W → Type 0 where
    loads :
        {u : W} (bodies : List (String × SkillBody)) (pieces : List (String × String)) (v : W)
        (context : LoadedContext)
        → Fetches body_of selected w bodies v
        → Fetches reference_of references v pieces u
        → Holds bodies pieces context
        → Loads selected references w (ok context, u)
    body_fails :
        {e : HarpError} {u : W}
        → Fails body_of selected w e u
        → Loads selected references w (err e, u)
    reference_fails :
        {e : HarpError} {u : W} (bodies : List (String × SkillBody)) (v : W)
        → Fetches body_of selected w bodies v
        → Fails reference_of references v e u
        → Loads selected references w (err e, u)

  load_bodies-Fetched :
      (span : Option Span) (ids : List String) (before : List (String × SkillBody)) (cost : ℕ)
      (obs : Option Telemetry) (w : W)
      → Fetched body_of body_cost before cost ids w
          (told (load_bodies skills span ids before cost obs w))
  unfolding load_bodies
  load_bodies-Fetched span [] before cost obs w = ends [] nothing refl (omega arith)
  load_bodies-Fetched span (id ∷ ids) before cost obs w =
      piece-Fetched body_of body_cost before cost id ids "skill.unknown" (body_of id) span obs w
        (load_bodies skills span ids) refl (λ m n t v. load_bodies-Fetched span ids m n t v)

  load_references-Fetched :
      (span : Option Span) (ids : List String) (before : List (String × String)) (cost : ℕ)
      (obs : Option Telemetry) (w : W)
      → Fetched reference_of estimate_tokens before cost ids w
          (told (load_references skills span ids before cost obs w))
  unfolding load_references
  load_references-Fetched span [] before cost obs w = ends [] nothing refl (omega arith)
  load_references-Fetched span (id ∷ ids) before cost obs w =
      piece-Fetched reference_of estimate_tokens before cost id ids "reference.no_loader"
        (reference_of id) span obs w (load_references skills span ids) refl
        (λ m n t v. load_references-Fetched span ids m n t v)

  with_references-Loads :
      (sources : Sources) (span : Option Span) (selected references : List String) (w v : W)
      (fetched : List (String × SkillBody)) (bodies : List (String × SkillBody)) (level2 : ℕ)
      (x : Loading W String)
      → Fetches body_of selected w fetched v
      → bodies ≡ kept fetched []
      → level2 ≡ total body_cost fetched
      → Fetched reference_of estimate_tokens [] 0 references v (told x)
      → Loads selected references w (told (with_references sources skills span bodies level2 x))
  unfolding with_references catalog_of
  with_references-Loads sources span selected references w v fetched bodies level2 (err e, obs, u)
        run b c (fails f) =
      reference_fails fetched v run f
  with_references-Loads sources span selected references w v fetched bodies level2
        (ok (m, n), obs, u) run b c (ends pieces more k t) =
      loads fetched pieces v _ run more (record {
        catalog = refl;
        bodies_kept = b;
        references_kept = k;
        level1 = refl;
        level2 = c;
        level3 = omega (arith, t);
      })

  with_bodies-Loads :
      (sources : Sources) (span : Option Span) (selected references : List String) (w : W)
      (x : Loading W SkillBody)
      → Fetched body_of body_cost [] 0 selected w (told x)
      → Loads selected references w (told (with_bodies sources skills span references x))
  unfolding with_bodies
  with_bodies-Loads sources span selected references w (err e, obs, u) (fails f) = body_fails f
  with_bodies-Loads sources span selected references w (ok (m, n), obs, u) (ends pieces run k t) =
      with_references-Loads sources span selected references w u pieces m n _ run k
        (omega (arith, t)) (load_references-Fetched span references [] 0 obs u)

  -- A load runs the loader of every selected skill that is registered, in the order of the
  -- selection, and then the reference loader on every reference asked for, where there is one; an
  -- unknown skill is passed over. The context holds the whole catalog, of each id the piece that was
  -- loaded last, and as costs the sums of the estimates of the catalog, of all bodies loaded and of
  -- all references loaded. When a loader throws, the load rejects with its error, and none of the
  -- loaders behind it runs. This holds with the observability of the program or with none.
  pub load-Loads :
      (sources : Sources) (selected : List String) (references : Option (List String))
      (obs : Option Telemetry) (w : W)
      → Loads selected
          (or_else references [])
          w
          (told (load sources skills selected references obs w))
  unfolding load
  load-Loads sources selected references obs w =
      with_bodies-Loads sources _ selected (or_else references []) w _
        (load_bodies-Fetched _ selected [] 0 _ w)
