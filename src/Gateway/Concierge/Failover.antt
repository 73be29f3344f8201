-- ===== src/Gateway/Concierge/Failover.antt =====
-- Which container answers, and what is reported when none does.
use harp_ochestration.Prelude.{
  ℕ, zero, suc, ◌+◌, String, false, List, [], ◌∷◌, ◌++◌, Option, none, some, or_else, ◌⧺◌,
}
use harp_ochestration.Core.Ids.{class_name}
use harp_ochestration.Core.Runtime.{Runtime}
use harp_ochestration.Core.Errors.{ok, err, HarpError, concierge_error}
use harp_ochestration.Gateway.Wire.{
  ContainerRequest, success, failure, ContainerSuccess, ContainerFailure, failure_kind_eq,
}
use harp_ochestration.Gateway.Redaction.{Redactor}
use harp_ochestration.Gateway.Registry.{RegisteredContainer, plan}
use harp_ochestration.Prelude.{All, ◌≡◌, ◌≤◌, ◌-◌, sym, subst, refl, arith, ◌⊎◌, inl, inr}
use harp_ochestration.Gateway.Concierge.{
  CoreModelRequest, Deliver, Settings, State, again, move_on, done, next, log, proceed, conclude,
  try_container, try_all, follow, verdict, generate, envelope_for, no_route, request_log, to_core,
  is_fatal,
}

module _ {W : Type 0} (deliver : Deliver W) (envelope : ContainerRequest) where
  -- The container answers every delivery of the request with the success `r`.
  abbrev pub Answers : ContainerSuccess → RegisteredContainer → Type 0
  Answers r c = (w : W) → (deliver c envelope w).0 ≡ some (success r)

  -- Each delivery to the container is thrown or fails, and no failure is fatal.
  abbrev pub GivesUp : RegisteredContainer → Type 0
  GivesUp c =
      (w : W)
      → ((deliver c envelope w).0 ≡ none)
        ⊎ ((f : ContainerFailure) × ((deliver c envelope w).0 ≡ some (failure f))
            × (is_fatal f ≡ false))

  -- Each delivery to the container fails with a structured failure that is not fatal.
  abbrev pub Fails : RegisteredContainer → Type 0
  Fails c =
      (w : W)
      → (f : ContainerFailure) × ((deliver c envelope w).0 ≡ some (failure f))
        × (is_fatal f ≡ false)

  -- Each delivery to the container is thrown.
  abbrev pub Throws : RegisteredContainer → Type 0
  Throws c = (w : W) → (deliver c envelope w).0 ≡ none

-- The error of a call whose containers have all failed.
unfoldable pub exhausted : ContainerRequest → Option String → HarpError
exhausted envelope last =
    concierge_error
      ("All containers for class \""
        ⧺ class_name envelope.model_class
        ⧺ "\" failed (last: "
        ⧺ or_else last "unknown"
        ⧺ "). Reporting to core; no weaker model substituted.")
      last

module _ {W : Type 0} (deliver : Deliver W) (settings : Settings)
    (envelope : ContainerRequest) where
  verdict-GivesUp :
      (c : RegisteredContainer) (attempt : ℕ) (w : W)
      → GivesUp deliver envelope c
      → let v = verdict settings c attempt (deliver c envelope w).0 in (v ≡ again) ⊎ (v ≡ move_on)
  unfolding verdict
  verdict-GivesUp c attempt w g = elim (g w) [
    | inl e ↦ rw e (inl refl)
    | inr (f, e, n) ↦ rw (e, verdict) (rw n (ground arith))
  ]

  try_container-GivesUp :
      (left attempt : ℕ) (c : RegisteredContainer) (last : Option String) (s : State W)
      → GivesUp deliver envelope c
      → (l : Option String) × ((try_container deliver settings envelope left attempt c last s).0
          ≡ next l)
  unfolding try_container proceed
  try_container-GivesUp zero attempt c last s g = (last, refl)
  try_container-GivesUp (suc left) attempt c last s g = elim (verdict-GivesUp c attempt s.world g) [
    | inl e ↦ rw e (try_container-GivesUp left (attempt + 1) c _ _ g)
    | inr e ↦ rw e (_, refl)
  ]

  try_container-Answers :
      (left attempt : ℕ) (c : RegisteredContainer) (last : Option String) (s : State W)
      (r : ContainerSuccess)
      → Answers deliver envelope r c
      → (try_container deliver settings envelope (suc left) attempt c last s).0
        ≡ done (ok (to_core r))
  unfolding try_container proceed verdict
  try_container-Answers left attempt c last s r a = rw (a s.world, verdict) refl

  try_all-Answers :
      (before after : List RegisteredContainer) (c : RegisteredContainer) (last : Option String)
      (s : State W) (r : ContainerSuccess)
      → All (GivesUp deliver envelope) before
      → Answers deliver envelope r c
      → 1 ≤ settings.retries_per_container
      → (try_all deliver settings envelope (before ++ c ∷ after) last s).0 ≡ ok (to_core r)
  unfolding try_all conclude
  try_all-Answers [] after c last s r g a h =
      let n = settings.retries_per_container in
      let e : n ≡ suc (n - 1) = omega arith in
      let t = try_container-Answers (n - 1) 1 c last s r a in
      let t' : (try_container deliver settings envelope n 1 c last s).0 ≡ done (ok (to_core r)) =
        subst
          (λ k. (try_container deliver settings envelope k 1 c last s).0 ≡ done (ok (to_core r)))
          (sym e) t in
      rw t'
  try_all-Answers (b ∷ before) after c last s r (g, gs) a h =
      let (l, e) = try_container-GivesUp settings.retries_per_container 1 b last s g in
      rw e (try_all-Answers before after c l _ r gs a h)

  try_all-GivesUp :
      (cs : List RegisteredContainer) (last : Option String) (s : State W)
      → All (GivesUp deliver envelope) cs
      → (l : Option String) × ((try_all deliver settings envelope cs last s).0
          ≡ err (exhausted envelope l))
  unfolding try_all conclude exhausted
  try_all-GivesUp [] last s g = (last, refl)
  try_all-GivesUp (c ∷ cs) last s (g, gs) =
      let (l, e) = try_container-GivesUp settings.retries_per_container 1 c last s g in
      rw e (try_all-GivesUp cs l _ gs)

  follow-Answers :
      (before after : List RegisteredContainer) (c : RegisteredContainer) (s : State W)
      (r : ContainerSuccess)
      → All (GivesUp deliver envelope) before
      → Answers deliver envelope r c
      → 1 ≤ settings.retries_per_container
      → (follow deliver settings envelope (before ++ c ∷ after) s).0 ≡ ok (to_core r)
  unfolding follow
  follow-Answers [] after c s r g a h = try_all-Answers [] after c none s r g a h
  follow-Answers (b ∷ before) after c s r g a h =
      try_all-Answers (b ∷ before) after c none s r g a h

  follow-GivesUp :
      (cs : List RegisteredContainer) (s : State W)
      → All (GivesUp deliver envelope) cs
      → (e : HarpError) × ((follow deliver settings envelope cs s).0 ≡ err e)
        × (((cs ≡ []) × (e ≡ no_route envelope.model_class))
            ⊎ ((l : Option String) × (e ≡ exhausted envelope l)))
  unfolding follow
  follow-GivesUp [] s g = (no_route envelope.model_class, refl, inl (refl, refl))
  follow-GivesUp (c ∷ cs) s g =
      let (l, e) = try_all-GivesUp (c ∷ cs) none s g in (exhausted envelope l, e, inr (l, refl))

module _ {W : Type 0} (rt : Runtime) (now : ℕ) (deliver : Deliver W) (redact : Redactor)
    (settings : Settings) (request : CoreModelRequest) (s : State W) where
  -- If a container of the plan answers and those before it fail without a fatal error, then the
  -- call returns its answer, as long as the settings allow one attempt.
  pub generate-Answers :
      (before after : List RegisteredContainer) (c : RegisteredContainer) (r : ContainerSuccess)
      → let envelope = envelope_for redact settings request (rt.uuid now) in
        plan request.model_class s.registry ≡ before ++ c ∷ after
        → All (GivesUp deliver envelope) before
        → Answers deliver envelope r c
        → 1 ≤ settings.retries_per_container
        → (generate rt now deliver redact settings request s).0 ≡ ok (to_core r)
  unfolding generate log
  generate-Answers before after c r planned g a h = rw planned (
      follow-Answers deliver settings (envelope_for redact settings request (rt.uuid now)) before
        after c (log (request_log redact request (rt.uuid now)) s) r g a h)

  -- If every container of the plan fails without a fatal error, then the call reports an error to
  -- the core: that there is no route where the plan is empty, and else that all have failed.
  pub generate-GivesUp :
      let envelope = envelope_for redact settings request (rt.uuid now) in
      All (GivesUp deliver envelope) (plan request.model_class s.registry)
      → (e : HarpError) × ((generate rt now deliver redact settings request s).0 ≡ err e)
        × (((plan request.model_class s.registry ≡ []) × (e ≡ no_route request.model_class))
            ⊎ ((l : Option String) × (e ≡ exhausted envelope l)))
  unfolding generate log envelope_for
  generate-GivesUp g =
      follow-GivesUp deliver settings (envelope_for redact settings request (rt.uuid now))
        (plan request.model_class s.registry) (log (request_log redact request (rt.uuid now)) s) g
