-- ===== src/Gateway/Concierge/Health.antt =====
-- What a call does to the health of the containers.
use harp_ochestration.Prelude.{
  ℕ, zero, suc, ◌+◌, String, false, [], ◌∷◌, Option, some, if◌then◌else◌,
}
use harp_ochestration.Core.Runtime.{Runtime}
use harp_ochestration.Gateway.Wire.{ContainerRequest, failure, ContainerFailure, failure_kind_eq}
use harp_ochestration.Gateway.Redaction.{Redactor}
use harp_ochestration.Gateway.Registry.{RegisteredContainer, Registry, mark_health, plan}
use harp_ochestration.Prelude.{
  All, All-of_Elem, ◌≡◌, ◌≤◌, ◌-◌, sym, subst, refl, arith, ◌⊎◌, inl, inr,
}
use harp_ochestration.Gateway.Concierge.{
  CoreModelRequest, Deliver, Settings, State, Verdict, Outcome, again, move_on, next, log, proceed,
  after_delivery, try_container, verdict, generate, envelope_for, health_after, is_fatal,
  will_retry_same,
}
use harp_ochestration.Gateway.Concierge.Rules.{follow_keeps}
use harp_ochestration.Prelude.{ap, ◌∙◌, Bool-cases}
use harp_ochestration.Gateway.Registry.{with_health}
use harp_ochestration.Gateway.Concierge.Failover.{Fails, Throws}

-- The same containers in the same order, each as it was or turned unhealthy.
abbrev pub Degraded : Registry → Registry → Type 0
Degraded [] [] = Unit
Degraded [] (d ∷ ds) = ⊥
Degraded (c ∷ cs) [] = ⊥
Degraded (c ∷ cs) (d ∷ ds) = ((d ≡ c) ⊎ (d ≡ with_health false c)) × Degraded cs ds

Degraded-refl : (cs : Registry) → Degraded cs cs
Degraded-refl [] = tt
Degraded-refl (c ∷ cs) = (inl refl, Degraded-refl cs)

mark_health-Degraded :
    (id : String) (cs ds : Registry) → Degraded cs ds → Degraded cs (mark_health id false ds)
unfolding mark_health
mark_health-Degraded id [] [] h = tt
mark_health-Degraded id [] (d ∷ ds) h = absurd h
mark_health-Degraded id (c ∷ cs) [] h = absurd h
mark_health-Degraded id (c ∷ cs) (d ∷ ds) (p, h) = ground (arith, mark_health-Degraded id cs ds h)

health_after-Degraded :
    (c : RegisteredContainer) (v : Verdict) (cs ds : Registry)
    → Degraded cs ds
    → Degraded cs (health_after c v ds)
unfolding health_after
health_after-Degraded c move_on cs ds h = mark_health-Degraded c.id cs ds h
health_after-Degraded c _ cs ds h = h

module _ {W : Type 0} (rt : Runtime) (now : ℕ) (deliver : Deliver W) (redact : Redactor)
    (settings : Settings) (request : CoreModelRequest) (s : State W) where
  -- A call never makes a container healthy, and adds, drops or reorders none: it can only turn
  -- containers unhealthy.
  pub generate-Degraded :
      Degraded s.registry (generate rt now deliver redact settings request s).1.registry
  unfolding generate
  generate-Degraded =
      follow_keeps deliver settings (envelope_for redact settings request (rt.uuid now)) (λ c. Unit)
        (λ t. Degraded s.registry t.registry) (λ fields t h. unfold log in h)
        (λ c attempt t q h.
          unfold after_delivery in (health_after-Degraded c _ s.registry t.registry h))
        (plan request.model_class s.registry) _ (All-of_Elem _ _ (λ c m. tt))
        (unfold log in Degraded-refl s.registry)

  -- If the transport throws on every delivery to the containers of the plan, then the call marks none
  -- of them: all stay healthy however often they are tried.
  pub generate-Throws :
      let envelope = envelope_for redact settings request (rt.uuid now) in
      All (Throws deliver envelope) (plan request.model_class s.registry)
      → (generate rt now deliver redact settings request s).1.registry ≡ s.registry
  unfolding generate
  generate-Throws throws =
      follow_keeps deliver settings (envelope_for redact settings request (rt.uuid now))
        (Throws deliver (envelope_for redact settings request (rt.uuid now)))
        (λ t. t.registry ≡ s.registry) (λ fields t h. unfold log in h)
        (λ c attempt t q h. unfold after_delivery health_after verdict in rw (q t.world, verdict) h)
        (plan request.model_class s.registry) _ throws (unfold log in refl)

module _ {W : Type 0} (deliver : Deliver W) (settings : Settings)
    (envelope : ContainerRequest) where
  verdict-Fails :
      (c : RegisteredContainer) (attempt : ℕ) (w : W) (f : ContainerFailure)
      → (deliver c envelope w).0 ≡ some (failure f)
      → is_fatal f ≡ false
      → verdict settings c attempt (deliver c envelope w).0
        ≡ (if will_retry_same settings attempt f then again else move_on)
  unfolding verdict
  verdict-Fails c attempt w f e n = rw (e, verdict) (rw n)

  after_delivery-registry :
      (c : RegisteredContainer) (attempt : ℕ) (s : State W)
      → (after_delivery deliver settings envelope c attempt s (deliver c envelope s.world)).registry
        ≡ health_after c (verdict settings c attempt (deliver c envelope s.world).0) s.registry
  unfolding after_delivery
  after_delivery-registry c attempt s = refl

  proceed-again :
      (v : Verdict) (last : Option String) (s : State W) (rest : Outcome × State W)
      → v ≡ again
      → proceed v last s rest ≡ rest
  unfolding proceed
  proceed-again v last s rest e = rw (e, proceed)

  proceed-move_on :
      (v : Verdict) (last : Option String) (s : State W) (rest : Outcome × State W)
      → v ≡ move_on
      → proceed v last s rest ≡ (next last, s)
  unfolding proceed
  proceed-move_on v last s rest e = rw (e, proceed)

  gives_up :
      (left attempt : ℕ) (c : RegisteredContainer) (last : Option String) (s : State W)
      → verdict settings c attempt (deliver c envelope s.world).0 ≡ move_on
      → (try_container deliver settings envelope (suc left) attempt c last s).1.registry
        ≡ mark_health c.id false s.registry
  unfolding try_container health_after
  gives_up left attempt c last s v =
      ap (λ (p : Outcome × State W). p.1.registry) (proceed-move_on _ _ _ _ v)
      ∙ after_delivery-registry c attempt s
      ∙ ap (λ u. health_after c u s.registry) v

  try_container-Fails_on :
      (left attempt : ℕ) (c : RegisteredContainer) (last : Option String) (s : State W)
      → Fails deliver envelope c
      → attempt + left ≡ settings.retries_per_container
      → (try_container deliver settings envelope (suc left) attempt c last s).1.registry
        ≡ mark_health c.id false s.registry
  unfolding try_container health_after
  try_container-Fails_on zero attempt c last s g e =
      let (f, failed, n) = g s.world in
      let late : will_retry_same settings attempt f ≡ false =
        unfold will_retry_same in ground arith in
      gives_up zero attempt c last s (verdict-Fails c attempt s.world f failed n ∙ rw late)
  try_container-Fails_on (suc left) attempt c last s g e =
      let (f, failed, n) = g s.world in
      let v = verdict-Fails c attempt s.world f failed n in
      elim (Bool-cases (will_retry_same settings attempt f)) [
        | inl t ↦
            let v' : verdict settings c attempt (deliver c envelope s.world).0 ≡ again = v ∙ rw t in
            ap (λ (p : Outcome × State W). p.1.registry) (proceed-again _ _ _ _ v')
            ∙ try_container-Fails_on left (attempt + 1) c _ _ g (omega arith)
            ∙ ap (mark_health c.id false)
                (after_delivery-registry c attempt s ∙ ap (λ u. health_after c u s.registry) v')
        | inr f' ↦ gives_up (suc left) attempt c last s (v ∙ rw f')
      ]

-- A container that meets each delivery with a structured failure, none of them fatal, is marked
-- unhealthy when the attempts at it are over, whether or not it lets itself be tried again.
pub try_container-Fails :
    {W : Type 0} (deliver : Deliver W) (settings : Settings) (envelope : ContainerRequest)
    (c : RegisteredContainer) (last : Option String) (s : State W)
    → Fails deliver envelope c
    → 1 ≤ settings.retries_per_container
    → (try_container deliver settings envelope settings.retries_per_container 1 c last s).1.registry
      ≡ mark_health c.id false s.registry
try_container-Fails deliver settings envelope c last s g h =
    let n = settings.retries_per_container in
    let e : n ≡ suc (n - 1) = omega arith in
    subst
      (λ k.
        (try_container deliver settings envelope k 1 c last s).1.registry
        ≡ mark_health c.id false s.registry)
      (sym e) (try_container-Fails_on deliver settings envelope (n - 1) 1 c last s g (omega arith))
