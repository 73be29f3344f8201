-- ===== src/Gateway/Concierge/Deliveries.antt =====
-- What goes over the wire in a call of the concierge: to whom, with what, and how often.
use harp_ochestration.Prelude.{ℕ, zero, suc, ◌+◌, String, List, [], ◌∷◌, ◌++◌, Option, none}
use harp_ochestration.Core.Runtime.{Runtime}
use harp_ochestration.Gateway.Wire.{ContainerRequest, failure_kind_eq}
use harp_ochestration.Gateway.Redaction.{Redactor}
use harp_ochestration.Gateway.Registry.{RegisteredContainer, Registry, plan}
use harp_ochestration.Prelude.{
  All, All-append, All-of_Elem, ◌≡◌, ◌≤◌, ◌*◌, refl, arith, Elem, length, length-append,
}
use harp_ochestration.Gateway.Concierge.{
  CoreModelRequest, Deliver, Settings, State, log, after_delivery, try_container, try_all, follow,
  generate, envelope_for, request_log,
}
use harp_ochestration.Gateway.Registry.Laws.{Serves, plan_iff}
use harp_ochestration.Gateway.Concierge.Rules.{proceed_keeps, conclude_keeps, follow_keeps}

-- A delivery: the container and the request that it was sent.
abbrev pub Delivery : Type 0
Delivery = RegisteredContainer × ContainerRequest

-- A transport that also notes its deliveries.
unfoldable pub traced : {W : Type 0} → Deliver W → Deliver (W × List Delivery)
traced deliver c e w = ((deliver c e w.0).0, ((deliver c e w.0).1, w.1 ++ (c, e) ∷ []))

abbrev pub trace : {W : Type 0} → State (W × List Delivery) → List Delivery
trace s = s.world.1

-- A delivery that may go out for a request: to a registered and healthy container of the class
-- asked for, with the prompts as the redactor returned them.
pub record IsProper (redact : Redactor) (request : CoreModelRequest) (registry : Registry)
    (d : Delivery) : Type 0 where
  pub registered : Elem d.0 registry
  pub serves : Serves request.model_class d.0
  pub same_class : d.1.model_class ≡ request.model_class
  pub system_redacted : d.1.system_prompt ≡ (redact request.system_prompt).text
  pub user_redacted : d.1.user_prompt ≡ (redact request.user_prompt).text

module _ {W : Type 0} (deliver : Deliver W) (settings : Settings)
    (envelope : ContainerRequest) where
  pub trace-after :
      (c : RegisteredContainer) (attempt : ℕ) (s : State (W × List Delivery))
      → trace (
          after_delivery
            (traced deliver)
            settings
            envelope
            c
            attempt
            s
            (traced deliver c envelope s.world))
        ≡ trace s ++ (c, envelope) ∷ []
  unfolding after_delivery traced
  trace-after c attempt s = refl

-- Whatever the transport does and however often a container is tried, every delivery of a call is
-- proper: no prompt leaves unredacted, and no container of another class is ever reached.
pub generate-IsProper :
    {W : Type 0} (rt : Runtime) (now : ℕ) (deliver : Deliver W) (redact : Redactor)
    (settings : Settings) (request : CoreModelRequest) (s : State (W × List Delivery))
    → trace s ≡ []
    → All
        (IsProper redact request s.registry)
        (trace (generate rt now (traced deliver) redact settings request s).1)
unfolding generate envelope_for
generate-IsProper rt now deliver redact settings request s e =
    let envelope = envelope_for redact settings request (rt.uuid now) in
    follow_keeps (traced deliver) settings envelope
      (λ c. Elem c s.registry × Serves request.model_class c)
      (λ t. All (IsProper redact request s.registry) (trace t)) (λ fields t h. unfold log in h)
      (λ c attempt t q h. rw (trace-after deliver settings envelope c attempt t) (
        All-append _ (trace t) _ h (
          record {
            registered = q.0;
            serves = q.1;
            same_class = refl;
            system_redacted = refl;
            user_redacted = refl;
          },
          tt,
        )))
      (plan request.model_class s.registry) _
      (All-of_Elem _ _ (λ c m. (plan_iff request.model_class c s.registry).0 m))
      (unfold log in rw e tt)

module _ {W : Type 0} (deliver : Deliver W) (settings : Settings)
    (envelope : ContainerRequest) where
  try_container-count :
      (left attempt : ℕ) (c : RegisteredContainer) (last : Option String)
      (s : State (W × List Delivery)) (n : ℕ)
      → length (trace s) + left ≤ n
      → length (trace (try_container (traced deliver) settings envelope left attempt c last s).1)
        ≤ n
  unfolding try_container
  try_container-count zero attempt c last s n h = omega arith
  try_container-count (suc left) attempt c last s n h =
      let s' =
        after_delivery (traced deliver) settings envelope c attempt s
          (traced deliver c envelope s.world) in
      let one : length (trace s') ≡ length (trace s) + 1 =
        rw (trace-after deliver settings envelope c attempt s)
          (length-append (trace s) ((c, envelope) ∷ [])) in
      proceed_keeps (λ t. length (trace t) ≤ n) _ _ s' _ (omega arith)
        (try_container-count left (attempt + 1) c _ s' n (omega arith))

  try_all-count :
      (cs : List RegisteredContainer) (last : Option String) (s : State (W × List Delivery)) (n : ℕ)
      → length (trace s) + settings.retries_per_container * length cs ≤ n
      → length (trace (try_all (traced deliver) settings envelope cs last s).1) ≤ n
  unfolding try_all log
  try_all-count [] last s n h = omega arith
  try_all-count (c ∷ cs) last s n h =
      let m = length (trace s) + settings.retries_per_container in
      let tried =
        try_container (traced deliver) settings envelope settings.retries_per_container 1 c last
          s in
      let few = try_container-count settings.retries_per_container 1 c last s m le_self in
      let room : m + settings.retries_per_container * length cs ≤ n = grind arith in
      conclude_keeps (λ t. length (trace t) ≤ n) tried.0 tried.1 _ (grind arith)
        (λ l. try_all-count cs l tried.1 n (omega arith))
    where
      le_self : {k : ℕ} → k ≤ k
      le_self = omega arith

  follow-count :
      (cs : List RegisteredContainer) (s : State (W × List Delivery))
      → length (trace (follow (traced deliver) settings envelope cs s).1)
        ≤ length (trace s) + settings.retries_per_container * length cs
  unfolding follow log
  follow-count [] s = omega arith
  follow-count (c ∷ cs) s = try_all-count (c ∷ cs) none s _ (omega arith)

-- A call delivers at most as often as the retries allow for each container of the plan.
pub generate-count :
    {W : Type 0} (rt : Runtime) (now : ℕ) (deliver : Deliver W) (redact : Redactor)
    (settings : Settings) (request : CoreModelRequest) (s : State (W × List Delivery))
    → length (trace (generate rt now (traced deliver) redact settings request s).1)
      ≤ length (trace s)
        + settings.retries_per_container * length (plan request.model_class s.registry)
unfolding generate log
generate-count rt now deliver redact settings request s =
    follow-count deliver settings (envelope_for redact settings request (rt.uuid now))
      (plan request.model_class s.registry) (log (request_log redact request (rt.uuid now)) s)
