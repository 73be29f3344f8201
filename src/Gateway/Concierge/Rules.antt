-- ===== src/Gateway/Concierge/Rules.antt =====
-- What every delivery keeps, a call keeps: the rule by which the loops are verified.
use harp_ochestration.Prelude.{ℕ, zero, suc, ◌+◌, String, List, [], ◌∷◌, Option, none}
use harp_ochestration.Core.Records.{ModelResponse}
use harp_ochestration.Core.Errors.{Result}
use harp_ochestration.Gateway.Wire.{ContainerRequest, failure_kind_eq}
use harp_ochestration.Gateway.Logging.{SafeLogFields}
use harp_ochestration.Gateway.Registry.{RegisteredContainer}
use harp_ochestration.Prelude.{All}
use harp_ochestration.Gateway.Concierge.{
  Deliver, Settings, State, Verdict, Outcome, answer, fatal, again, move_on, done, next, log,
  proceed, conclude, after_delivery, try_container, try_all, follow,
}

module _ {W : Type 0} (Inv : State W → Type 0) where
  pub proceed_keeps :
      (v : Verdict) (last : Option String) (s : State W) (rest : Outcome × State W)
      → Inv s
      → Inv rest.1
      → Inv (proceed v last s rest).1
  unfolding proceed
  proceed_keeps (answer r) last s rest h k = h
  proceed_keeps (fatal e) last s rest h k = h
  proceed_keeps again last s rest h k = k
  proceed_keeps move_on last s rest h k = h

  pub conclude_keeps :
      (o : Outcome) (s : State W) (rest : Option String → Result ModelResponse × State W)
      → Inv s
      → ((last : Option String) → Inv (rest last).1)
      → Inv (conclude o s rest).1
  unfolding conclude
  conclude_keeps (done r) s rest h k = h
  conclude_keeps (next last) s rest h k = k last

module _ {W : Type 0} (deliver : Deliver W) (settings : Settings) (envelope : ContainerRequest)
    (Q : RegisteredContainer → Type 0) (Inv : State W → Type 0)
    (log_keeps : (fields : SafeLogFields) (s : State W) → Inv s → Inv (log fields s))
    (delivery_keeps : (c : RegisteredContainer) (attempt : ℕ) (s : State W)
      → Q c
      → Inv s
      → Inv
          (after_delivery deliver settings envelope c attempt s (deliver c envelope s.world))) where
  pub try_container_keeps :
      (left attempt : ℕ) (c : RegisteredContainer) (last : Option String) (s : State W)
      → Q c
      → Inv s
      → Inv (try_container deliver settings envelope left attempt c last s).1
  unfolding try_container
  try_container_keeps zero attempt c last s q h = h
  try_container_keeps (suc left) attempt c last s q h =
      let kept = delivery_keeps c attempt s q h in
      proceed_keeps Inv _ _ _ _ kept (try_container_keeps left (attempt + 1) c _ _ q kept)

  pub try_all_keeps :
      (cs : List RegisteredContainer) (last : Option String) (s : State W)
      → All Q cs
      → Inv s
      → Inv (try_all deliver settings envelope cs last s).1
  unfolding try_all
  try_all_keeps [] last s q h = log_keeps _ s h
  try_all_keeps (c ∷ cs) last s (q, qs) h =
      let kept = try_container_keeps settings.retries_per_container 1 c last s q h in
      conclude_keeps Inv _ _ _ kept (λ l. try_all_keeps cs l _ qs kept)

  pub follow_keeps :
      (cs : List RegisteredContainer) (s : State W)
      → All Q cs
      → Inv s
      → Inv (follow deliver settings envelope cs s).1
  unfolding follow
  follow_keeps [] s q h = log_keeps _ s h
  follow_keeps (c ∷ cs) s q h = try_all_keeps (c ∷ cs) none s q h
