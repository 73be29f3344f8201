-- ===== src/Gateway/Registry/Laws.antt =====
-- The registry keeps one container to an id, and a plan holds the healthy containers of the class.
use harp_ochestration.Prelude.{
  String, Bool, true, false, ◌&&◌, [], ◌∷◌, ◌++◌, ◌==◌, string_eq, if◌then◌else◌, filter, any,
  contains, ◌⧺◌, ◌≡◌, ◌≢◌, ◌↔◌, ◌⊎◌, inl, inr, refl, arith, Elem, Elem-filter, contains_iff, eq_iff,
  All, All-append, All-filter, Bool-cases, map, decide, Elem-append, sym,
}
use mathlib.Core.Option
use harp_ochestration.Core.Ids.{ModelClass, model_class_eq}
use harp_ochestration.Core.Errors.{ok, err, plain}
use harp_ochestration.Gateway.Wire.{primary, backup, tier_eq, Tier-discrete}
use harp_ochestration.Gateway.Registry.{
  RegisteredContainer, Registry, register, by_id, mark_health, with_health, serving, plan,
}

abbrev pub Serves : ModelClass → RegisteredContainer → Type 0
Serves model_class c = (c.healthy ≡ true) × Elem model_class c.serves_classes

-- No two containers share an id.
abbrev pub IsUnique : Registry → Type 0
IsUnique [] = Unit
IsUnique (c ∷ cs) = All (λ d. d.id ≢ c.id) cs × IsUnique cs

taken_iff :
    (id : String) (cs : Registry) → (any (λ c. c.id == id) cs ≡ false) ↔ All (λ c. c.id ≢ id) cs
taken_iff id [] = (λ h. tt, λ h. refl)
taken_iff id (c ∷ cs) = ground (arith, eq_iff c.id id, taken_iff id cs)

IsUnique-concat :
    (cs : Registry) (e : RegisteredContainer)
    → All (λ c. c.id ≢ e.id) cs
    → IsUnique cs
    → IsUnique (cs ++ e ∷ [])
IsUnique-concat [] e n u = (tt, tt)
IsUnique-concat (c ∷ cs) e (n, ns) (h, u) = (
  All-append (λ d. d.id ≢ c.id) cs (e ∷ []) h ((λ same. n (sym same)), tt),
  IsUnique-concat cs e ns u,
)

-- An entry is registered exactly when its id is new, at the end and with all ids still distinct;
-- an id that is taken is refused by name.
pub register_cases :
    (entry : RegisteredContainer) (cs : Registry)
    → IsUnique cs
    → ((¬ All (λ c. c.id ≢ entry.id) cs)
        × (register entry cs ≡ err (plain ("Container already registered: " ⧺ entry.id))))
      ⊎ (All (λ c. c.id ≢ entry.id) cs
          × (register entry cs ≡ ok (cs ++ entry ∷ []))
          × IsUnique (cs ++ entry ∷ []))
unfolding register
register_cases entry cs u = elim (Bool-cases (any (λ c. c.id == entry.id) cs)) [
  | inl t ↦ inl ((λ all. cc (t, (taken_iff entry.id cs).1 all)), rw t)
  | inr f ↦ let new = (taken_iff entry.id cs).0 f in inr (new, rw f, IsUnique-concat cs entry new u)
]

serving_iff :
    (model_class : ModelClass) (c : RegisteredContainer) (cs : Registry)
    → Elem c (serving model_class cs) ↔ (Elem c cs × Serves model_class c)
unfolding serving
serving_iff m c cs = ground (
  arith,
  Elem-filter (λ (d : RegisteredContainer). d.healthy && contains d.serves_classes m) cs c,
  contains_iff c.serves_classes m,
)

-- A plan holds exactly the registered containers that are healthy and serve the class of the
-- request: no other class is ever substituted, and no such container is left out.
pub plan_iff :
    (model_class : ModelClass) (c : RegisteredContainer) (cs : Registry)
    → Elem c (plan model_class cs) ↔ (Elem c cs × Serves model_class c)
unfolding plan Tier-discrete decide
plan_iff m c cs =
    let s = serving m cs in
    ground (
      arith,
      Elem-append (filter (λ d. d.tier == primary) s) (filter (λ d. d.tier == backup) s) c,
      Elem-filter (λ (d : RegisteredContainer). d.tier == primary) s c,
      Elem-filter (λ (d : RegisteredContainer). d.tier == backup) s c,
      serving_iff m c cs,
    )

-- A backup stands behind every primary: a plan is a list of primaries followed by one of backups.
pub plan_tiers :
    (model_class : ModelClass) (cs : Registry)
    → (primaries backups : Registry) × (plan model_class cs ≡ primaries ++ backups)
      × All (λ c. c.tier ≡ primary) primaries
      × All (λ c. c.tier ≡ backup) backups
unfolding plan
plan_tiers m cs = (
  filter (λ c. c.tier == primary) (serving m cs),
  filter (λ c. c.tier == backup) (serving m cs),
  refl,
  All-filter (λ c. c.tier ≡ primary) _ (serving m cs) (λ c t. (tier_eq.eqb_iff c.tier primary).0 t),
  All-filter (λ c. c.tier ≡ backup) _ (serving m cs) (λ c t. (tier_eq.eqb_iff c.tier backup).0 t),
)

map_id-mark_health :
    (id : String) (healthy : Bool) (cs : Registry)
    → map (λ c. c.id) (mark_health id healthy cs) ≡ map (λ c. c.id) cs
unfolding mark_health
map_id-mark_health id healthy [] = refl
map_id-mark_health id healthy (c ∷ cs) = ground (arith, map_id-mark_health id healthy cs)

-- Marking a health changes the container that the id finds, in its place, and nothing else.
pub by_id-mark_health :
    (id other : String) (healthy : Bool) (cs : Registry)
    → by_id other (mark_health id healthy cs)
      ≡ (if id == other then Option.map (with_health healthy) (by_id other cs) else by_id other cs)
unfolding mark_health by_id
by_id-mark_health id other healthy [] = ground arith
by_id-mark_health id other healthy (c ∷ cs) = ground (
  arith,
  eq_iff c.id id,
  eq_iff c.id other,
  eq_iff id other,
  by_id-mark_health id other healthy cs,
)
