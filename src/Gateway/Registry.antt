-- ===== src/Gateway/Registry.antt =====
-- src/gateway/routing/Router.ts: the registered containers in the order of registration, and the
-- plan of a request.
pub mod Laws
use harp_ochestration.Prelude.{
  String, Bool, true, ◌&&◌, List, [], ◌∷◌, ◌++◌, Option, none, some, ◌==◌, string_eq, if◌then◌else◌,
  filter, find, any, contains, ◌⧺◌,
}
use harp_ochestration.Core.Ids.{ModelClass, model_class_eq}
use harp_ochestration.Core.Errors.{Result, ok, err, plain}
use harp_ochestration.Gateway.Wire.{ContainerDescriptor, primary, backup, tier_eq}

pub record RegisteredContainer : Type 0 where
  pub descriptor : ContainerDescriptor
  pub open descriptor use *
  pub base_url : String
  pub healthy : Bool

abbrev pub Registry : Type 0
Registry = List RegisteredContainer

unfoldable pub register : RegisteredContainer → Registry → Result Registry
register entry containers =
    if any (λ c. c.id == entry.id) containers
    then err (plain ("Container already registered: " ⧺ entry.id))
    else ok (containers ++ entry ∷ [])

unfoldable pub by_id : String → Registry → Option RegisteredContainer
by_id id containers = find (λ c. c.id == id) containers

abbrev pub with_health : Bool → RegisteredContainer → RegisteredContainer
with_health healthy c = record c { healthy = healthy }

-- The container that `byId` finds, which is the first, is changed in place.
unfoldable pub mark_health : String → Bool → Registry → Registry
mark_health id healthy [] = []
mark_health id healthy (c ∷ containers) =
    if c.id == id then with_health healthy c ∷ containers else c ∷ mark_health id healthy containers

unfoldable pub serving : ModelClass → Registry → List RegisteredContainer
serving model_class containers =
    filter (λ c. c.healthy && contains c.serves_classes model_class) containers

unfoldable pub plan : ModelClass → Registry → List RegisteredContainer
unfolding serving
plan model_class containers =
    filter (λ c. c.tier == primary) (serving model_class containers)
    ++ filter (λ c. c.tier == backup) (serving model_class containers)
