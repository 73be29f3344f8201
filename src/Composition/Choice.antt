-- ===== src/Composition/Choice.antt =====
-- src/modelProvider.ts: which provider the environment asks for, and what the concierge is built from.
use harp_ochestration.Prelude.{
  ℕ, String, List, [], ◌∷◌, Option, none, some, ◌≡◌, if◌then◌else◌, ◌==◌, string_eq, or_else, ◌⧺◌,
  true, inl, inr, Bool-cases,
}
use harp_ochestration.Core.Ids.{ModelClass}
use harp_ochestration.Core.Errors.{Result, ok, err, plain}
use harp_ochestration.Orchestration.Activation.{Environment}
use harp_ochestration.Gateway.Wire.{Tier}
use harp_ochestration.Gateway.Registry.{RegisteredContainer, Registry, register}
use harp_ochestration.Gateway.Certificates.{
  MtlsMaterial, DeploymentMode, Parsed, resolve_deployment_mode,
}
use harp_ochestration.Gateway.Certificates.Providers.{
  FileRead, ResolvedMaterial, provide_mtls_material,
}
use harp_ochestration.Gateway.Certificates.Providers.Closed.{
  IsClosed, provide_mtls_material-IsClosed,
}
use harp_ochestration.Gateway.Certificates.Policy.{IsTrusted}

pub record ContainerEnvEntry : Type 0 where
  pub id : String
  pub base_url : String
  pub tier : Tier
  pub classes : List ModelClass
  pub provider_family : String

-- `JSON.parse` of the list, or the message of what it throws.
pub data ContainerList : Type 0 where
  entries : List ContainerEnvEntry → ContainerList
  unreadable : (message : String) → ContainerList

abbrev listed : ContainerList → Result (List ContainerEnvEntry)
listed (entries es) = ok es
listed (unreadable message) = err (plain ("HARP_CONTAINERS is not valid JSON: " ⧺ message))

abbrev parsed_from : (String → ContainerList) → Option String → Result (List ContainerEnvEntry)
parsed_from parse none = err (
    plain
      "HARP_MODEL_MODE=concierge requires HARP_CONTAINERS (JSON array of container definitions).")
parsed_from parse (some raw) =
    if raw == ""
    then err (
        plain
          "HARP_MODEL_MODE=concierge requires HARP_CONTAINERS (JSON array of container definitions).")
    else listed (parse raw)

unfoldable pub read_containers_from_env :
    (String → ContainerList) → Environment → Result (List ContainerEnvEntry)
read_containers_from_env parse env = parsed_from parse (env "HARP_CONTAINERS")

abbrev container_of : ContainerEnvEntry → RegisteredContainer
container_of c = record {
  descriptor = record {
    id = c.id;
    serves_classes = c.classes;
    tier = c.tier;
    provider_family = c.provider_family;
  };
  base_url = c.base_url;
  healthy = true;
}

abbrev next_of : Result Registry → (Registry → Result Registry) → Result Registry
next_of (err e) rest = err e
next_of (ok registry) rest = rest registry

-- The loop over the definitions, in their order; a second one with an id throws.
unfoldable pub register_all : List ContainerEnvEntry → Registry → Result Registry
register_all [] registry = ok registry
register_all (c ∷ more) registry = next_of (register (container_of c) registry) (register_all more)

-- The provider that is chosen; a concierge with what it is built from.
pub data ModelChoice (B : Type 0) : Type 0 where
  stub : ModelChoice B
  concierge : Registry → MtlsMaterial B → ModelChoice B

abbrev built : {B : Type 0} → MtlsMaterial B → Result Registry → Result (ModelChoice B)
built material (err e) = err e
built material (ok registry) = ok (concierge registry material)

abbrev with_containers :
    {B : Type 0} → MtlsMaterial B → Result (List ContainerEnvEntry) → Result (ModelChoice B)
with_containers material (err e) = err e
with_containers material (ok es) = built material (register_all es [])

unfoldable pub with_material :
    {B : Type 0}
    → (String → ContainerList)
    → Environment
    → Result (ResolvedMaterial B)
    → Result (ModelChoice B)
unfolding register_all read_containers_from_env
with_material parse env (err e) = err e
with_material parse env (ok r) = with_containers r.material (read_containers_from_env parse env)

unfoldable pub build_model_provider :
    {B : Type 0}
    → (B → Parsed)
    → (String → FileRead B)
    → ℕ
    → (String → ContainerList)
    → Environment
    → Result (ModelChoice B)
unfolding with_material
build_model_provider parse_x509 read now parse env =
    let mode = or_else (env "HARP_MODEL_MODE") "stub" in
    if mode == "stub"
    then ok stub
    else if mode == "concierge"
    then with_material parse env (provide_mtls_material parse_x509 read now env "HARP_CONCIERGE")
    else err (plain ("Unknown HARP_MODEL_MODE \"" ⧺ mode ⧺ "\". Use \"stub\" or \"concierge\"."))

-- A concierge is built on material that the trust policy passes in the mode of the environment.
unfoldable pub IsTrustedChoice :
    {B : Type 0} → (B → Parsed) → ℕ → Environment → Result (ModelChoice B) → Type 0
IsTrustedChoice parse_x509 now env (err e) = Unit
IsTrustedChoice parse_x509 now env (ok stub) = Unit
IsTrustedChoice parse_x509 now env (ok (concierge registry material)) =
    (mode : DeploymentMode) × (resolve_deployment_mode env ≡ ok mode)
    × IsTrusted now mode (parse_x509 material.cert) (parse_x509 material.ca)

module _ {B : Type 0} (parse_x509 : B → Parsed) (now : ℕ) (env : Environment) where
  built-IsTrustedChoice :
      (r : ResolvedMaterial B) (registry : Result Registry)
      → IsClosed parse_x509 now (resolve_deployment_mode env) (ok r)
      → IsTrustedChoice parse_x509 now env (built r.material registry)
  unfolding IsTrustedChoice
  built-IsTrustedChoice r (err e) h = tt
  built-IsTrustedChoice r (ok registry) (named, trusted) = (r.mode, named, trusted)

  listed-IsTrustedChoice :
      (r : ResolvedMaterial B) (es : Result (List ContainerEnvEntry))
      → IsClosed parse_x509 now (resolve_deployment_mode env) (ok r)
      → IsTrustedChoice parse_x509 now env (with_containers r.material es)
  unfolding IsTrustedChoice
  listed-IsTrustedChoice r (err e) h = tt
  listed-IsTrustedChoice r (ok es) h = built-IsTrustedChoice r (register_all es []) h

  material-IsTrustedChoice :
      (parse : String → ContainerList) (resolved : Result (ResolvedMaterial B))
      → IsClosed parse_x509 now (resolve_deployment_mode env) resolved
      → IsTrustedChoice parse_x509 now env (with_material parse env resolved)
  unfolding with_material IsTrustedChoice
  material-IsTrustedChoice parse (err e) h = tt
  material-IsTrustedChoice parse (ok r) h = listed-IsTrustedChoice r _ h

-- The model provider is built only on trusted certificates: for every environment, every list of
-- containers, every content of the files and every time, the choice throws, is the stub, or is a
-- concierge whose material passes the trust policy in the mode that the environment names.
pub build_model_provider-IsTrustedChoice :
    {B : Type 0} (parse_x509 : B → Parsed) (read : String → FileRead B) (now : ℕ)
    (parse : String → ContainerList) (env : Environment)
    → IsTrustedChoice parse_x509 now env (build_model_provider parse_x509 read now parse env)
unfolding build_model_provider IsTrustedChoice
build_model_provider-IsTrustedChoice parse_x509 read now parse env =
    let mode = or_else (env "HARP_MODEL_MODE") "stub" in
    elim (Bool-cases (mode == "stub")) [
      | inl t ↦ rw t tt
      | inr f ↦ rw f (elim (Bool-cases (mode == "concierge")) [
        | inl t ↦ rw t (
            material-IsTrustedChoice parse_x509 now env parse _
              (provide_mtls_material-IsClosed parse_x509 read now env "HARP_CONCIERGE"))
        | inr f ↦ rw f tt
      ])
    ]
