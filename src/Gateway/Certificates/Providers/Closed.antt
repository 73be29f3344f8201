-- ===== src/Gateway/Certificates/Providers/Closed.antt =====
-- What `provideMtlsMaterial` hands out.
use harp_ochestration.Prelude.{ℕ, String, ◌≡◌, refl}
use harp_ochestration.Core.Errors.{Result, ok, err}
use harp_ochestration.Orchestration.Activation.{Environment}
use harp_ochestration.Gateway.Certificates.{
  MtlsMaterial, DeploymentMode, Parsed, resolve_deployment_mode, enforce_trust_policy,
}
use harp_ochestration.Gateway.Certificates.Policy.{IsTrusted, enforce_trust_policy_iff}
use harp_ochestration.Gateway.Certificates.Providers.{
  FileRead, CertificateProvider, ResolvedMaterial, enforced, loaded, provided, resolved,
  provide_mtls_material, select_provider,
}

-- A result that is an error, or material that the policy passes in the mode of the environment.
abbrev pub IsClosed :
    {B : Type 0} → (B → Parsed) → ℕ → Result DeploymentMode → Result (ResolvedMaterial B) → Type 0
IsClosed parse now mode (err e) = Unit
IsClosed parse now mode (ok r) =
    (mode ≡ ok r.mode) × IsTrusted now r.mode (parse r.material.cert) (parse r.material.ca)

module _ {B : Type 0} where
  enforced-IsClosed :
      (parse : B → Parsed) (now : ℕ) (mode : DeploymentMode) (source : String)
      (material : MtlsMaterial B) (verdict : Result (Unit {0}))
      → enforce_trust_policy parse now mode material source ≡ verdict
      → IsClosed parse now (ok mode) (enforced mode source material verdict)
  unfolding enforced
  enforced-IsClosed parse now mode source material (err e) h = tt
  enforced-IsClosed parse now mode source material (ok done) h =
      (refl, (enforce_trust_policy_iff parse now mode material source).0 h)

  loaded-IsClosed :
      (parse : B → Parsed) (now : ℕ) (mode : DeploymentMode) (source : String)
      (load : Result (MtlsMaterial B))
      → IsClosed parse now (ok mode) (loaded parse now mode source load)
  unfolding loaded
  loaded-IsClosed parse now mode source (err e) = tt
  loaded-IsClosed parse now mode source (ok material) =
      enforced-IsClosed parse now mode source material _ refl

  provided-IsClosed :
      (parse : B → Parsed) (now : ℕ) (mode : DeploymentMode)
      (provider : Result (CertificateProvider B))
      → IsClosed parse now (ok mode) (provided parse now mode provider)
  unfolding provided
  provided-IsClosed parse now mode (err e) = tt
  provided-IsClosed parse now mode (ok provider) =
      loaded-IsClosed parse now mode provider.source provider.load

  resolved-IsClosed :
      (parse : B → Parsed) (read : String → FileRead B) (now : ℕ) (env : Environment)
      (prefix : String) (mode : Result DeploymentMode)
      → IsClosed parse now mode (resolved parse read now env prefix mode)
  unfolding resolved
  resolved-IsClosed parse read now env prefix (err e) = tt
  resolved-IsClosed parse read now env prefix (ok mode) =
      provided-IsClosed parse now mode (select_provider read env prefix)

  -- The entry point that every party uses for its certificates fails closed: it throws, or the
  -- material it returns passes the trust policy in the mode that the environment names. This holds
  -- for every environment, every content of the files and every time.
  pub provide_mtls_material-IsClosed :
      (parse : B → Parsed) (read : String → FileRead B) (now : ℕ) (env : Environment)
      (prefix : String)
      → IsClosed parse now
          (resolve_deployment_mode env)
          (provide_mtls_material parse read now env prefix)
  unfolding provide_mtls_material
  provide_mtls_material-IsClosed parse read now env prefix =
      resolved-IsClosed parse read now env prefix (resolve_deployment_mode env)
