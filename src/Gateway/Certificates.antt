-- ===== src/Gateway/Certificates.antt =====
-- src/gateway/security: CertificateProvider.ts, certProviders.ts and mtls.ts. The parse of X.509, the
-- file system and the clock are arguments; `B` is a buffer of bytes.
pub mod Policy
pub mod Providers
use harp_ochestration.Prelude.{
  ℕ, ◌<◌, String, Bool, true, false, ◌&&◌, ◌||◌, List, [], ◌∷◌, Option, none, some, if◌then◌else◌,
  ltb, or_else, any, ◌==◌, string_eq, codes, includes, lower_text, ◌⧺◌,
}
use harp_ochestration.Core.Errors.{Result, ok, err, certificate_policy_error}
use harp_ochestration.Orchestration.Activation.{Environment}

pub record MtlsMaterial (B : Type 0) : Type 0 where
  pub cert : B
  pub key : B
  pub ca : B

pub data DeploymentMode : Type 0 where
  development production : DeploymentMode

-- What the policy reads of a certificate; a date is `none` where `Date.parse` gives no number.
pub record X509Certificate : Type 0 where
  pub subject : String
  pub issuer : String
  pub valid_from : Option ℕ
  pub valid_to : Option ℕ

-- A certificate, or the message of the error that is thrown.
pub data Parsed : Type 0 where
  parsed : X509Certificate → Parsed
  invalid : (message : String) → Parsed

abbrev pub dev_ca_marker : String
dev_ca_marker = "DEV-CERT-DO-NOT-USE-IN-PRODUCTION"

abbrev deployment_mode : String → Result DeploymentMode
deployment_mode raw =
    if raw == "production"
    then ok production
    else if raw == "development"
    then ok development
    else err (
        certificate_policy_error
          ("Invalid HARP_DEPLOYMENT_MODE \"" ⧺ raw ⧺ "\". Use \"development\" or \"production\"."))

unfoldable pub resolve_deployment_mode : Environment → Result DeploymentMode
resolve_deployment_mode env =
    deployment_mode (lower_text (or_else (env "HARP_DEPLOYMENT_MODE") "development"))

unfoldable pub is_marked : Parsed → Bool
is_marked (parsed x) =
    includes (codes x.subject) (codes dev_ca_marker)
    || includes (codes x.issuer) (codes dev_ca_marker)
is_marked (invalid message) = false

abbrev pub is_past : ℕ → Option ℕ → Bool
is_past now none = false
is_past now (some not_after) = ltb not_after now

abbrev pub is_ahead : ℕ → Option ℕ → Bool
is_ahead now none = false
is_ahead now (some not_before) = ltb now not_before

abbrev pub fail {ℓ} : {A : Type ℓ} → String → Result A
fail message = err (certificate_policy_error message)

unfoldable pub check_dates : String → String → ℕ → X509Certificate → Result (Unit {0})
check_dates source label now x =
    if is_past now x.valid_to
    then fail (label ⧺ " certificate is expired (source: " ⧺ source ⧺ "). Failing closed.")
    else if is_ahead now x.valid_from
    then fail (label ⧺ " certificate is not yet valid (source: " ⧺ source ⧺ "). Failing closed.")
    else ok tt

-- The next check runs if the one before did not throw.
abbrev pub then_check : Result (Unit {0}) → Result (Unit {0}) → Result (Unit {0})
then_check (err e) next = err e
then_check (ok done) next = next

unfoldable pub looks_like_dev_material : {B : Type 0} → (B → Parsed) → MtlsMaterial B → Bool
unfolding is_marked
looks_like_dev_material parse material =
    is_marked (parse material.ca) || is_marked (parse material.cert)

abbrev dev_material_message : String
dev_material_message =
    "Development CA material detected in PRODUCTION mode. "
    ⧺ "Dev certificates are prohibited in production; supply material from a real PKI "
    ⧺ "or workload-identity system (SPIFFE/SPIRE, Vault PKI, or an internal CA). Failing closed."

-- The second of the checks, by the mode and by what `looksLikeDevMaterial` says.
unfoldable pub check_origin : DeploymentMode → Bool → Result (Unit {0})
check_origin production true = fail dev_material_message
check_origin production false = ok tt
check_origin development looks = ok tt

-- The policy on the two certificates as they were parsed, the leaf first.
unfoldable pub enforce_on : DeploymentMode → String → ℕ → Bool → Parsed → Parsed → Result (Unit {0})
unfolding check_dates check_origin
enforce_on mode source now looks (invalid message) ca = fail (
    "Certificate material is not valid X.509 (source: " ⧺ source ⧺ "): " ⧺ message
    ⧺ ". Failing closed.")
enforce_on mode source now looks (parsed cert) (invalid message) = fail (
    "Certificate material is not valid X.509 (source: " ⧺ source ⧺ "): " ⧺ message
    ⧺ ". Failing closed.")
enforce_on mode source now looks (parsed cert) (parsed ca) =
    then_check (check_dates source "leaf" now cert)
      (then_check (check_dates source "ca" now ca) (check_origin mode looks))

unfoldable pub enforce_trust_policy :
    {B : Type 0} → (B → Parsed) → ℕ → DeploymentMode → MtlsMaterial B → String → Result (Unit {0})
unfolding enforce_on looks_like_dev_material
enforce_trust_policy parse now mode material source =
    enforce_on mode source now (looks_like_dev_material parse material) (parse material.cert)
      (parse material.ca)
