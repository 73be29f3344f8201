-- ===== src/Gateway/Certificates/Providers.antt =====
-- src/gateway/security: certProviders.ts, and the TLS options of mtls.ts. Reading a file is an argument.
pub mod Closed
use harp_ochestration.Prelude.{
  ℕ, String, Bool, true, false, Option, none, some, if◌then◌else◌, or_else, ◌==◌, string_eq,
  lower_text, ◌⧺◌,
}
use harp_ochestration.Core.Errors.{Result, ok, err}
use harp_ochestration.Orchestration.Activation.{Environment}
use harp_ochestration.Gateway.Certificates.{
  MtlsMaterial, DeploymentMode, Parsed, fail, resolve_deployment_mode, enforce_trust_policy,
}

-- What `readFileSync` gives: the bytes, or the message of what it throws.
pub data FileRead (B : Type 0) : Type 0 where
  bytes : B → FileRead B
  unreadable : (message : String) → FileRead B

-- A provider, by its label and what `load` gives.
pub record CertificateProvider (B : Type 0) : Type 0 where
  pub source : String
  pub load : Result (MtlsMaterial B)

abbrev load_failure : {B : Type 0} → String → String → Result (MtlsMaterial B)
load_failure source message = fail (
    "Failed to load certificate material from files (source: " ⧺ source ⧺ "): " ⧺ message
    ⧺ ". Failing closed.")

-- The three files in the order in which they are read.
unfoldable pub material_of :
    {B : Type 0} → String → FileRead B → FileRead B → FileRead B → Result (MtlsMaterial B)
material_of source (unreadable message) key ca = load_failure source message
material_of source (bytes cert) (unreadable message) ca = load_failure source message
material_of source (bytes cert) (bytes key) (unreadable message) = load_failure source message
material_of source (bytes cert) (bytes key) (bytes ca) =
    ok (record { cert = cert; key = key; ca = ca })

unfoldable pub file_provider :
    {B : Type 0} → (String → FileRead B) → String → String → String → CertificateProvider B
unfolding material_of
file_provider read cert_path key_path ca_path = record {
  source = "file";
  load = material_of "file" (read cert_path) (read key_path) (read ca_path);
}

unfoldable pub spiffe_provider : {B : Type 0} → CertificateProvider B
spiffe_provider = record {
  source = "spiffe";
  load = fail (
      "SpiffeCertificateProvider is a documented migration target and is not yet wired. "
      ⧺ "Implement against the SPIFFE Workload API for the chosen environment. "
      ⧺ "Until then, configure an explicit production certificate source. Failing closed.");
}

unfoldable pub vault_provider : {B : Type 0} → CertificateProvider B
vault_provider = record {
  source = "vault-pki";
  load = fail (
      "VaultCertificateProvider is a documented migration target and is not yet wired. "
      ⧺ "Implement against your Vault PKI issue endpoint with short TTLs and renewal. "
      ⧺ "Until then, configure an explicit production certificate source. Failing closed.");
}

-- A path that is set and not empty.
abbrev given : Option String → Option String
given none = none
given (some path) = if path == "" then none else some path

abbrev provider_of_paths :
    {B : Type 0}
    → (String → FileRead B)
    → String
    → Option String
    → Option String
    → Option String
    → Result (CertificateProvider B)
provider_of_paths read prefix (some cert) (some key) (some ca) = ok (file_provider read cert key ca)
provider_of_paths read prefix _ _ _ =
    fail ("HARP_CERT_SOURCE=file requires " ⧺ prefix ⧺ "_CERT/KEY/CA. Failing closed.")

unfoldable pub select_provider :
    {B : Type 0} → (String → FileRead B) → Environment → String → Result (CertificateProvider B)
unfolding file_provider spiffe_provider vault_provider
select_provider read env prefix =
    let source = lower_text (or_else (env "HARP_CERT_SOURCE") "file") in
    if source == "spiffe"
    then ok spiffe_provider
    else if source == "vault"
    then ok vault_provider
    else if source == "file"
    then provider_of_paths read prefix (given (env (prefix ⧺ "_CERT")))
        (given (env (prefix ⧺ "_KEY"))) (given (env (prefix ⧺ "_CA")))
    else fail
        ("Unknown HARP_CERT_SOURCE \"" ⧺ source ⧺ "\". Use \"file\", \"spiffe\", or \"vault\".")

pub record ResolvedMaterial (B : Type 0) : Type 0 where
  pub material : MtlsMaterial B
  pub mode : DeploymentMode
  pub source : String

-- The last step: the material is returned if the policy does not throw.
unfoldable pub enforced :
    {B : Type 0}
    → DeploymentMode
    → String
    → MtlsMaterial B
    → Result (Unit {0})
    → Result (ResolvedMaterial B)
enforced mode source material (err e) = err e
enforced mode source material (ok done) =
    ok (record { material = material; mode = mode; source = source })

unfoldable pub loaded :
    {B : Type 0}
    → (B → Parsed)
    → ℕ
    → DeploymentMode
    → String
    → Result (MtlsMaterial B)
    → Result (ResolvedMaterial B)
unfolding enforced enforce_trust_policy
loaded parse now mode source (err e) = err e
loaded parse now mode source (ok material) =
    enforced mode source material (enforce_trust_policy parse now mode material source)

unfoldable pub provided :
    {B : Type 0}
    → (B → Parsed)
    → ℕ
    → DeploymentMode
    → Result (CertificateProvider B)
    → Result (ResolvedMaterial B)
unfolding loaded
provided parse now mode (err e) = err e
provided parse now mode (ok provider) = loaded parse now mode provider.source provider.load

unfoldable pub resolved :
    {B : Type 0}
    → (B → Parsed)
    → (String → FileRead B)
    → ℕ
    → Environment
    → String
    → Result DeploymentMode
    → Result (ResolvedMaterial B)
unfolding provided select_provider
resolved parse read now env prefix (err e) = err e
resolved parse read now env prefix (ok mode) =
    provided parse now mode (select_provider read env prefix)

unfoldable pub provide_mtls_material :
    {B : Type 0}
    → (B → Parsed)
    → (String → FileRead B)
    → ℕ
    → Environment
    → String
    → Result (ResolvedMaterial B)
unfolding resolved resolve_deployment_mode
provide_mtls_material parse read now env prefix =
    resolved parse read now env prefix (resolve_deployment_mode env)

-- The versions of TLS that Node knows.
pub data TlsVersion : Type 0 where
  tls_1_2 tls_1_3 : TlsVersion

pub record TlsOptions (B : Type 0) : Type 0 where
  pub cert : B
  pub key : B
  pub ca : B
  -- Of a server only.
  pub request_cert : Option Bool
  pub reject_unauthorized : Bool
  pub min_version : TlsVersion

unfoldable pub server_tls_options : {B : Type 0} → MtlsMaterial B → TlsOptions B
server_tls_options m = record {
  cert = m.cert;
  key = m.key;
  ca = m.ca;
  request_cert = some true;
  reject_unauthorized = true;
  min_version = tls_1_3;
}

unfoldable pub client_tls_options : {B : Type 0} → MtlsMaterial B → TlsOptions B
client_tls_options m = record {
  cert = m.cert;
  key = m.key;
  ca = m.ca;
  request_cert = none;
  reject_unauthorized = true;
  min_version = tls_1_3;
}
