-- ===== src/Gateway/Container/Start/Closed.antt =====
-- A container never listens without verified certificates of both ends.
use harp_ochestration.Prelude.{
  ℕ, String, true, Option, none, some, ◌⊎◌, inl, inr, or_else, ◌≡◌, refl, ap, ◌∙◌,
}
use harp_ochestration.Core.Errors.{Result, ok, err, HarpError, message_of}
use harp_ochestration.Orchestration.Activation.{Environment}
use harp_ochestration.Gateway.Certificates.{Parsed, DeploymentMode, resolve_deployment_mode}
use harp_ochestration.Gateway.Certificates.Policy.{IsTrusted}
use harp_ochestration.Gateway.Certificates.Providers.{
  FileRead, ResolvedMaterial, TlsOptions, tls_1_3, provide_mtls_material, server_tls_options,
}
use harp_ochestration.Gateway.Certificates.Providers.Closed.{
  IsClosed, provide_mtls_material-IsClosed,
}
use harp_ochestration.Gateway.Container.Start.{
  Https, Listening, bound, Startup, listens, exits, served_with, caught, run_container,
  start_container_server, RawDescriptor, descriptor_of,
}

-- The server demands a certificate of its client and rejects one that the authority has not signed.
pub record IsMutual {B : Type 0} (options : TlsOptions B) : Type 0 where
  pub asks : options.request_cert ≡ some true
  pub rejects : options.reject_unauthorized ≡ true
  pub modern : options.min_version ≡ tls_1_3

module _ {B P : Type 0} (https : Https B P) (parse : B → Parsed) (now : ℕ) where
  -- Why a start at a port fails: the material is refused, or it is given and the server that is to
  -- be made of it cannot be created, or it is created and cannot listen.
  abbrev pub Fails : Result (ResolvedMaterial B) → P → (reason : String) → Type 0
  Fails given port reason =
      ((e : HarpError) × (given ≡ err e) × (reason ≡ message_of e))
      ⊎ ((r : ResolvedMaterial B) × (given ≡ ok r)
          × ((https.create_server (server_tls_options r.material) ≡ some reason)
              ⊎ ((https.create_server (server_tls_options r.material) ≡ none)
                  × (https.listen port ≡ some reason))))

  -- What is claimed of the process, over the mode of the environment, the material it is given and
  -- the port.
  abbrev pub StartsClosed :
      Result DeploymentMode → Result (ResolvedMaterial B) → P → Startup B P → Type 0
  StartsClosed mode given port (listens l) =
      IsMutual l.tls
      × (l.port ≡ port)
      × (mode ≡ ok l.mode)
      × IsTrusted now l.mode (parse l.tls.cert) (parse l.tls.ca)
      × (https.create_server l.tls ≡ none)
      × (https.listen port ≡ none)
  StartsClosed mode given port (exits code reason) = (code ≡ 1) × Fails given port reason

  bound-StartsClosed :
      (mode : Result DeploymentMode) (r : ResolvedMaterial B) (port : P) (l : Listening B P)
      (created listening : Option String)
      → https.create_server (server_tls_options r.material) ≡ created
      → https.listen port ≡ listening
      → l.tls ≡ server_tls_options r.material
      → IsMutual l.tls
        × (l.port ≡ port)
        × (mode ≡ ok l.mode)
        × IsTrusted now l.mode (parse l.tls.cert) (parse l.tls.ca)
      → StartsClosed mode (ok r) port (caught (bound created listening l))
  unfolding message_of
  bound-StartsClosed mode r port l (some m) listening e f same h = (refl, inr (r, refl, inl e))
  bound-StartsClosed mode r port l none (some m) e f same h = (refl, inr (r, refl, inr (e, f)))
  bound-StartsClosed mode r port l none none e f same (a, b, c, d) =
      (a, b, c, d, ap https.create_server same ∙ e, f)

  served_with-StartsClosed :
      (mode : Result DeploymentMode) (given : Result (ResolvedMaterial B))
      (descriptor : RawDescriptor) (port : P)
      → IsClosed parse now mode given
      → StartsClosed mode given port (caught (served_with https descriptor port given))
  unfolding server_tls_options
  served_with-StartsClosed mode (err e) descriptor port h = (refl, inl (e, refl, refl))
  served_with-StartsClosed mode (ok r) descriptor port (m, h) =
      bound-StartsClosed mode r port _ _ _ refl refl refl
        (record { asks = refl; rejects = refl; modern = refl }, refl, m, h)

-- The process of a container listens only with material that passes the trust policy in the mode
-- that the environment names, demanding and verifying the certificate of every client over TLS 1.3,
-- and at the port that the environment names, and only where neither `createServer` throws at the
-- options made of that material nor `listen` at that port. Otherwise it exits with the code 1, and the reason is
-- that for which the material was refused, or what `createServer` threw at that material, or what
-- `listen` threw at that port. This holds for every environment, every content of the files and
-- every time.
pub run_container-StartsClosed :
    {B P : Type 0} (https : Https B P) (parse : B → Parsed) (read : String → FileRead B) (now : ℕ)
    (number : String → P) (env : Environment)
    → StartsClosed https parse now
        (resolve_deployment_mode env)
        (provide_mtls_material parse read now env "HARP_CONTAINER")
        (number (or_else (env "HARP_CONTAINER_PORT") "8443"))
        (run_container https parse read now number env)
unfolding run_container start_container_server
run_container-StartsClosed https parse read now number env =
    served_with-StartsClosed https parse now _
      (provide_mtls_material parse read now env "HARP_CONTAINER") (descriptor_of env)
      (number (or_else (env "HARP_CONTAINER_PORT") "8443"))
      (provide_mtls_material-IsClosed parse read now env "HARP_CONTAINER")
