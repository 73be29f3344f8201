-- ===== src/Gateway/Container/Start.antt =====
-- container/src/index.ts, and the start of the server in container/src/server.ts: a container takes
-- its identity from the environment and listens, or ends. `Number`, the port and node:https are
-- arguments. What the server emits after `listen` has returned, as an `error` event at a port that
-- is in use, is outside.
pub mod Closed
pub mod Typed
use harp_ochestration.Prelude.{
  ℕ, String, List, [], ◌∷◌, Option, none, some, map, or_else, if◌then◌else◌, ◌==◌, string_eq, chars,
  text_of, trim_chars, split_chars,
}
use harp_ochestration.Core.Errors.{Result, ok, err, plain, message_of}
use harp_ochestration.Orchestration.Activation.{Environment}
use harp_ochestration.Gateway.Certificates.{Parsed, DeploymentMode}
use harp_ochestration.Gateway.Certificates.Providers.{
  FileRead, ResolvedMaterial, TlsOptions, provide_mtls_material, server_tls_options,
}

-- A descriptor as the environment gives it: the classes and the tier are cast to their types, not
-- checked.
pub record RawDescriptor : Type 0 where
  pub id : String
  pub serves_classes : List String
  pub tier : String
  pub provider_family : String

-- `value.split(",").map((s) => s.trim())`
abbrev pub pieces_of : String → List String
unfolding split_chars trim_chars
pieces_of value = map (λ p. text_of (trim_chars p)) (split_chars b',' (chars value))

-- A value that is missing or empty stands for one class.
unfoldable pub parse_classes : Option String → List String
unfolding pieces_of
parse_classes none = "cloud-reasoning" ∷ []
parse_classes (some value) = if value == "" then "cloud-reasoning" ∷ [] else pieces_of value

unfoldable pub descriptor_of : Environment → RawDescriptor
unfolding parse_classes
descriptor_of env = record {
  id = or_else (env "HARP_CONTAINER_ID") "stub-primary";
  serves_classes = parse_classes (env "HARP_CONTAINER_CLASSES");
  tier = or_else (env "HARP_CONTAINER_TIER") "primary";
  provider_family = or_else (env "HARP_CONTAINER_FAMILY") "stub";
}

-- A server that listens, with what its first log line says.
pub record Listening (B P : Type 0) : Type 0 where
  pub tls : TlsOptions B
  pub port : P
  pub container_id : String
  pub mode : DeploymentMode
  pub source : String

-- What `createServer` and `server.listen` throw, by their message: at a key or a certificate that is
-- none or that does not match, and at a port that is none.
pub record Https (B P : Type 0) : Type 0 where
  pub create_server : TlsOptions B → Option String
  pub listen : P → Option String

module _ {B P : Type 0} where
  abbrev pub bound :
      (created : Option String)
      → (listening : Option String) → Listening B P
      → Result (Listening B P)
  bound (some message) _ l = err (plain message)
  bound none (some message) l = err (plain message)
  bound none none l = ok l

  abbrev pub served_with :
      Https B P → RawDescriptor → P → Result (ResolvedMaterial B) → Result (Listening B P)
  served_with https descriptor port (err e) = err e
  served_with https descriptor port (ok r) =
      bound (https.create_server (server_tls_options r.material)) (https.listen port) (record {
        tls = server_tls_options r.material;
        port = port;
        container_id = descriptor.id;
        mode = r.mode;
        source = r.source;
      })

  unfoldable pub start_container_server :
      Https B P
      → (B → Parsed)
      → (String → FileRead B)
      → (now : ℕ) → Environment
      → RawDescriptor
      → P
      → (prefix : String) → Result (Listening B P)
  unfolding provide_mtls_material
  start_container_server https parse read now env descriptor port prefix =
      served_with https descriptor port (provide_mtls_material parse read now env prefix)

-- What becomes of the process.
pub data Startup (B P : Type 0) : Type 0 where
  listens : Listening B P → Startup B P
  exits : (code : ℕ) (reason : String) → Startup B P

module _ {B P : Type 0} where
  abbrev pub caught : Result (Listening B P) → Startup B P
  caught (ok l) = listens l
  caught (err e) = exits 1 (message_of e)

  -- The script of container/src/index.ts.
  unfoldable pub run_container :
      Https B P
      → (B → Parsed)
      → (String → FileRead B)
      → (now : ℕ) → (number : String → P) → Environment
      → Startup B P
  unfolding start_container_server descriptor_of
  run_container https parse read now number env = caught (
      start_container_server https parse read now env (descriptor_of env)
        (number (or_else (env "HARP_CONTAINER_PORT") "8443")) "HARP_CONTAINER")
