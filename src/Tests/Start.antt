-- ===== src/Tests/Start.antt =====
-- The start of a container at concrete environments.
use harp_ochestration.Prelude.{
  ℕ, String, [], ◌∷◌, none, some, ◌≡◌, refl, if◌then◌else◌, ◌==◌, string_eq,
}
use harp_ochestration.Core.Ids.{class_name, cloud_coding, cloud_fast}
use harp_ochestration.Orchestration.Activation.{Environment}
use harp_ochestration.Gateway.Wire.{backup}
use harp_ochestration.Gateway.Certificates.{Parsed, invalid, resolve_deployment_mode}
use harp_ochestration.Gateway.Certificates.Providers.{FileRead, unreadable, provide_mtls_material}
use harp_ochestration.Gateway.Container.Start.{Https, descriptor_of, parse_classes, run_container}
use harp_ochestration.Gateway.Container.Start.Closed.{StartsClosed, run_container-StartsClosed}
use harp_ochestration.Gateway.Container.Start.Typed.{Entry, IsTypedAs, descriptor_of-IsTypedAs}

-- The tier is one that the type does not know.
abbrev odd_tier : Environment
odd_tier name =
    if name == "HARP_CONTAINER_TIER"
    then some "spare"
    else if name == "HARP_CONTAINER_CLASSES"
    then some " cloud-fast , cloud-coding"
    else none

abbrev spaced : Entry
spaced = record { front = " "; model_class = cloud_fast; back = " " }

abbrev tabbed : Entry
tabbed = record { front = "\t"; model_class = cloud_coding; back = "" }

abbrev written_well : Environment
written_well name =
    if name == "HARP_CONTAINER_TIER"
    then some "backup"
    else if name == "HARP_CONTAINER_CLASSES"
    then some " cloud-fast ,\tcloud-coding"
    else none

descriptor_of-IsTypedAs_example : IsTypedAs (descriptor_of written_well) (record {
  id = "stub-primary";
  serves_classes = cloud_fast ∷ cloud_coding ∷ [];
  tier = backup;
  provider_family = "stub";
})
unfolding class_name
descriptor_of-IsTypedAs_example =
    descriptor_of-IsTypedAs written_well spaced (tabbed ∷ []) backup
      (((refl, tt), (refl, tt)), (((refl, tt), tt), tt)) refl refl

read_as_they_are :
    ((descriptor_of odd_tier).tier ≡ "spare")
    × ((descriptor_of odd_tier).serves_classes ≡ "cloud-fast" ∷ "cloud-coding" ∷ [])
unfolding descriptor_of parse_classes
read_as_they_are = (refl, refl)

abbrev no_certificates : String → FileRead ℕ
no_certificates path = unreadable "no such file"

abbrev read_x509 : ℕ → Parsed
read_x509 n = invalid "bad end of file"

-- The key does not match; the port is fine.
abbrev mismatched : Https ℕ String
mismatched = record { create_server = λ options. some "key values mismatch"; listen = λ port. none }

run_container-StartsClosed_example :
    StartsClosed mismatched read_x509 0
      (resolve_deployment_mode odd_tier)
      (provide_mtls_material read_x509 no_certificates 0 odd_tier "HARP_CONTAINER")
      "8443"
      (run_container mismatched read_x509 no_certificates 0 (λ port. port) odd_tier)
run_container-StartsClosed_example =
    run_container-StartsClosed mismatched read_x509 no_certificates 0 (λ port. port) odd_tier
