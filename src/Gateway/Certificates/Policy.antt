-- ===== src/Gateway/Certificates/Policy.antt =====
-- What the trust policy lets pass.
use harp_ochestration.Prelude.{
  ℕ, ◌≤◌, String, Bool, true, false, ◌||◌, Option, none, some, ◌≡◌, refl, ◌↔◌, arith, if◌then◌else◌,
}
use harp_ochestration.Core.Errors.{HarpError, Result, ok, err}
use harp_ochestration.Gateway.Certificates.{
  MtlsMaterial, DeploymentMode, development, production, X509Certificate, Parsed, parsed, invalid,
  is_marked, is_past, is_ahead, check_dates, then_check, check_origin, looks_like_dev_material,
  enforce_on, enforce_trust_policy,
}

abbrev pub IsNotAfter : ℕ → Option ℕ → Type 0
IsNotAfter now none = Unit
IsNotAfter now (some date) = now ≤ date

abbrev pub IsNotBefore : ℕ → Option ℕ → Type 0
IsNotBefore now none = Unit
IsNotBefore now (some date) = date ≤ now

-- `now` is within the dates of the certificate, so far as they are dates.
abbrev pub IsCurrent : ℕ → X509Certificate → Type 0
IsCurrent now x = IsNotAfter now x.valid_to × IsNotBefore now x.valid_from

-- In production neither certificate names the development CA.
abbrev pub IsAllowed : DeploymentMode → Bool → Bool → Type 0
IsAllowed development ca cert = Unit
IsAllowed production ca cert = (ca ≡ false) × (cert ≡ false)

-- Certificates the policy is to let pass: both are certificates, current, and allowed in the mode.
abbrev pub IsTrusted : ℕ → DeploymentMode → (cert ca : Parsed) → Type 0
IsTrusted now mode (invalid message) ca = ⊥
IsTrusted now mode (parsed cert) (invalid message) = ⊥
IsTrusted now mode (parsed cert) (parsed ca) =
    IsCurrent now cert
    × IsCurrent now ca
    × IsAllowed mode (is_marked (parsed ca)) (is_marked (parsed cert))

past_iff : (now : ℕ) (date : Option ℕ) → (is_past now date ≡ false) ↔ IsNotAfter now date
past_iff now none = (λ _. tt, λ _. refl)
past_iff now (some date) = ground arith

ahead_iff : (now : ℕ) (date : Option ℕ) → (is_ahead now date ≡ false) ↔ IsNotBefore now date
ahead_iff now none = (λ _. tt, λ _. refl)
ahead_iff now (some date) = ground arith

-- Two tests in a row, each of which throws.
tests_iff :
    (first second : Bool) (e f : HarpError)
    → ((if first then err e else if second then err f else ok (tt {0})) ≡ ok tt)
      ↔ ((first ≡ false) × (second ≡ false))
tests_iff true second e f = ground arith
tests_iff false true e f = ground arith
tests_iff false false e f = (λ _. (refl, refl), λ _. refl)

check_dates_iff :
    (source label : String) (now : ℕ) (x : X509Certificate)
    → (check_dates source label now x ≡ ok tt) ↔ IsCurrent now x
unfolding check_dates
check_dates_iff source label now x =
    let (only, all) = tests_iff (is_past now x.valid_to) (is_ahead now x.valid_from) _ _ in
    (
      (λ h.
          let (p, a) = only h in ((past_iff now x.valid_to).0 p, (ahead_iff now x.valid_from).0 a)),
      (λ (p, a). all ((past_iff now x.valid_to).1 p, (ahead_iff now x.valid_from).1 a)),
    )

then_check_iff :
    (first next : Result (Unit {0}))
    → (then_check first next ≡ ok tt) ↔ ((first ≡ ok tt) × (next ≡ ok tt))
then_check_iff (err e) next = ground arith
then_check_iff (ok done) next = ((λ h. (refl, h)), (λ (_, h). h))

check_origin_iff :
    (mode : DeploymentMode) (ca cert : Bool)
    → (check_origin mode (ca || cert) ≡ ok tt) ↔ IsAllowed mode ca cert
unfolding check_origin
check_origin_iff development ca cert = ((λ _. tt), (λ _. refl))
check_origin_iff production true cert = ground arith
check_origin_iff production false true = ground arith
check_origin_iff production false false = ((λ _. (refl, refl)), (λ _. refl))

enforce_on_iff :
    (now : ℕ) (mode : DeploymentMode) (source : String) (cert ca : Parsed)
    → (enforce_on mode source now (is_marked ca || is_marked cert) cert ca ≡ ok tt)
      ↔ IsTrusted now mode cert ca
unfolding enforce_on
enforce_on_iff now mode source (invalid message) ca =
    ((λ h. absurd (ground arith)), (λ h. absurd h))
enforce_on_iff now mode source (parsed cert) (invalid message) =
    ((λ h. absurd (ground arith)), (λ h. absurd h))
enforce_on_iff now mode source (parsed cert) (parsed ca) =
    let leaf = check_dates_iff source "leaf" now cert in
    let root = check_dates_iff source "ca" now ca in
    let origin = check_origin_iff mode (is_marked (parsed ca)) (is_marked (parsed cert)) in
    let second = then_check_iff (check_dates source "ca" now ca) _ in
    let first = then_check_iff (check_dates source "leaf" now cert) _ in
    (
      (λ h.
          let (l, rest) = first.0 h in
          let (c, o) = second.0 rest in (leaf.0 l, root.0 c, origin.0 o)),
      (λ (l, c, o). first.1 (leaf.1 l, second.1 (root.1 c, origin.1 o))),
    )

-- The trust policy passes exactly when both the leaf and the CA certificate parse, the time is
-- within the dates of each so far as these are dates, and, in production mode, the marker of the
-- development CA is in the subject or the issuer of neither. It throws in every other case.
pub enforce_trust_policy_iff :
    {B : Type 0} (parse : B → Parsed) (now : ℕ) (mode : DeploymentMode) (material : MtlsMaterial B)
    (source : String)
    → (enforce_trust_policy parse now mode material source ≡ ok tt)
      ↔ IsTrusted now mode (parse material.cert) (parse material.ca)
unfolding enforce_trust_policy looks_like_dev_material
enforce_trust_policy_iff parse now mode material source =
    enforce_on_iff now mode source (parse material.cert) (parse material.ca)
