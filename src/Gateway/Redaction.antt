-- ===== src/Gateway/Redaction.antt =====
-- src/gateway/redaction/Redactor.ts. How a regular expression cuts a text into matches and what
-- stands between them is an argument.
pub mod Findings
use harp_ochestration.Prelude.{ℕ, zero, suc, String, List, [], ◌∷◌, ◌++◌, if◌then◌else◌, ltb, ◌⧺◌}

pub record RedactionFinding : Type 0 where
  pub kind : String
  pub count : ℕ

pub record RedactionResult : Type 0 where
  pub text : String
  pub findings : List RedactionFinding

-- `redact` of a `Redactor`
abbrev pub Redactor : Type 0
Redactor = String → RedactionResult

-- A text as a regular expression with the flag `g` cuts it.
pub data Piece : Type 0 where
  between : String → Piece
  matched : String → Piece

abbrev pub RegExp : Type 0
RegExp = String → List Piece

pub record Rule : Type 0 where
  pub kind : String
  pub pattern : RegExp
  pub token : String

-- The patterns of the default rules.
pub record Patterns : Type 0 where
  pub email : RegExp
  pub phone : RegExp
  pub credit_card : RegExp
  pub ssn : RegExp
  pub ip : RegExp
  pub secret_token : RegExp
  pub bearer : RegExp

-- The default rules in the order in which the constructor puts them, with the extra ones behind.
unfoldable pub rules_of : Patterns → List Rule → List Rule
rules_of patterns extra_rules =
    record { kind = "ip"; pattern = patterns.ip; token = "[REDACTED_IP]" }
    ∷ record { kind = "secret_token"; pattern = patterns.secret_token; token = "[REDACTED_SECRET]" }
    ∷ record { kind = "bearer"; pattern = patterns.bearer; token = "[REDACTED_BEARER]" }
    ∷ record { kind = "email"; pattern = patterns.email; token = "[REDACTED_EMAIL]" }
    ∷ record { kind = "ssn"; pattern = patterns.ssn; token = "[REDACTED_SSN]" }
    ∷ record { kind = "credit_card"; pattern = patterns.credit_card; token = "[REDACTED_CC]" }
    ∷ record { kind = "phone"; pattern = patterns.phone; token = "[REDACTED_PHONE]" }
    ∷ extra_rules

-- `text.replace(pattern, () => token)` on the pieces, and how often the callback is run.
abbrev pub replaced : String → List Piece → String
replaced token [] = ""
replaced token (between s ∷ more) = s ⧺ replaced token more
replaced token (matched s ∷ more) = token ⧺ replaced token more

abbrev pub count_of : List Piece → ℕ
count_of [] = zero
count_of (between s ∷ more) = count_of more
count_of (matched s ∷ more) = suc (count_of more)

abbrev pub finding_of : String → ℕ → List RedactionFinding
finding_of kind count = if ltb 0 count then record { kind = kind; count = count } ∷ [] else []

unfoldable pub redact_by : List Rule → String → RedactionResult
redact_by [] working = record { text = working; findings = [] }
redact_by (rule ∷ rules) working =
    let pieces = rule.pattern working in
    let later = redact_by rules (replaced rule.token pieces) in
    record {
      text = later.text;
      findings = finding_of rule.kind (count_of pieces) ++ later.findings;
    }

unfoldable pub default_redactor : Patterns → List Rule → Redactor
unfolding redact_by rules_of
default_redactor patterns extra_rules text = redact_by (rules_of patterns extra_rules) text

unfoldable pub noop_redactor : Redactor
noop_redactor text = record { text = text; findings = [] }
