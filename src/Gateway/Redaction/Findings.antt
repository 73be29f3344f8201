-- ===== src/Gateway/Redaction/Findings.antt =====
-- What the findings of a redaction say about its text.
use harp_ochestration.Prelude.{
  ℕ, zero, suc, String, List, [], ◌∷◌, ◌++◌, ◌≡◌, refl, sym, ap, ◌∙◌, All, arith, ◌⧺◌, ◌↔◌,
}
use harp_ochestration.Gateway.Redaction.{
  RedactionFinding, Piece, between, matched, Rule, Patterns, rules_of, replaced, count_of,
  finding_of, redact_by, default_redactor,
}

abbrev pub joined : List Piece → String
joined [] = ""
joined (between s ∷ more) = s ⧺ joined more
joined (matched s ∷ more) = s ⧺ joined more

-- A rule whose expression cuts each text into pieces of that text.
abbrev pub Cuts : Rule → Type 0
Cuts rule = (text : String) → joined (rule.pattern text) ≡ text

-- No rule has a match in the text.
abbrev pub Matchless : List Rule → String → Type 0
Matchless rules text = All (λ (rule : Rule). count_of (rule.pattern text) ≡ 0) rules

replaced-joined :
    (token : String) (pieces : List Piece)
    → count_of pieces ≡ 0
    → replaced token pieces ≡ joined pieces
replaced-joined token [] h = refl
replaced-joined token (between s ∷ more) h = ap (λ t. s ⧺ t) (replaced-joined token more h)
replaced-joined token (matched s ∷ more) h = absurd (omega arith)

reported-count :
    (kind : String) (count : ℕ) (later : List RedactionFinding)
    → finding_of kind count ++ later ≡ []
    → (count ≡ 0) × (later ≡ [])
reported-count kind zero later h = (refl, h)
reported-count kind (suc n) later h = absurd (ground (arith, h))

redact_by-Matchless :
    (rules : List Rule) (text : String)
    → All Cuts rules
    → (redact_by rules text).findings ≡ []
    → Matchless rules text × ((redact_by rules text).text ≡ text)
unfolding redact_by
redact_by-Matchless [] text cuts h = (tt, refl)
redact_by-Matchless (rule ∷ rules) text (cut, cuts) h =
    let (none_here, none_later) = reported-count rule.kind (count_of (rule.pattern text)) _ h in
    let same = replaced-joined rule.token (rule.pattern text) none_here ∙ cut text in
    let (m, kept) =
      redact_by-Matchless rules text cuts
        (ap (λ u. (redact_by rules u).findings) (sym same) ∙ none_later) in
    ((none_here, m), ap (λ u. (redact_by rules u).text) same ∙ kept)

redact_by-quiet :
    (rules : List Rule) (text : String)
    → All Cuts rules
    → Matchless rules text
    → (redact_by rules text).findings ≡ []
unfolding redact_by
redact_by-quiet [] text cuts m = refl
redact_by-quiet (rule ∷ rules) text (cut, cuts) (none_here, m) =
    rw (none_here, replaced-joined rule.token (rule.pattern text) none_here ∙ cut text)
      (redact_by-quiet rules text cuts m)

-- Where each expression cuts a text into pieces of that text, a redaction by the default rules and
-- any extra ones reports nothing exactly when no rule has a match in the text as it was given; and then
-- the text is returned unchanged.
pub default_redactor_iff :
    (patterns : Patterns) (extra_rules : List Rule) (text : String)
    → All Cuts (rules_of patterns extra_rules)
    → ((default_redactor patterns extra_rules text).findings ≡ []) ↔ (
        Matchless (rules_of patterns extra_rules) text
        × ((default_redactor patterns extra_rules text).text ≡ text))
unfolding default_redactor
default_redactor_iff patterns extra_rules text cuts = (
  redact_by-Matchless (rules_of patterns extra_rules) text cuts,
  λ (m, kept). redact_by-quiet (rules_of patterns extra_rules) text cuts m,
)
