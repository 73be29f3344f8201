-- ===== src/Agents/Output/Noise.antt =====
-- The parse sees through what a model writes around its object.
use harp_ochestration.Prelude.{
  ℕ, zero, String, true, false, List, [], ◌∷◌, ◌++◌, none, some, ◌≡◌, refl, sym, ap, ◌∙◌, ◌⊎◌, inl,
  inr, arith, ◌==◌, nat_eq, codes, to_lower, trim, trim_start, trim_end, is_space, All, Bool-cases,
  All-append,
}
use mathlib.Core.List.{reverse, reverse-append, reverse-cons, reverse-reverse, append-nil}
use harp_ochestration.Agents.Json.{ParseJson}
use harp_ochestration.Agents.Output.{
  remove_from, remove_json_fence, remove_fence, cleaned, from_brace, to_last_brace, keep, candidate,
  read_json, read_candidate, parse_model_output,
}

-- No code point of a text is `c`.
abbrev pub Lacks : ℕ → List ℕ → Type 0
Lacks c s = All (λ x. (x == c) ≡ false) s

-- A text without a back-tick is kept, whatever follows.
remove_from-Lacks :
    (needle : List ℕ) (fold : ℕ → ℕ) (s rest : List ℕ)
    → ((x : ℕ) → (x == b'`') ≡ false → (b'`' == fold x) ≡ false)
    → Lacks b'`' s
    → remove_from (b'`' ∷ needle) fold zero (s ++ rest)
      ≡ s ++ remove_from (b'`' ∷ needle) fold zero rest
remove_from-Lacks needle fold [] rest f h = refl
remove_from-Lacks needle fold (c ∷ cs) rest f (n, h) =
    rw (f c n, remove_from-Lacks needle fold cs rest f h) refl

keep_json :
    (s rest : List ℕ) → Lacks b'`' s → remove_json_fence (s ++ rest) ≡ s ++ remove_json_fence rest
keep_json s rest h = remove_from-Lacks (codes "``json") to_lower s rest (λ x n. ground (arith, n)) h

keep_fence : (s rest : List ℕ) → Lacks b'`' s → remove_fence (s ++ rest) ≡ s ++ remove_fence rest
keep_fence s rest h = remove_from-Lacks (codes "``") (λ c. c) s rest (λ x n. ground (arith, n)) h

-- A text in a fence, or as it stands.
abbrev pub Wraps : List ℕ → List ℕ → Type 0
Wraps inner text = (text ≡ inner) ⊎ (text ≡ codes "```json" ++ (inner ++ codes "```"))

unwrap :
    (inner text : List ℕ)
    → Lacks b'`' inner
    → Wraps inner text
    → remove_fence (remove_json_fence text) ≡ inner
unwrap inner text h (inl e) =
    ap (λ t. remove_fence (remove_json_fence t)) (e ∙ sym (append-nil inner))
    ∙ ap remove_fence (keep_json inner [] h)
    ∙ keep_fence inner [] h
    ∙ append-nil inner
unwrap inner text h (inr e) =
    ap (λ t. remove_fence (remove_json_fence t)) e
    ∙ ap remove_fence (keep_json inner (codes "```") h)
    ∙ keep_fence inner (codes "```") h
    ∙ append-nil inner

-- What is in front of the first opening brace does not matter.
from_brace-append :
    (before rest : List ℕ) → Lacks b'{' before → from_brace (before ++ rest) ≡ from_brace rest
from_brace-append [] rest h = refl
from_brace-append (c ∷ cs) rest (n, h) = rw n (from_brace-append cs rest h)

-- Nor what is behind the last closing one.
to_last_brace-Lacks : (s : List ℕ) → Lacks b'}' s → to_last_brace s ≡ none
to_last_brace-Lacks [] h = refl
to_last_brace-Lacks (c ∷ cs) (n, h) = rw (to_last_brace-Lacks cs h, n) refl

to_last_brace-append :
    (body behind : List ℕ)
    → Lacks b'}' behind
    → to_last_brace (body ++ b'}' ∷ behind) ≡ some (body ++ b'}' ∷ [])
to_last_brace-append [] behind h = rw (to_last_brace-Lacks behind h) refl
to_last_brace-append (c ∷ cs) behind h = rw (to_last_brace-append cs behind h) refl

-- White space at both ends does not matter either.
from_brace-trim_start : (s : List ℕ) → from_brace (trim_start (λ c. c) s) ≡ from_brace s
from_brace-trim_start [] = refl
from_brace-trim_start (c ∷ cs) = elim (Bool-cases (is_space c)) [
  | inl t ↦ rw t (from_brace-trim_start cs ∙ sym (skips c cs (space_no_brace c t)))
  | inr f ↦ rw f refl
]
  where
    space_no_brace : (x : ℕ) → is_space x ≡ true → (x == b'{') ≡ false
    space_no_brace x t = ground (arith, t)

    skips : (x : ℕ) (xs : List ℕ) → (x == b'{') ≡ false → from_brace (x ∷ xs) ≡ from_brace xs
    skips x xs n = rw n refl

abbrev AllSpace : List ℕ → Type 0
AllSpace s = All (λ x. is_space x ≡ true) s

-- The white space that is taken off in front.
leading : (s : List ℕ) → (space : List ℕ) × (space ++ trim_start (λ c. c) s ≡ s) × AllSpace space
leading [] = ([], refl, tt)
leading (c ∷ cs) = elim (Bool-cases (is_space c)) [
  | inl t ↦ let (space, e, h) = leading cs in (c ∷ space, rw t (ap (λ l. c ∷ l) e), (t, h))
  | inr f ↦ ([], rw f refl, tt)
]

AllSpace-reverse : (s : List ℕ) → AllSpace s → AllSpace (reverse s)
AllSpace-reverse [] h = tt
AllSpace-reverse (c ∷ cs) (t, h) =
    rw (reverse-cons c cs)
      (All-append (λ x. is_space x ≡ true) (reverse cs) (c ∷ []) (AllSpace-reverse cs h) (t, tt))

AllSpace-Lacks : (c : ℕ) (s : List ℕ) → is_space c ≡ false → AllSpace s → Lacks c s
AllSpace-Lacks c [] n h = tt
AllSpace-Lacks c (x ∷ xs) n (t, h) = (ground (arith, t, n), AllSpace-Lacks c xs n h)

trailing : (s : List ℕ) → (space : List ℕ) × (trim_end (λ c. c) s ++ space ≡ s) × AllSpace space
trailing s =
    let (space, e, h) = leading (reverse s) in
    (
      reverse space,
      sym (reverse-append space (trim_start (λ c. c) (reverse s)))
          ∙ ap reverse e
          ∙ reverse-reverse s,
      AllSpace-reverse space h,
    )

no_brace : (s : List ℕ) → Lacks b'{' s → from_brace s ≡ []
no_brace [] h = refl
no_brace (c ∷ cs) (n, h) = rw n (no_brace cs h)

closes : (s space : List ℕ) → Lacks b'}' space → to_last_brace (s ++ space) ≡ to_last_brace s
closes [] space h = to_last_brace-Lacks space h
closes (c ∷ cs) space h = ap (keep c) (closes cs space h)

candidate-append :
    (s space : List ℕ) → Lacks b'{' space → Lacks b'}' space → candidate (s ++ space) ≡ candidate s
candidate-append [] space opens shuts = rw (no_brace space opens) refl
candidate-append (c ∷ cs) space opens shuts = elim (Bool-cases (c == b'{')) [
  | inl t ↦ rw t (ap (keep c) (closes cs space shuts))
  | inr f ↦ rw f (candidate-append cs space opens shuts)
]

candidate-trim : (s : List ℕ) → candidate (trim s) ≡ candidate s
unfolding trim
candidate-trim s =
    let inner = trim_start (λ c. c) s in
    let (space, e, h) = trailing inner in
    sym (
      candidate-append (trim_end (λ c. c) inner) space (AllSpace-Lacks b'{' space refl h)
        (AllSpace-Lacks b'}' space refl h))
    ∙ ap candidate e
    ∙ ap to_last_brace (from_brace-trim_start s)

-- Whatever a model writes around its object, and whether it puts a fence around all of it, the
-- parse reads exactly the object: as long as no brace opens in front of it, none closes behind it,
-- and the fence has the only back-ticks.
pub parse_model_output-noise :
    (parse : ParseJson) (text : String) (before body behind : List ℕ)
    → Wraps (before ++ b'{' ∷ (body ++ b'}' ∷ behind)) (codes text)
    → Lacks b'`' (before ++ b'{' ∷ (body ++ b'}' ∷ behind))
    → Lacks b'{' before
    → Lacks b'}' behind
    → parse_model_output parse text ≡ read_json (parse (b'{' ∷ (body ++ b'}' ∷ [])))
unfolding parse_model_output cleaned
parse_model_output-noise parse text before body behind w ticks opens shuts =
    ap (read_candidate parse) (
      candidate-trim (remove_fence (remove_json_fence (codes text)))
      ∙ ap candidate (unwrap (before ++ b'{' ∷ (body ++ b'}' ∷ behind)) (codes text) ticks w)
      ∙ ap to_last_brace (from_brace-append before (b'{' ∷ (body ++ b'}' ∷ behind)) opens)
      ∙ to_last_brace-append (b'{' ∷ body) behind shuts)
