-- ===== src/Agents/Output.antt =====
-- src/agents/BaseAgent.ts: the defensive parse of a model's text, over its code points.
pub mod Noise
use harp_ochestration.Prelude.{
  ℕ, zero, suc, ◌-◌, String, Bool, true, false, ◌&&◌, List, [], ◌∷◌, Option, none, some,
  if◌then◌else◌, map, length, ◌==◌, nat_eq, codes, is_prefix, to_lower, trim,
}
use harp_ochestration.Agents.Json.{
  Json, null, boolean, number, string, array, object, ParseJson, property, is_truthy, strings,
}

pub record ModelOutput : Type 0 where
  pub summary : String
  pub findings : List String
  pub risks : List String
  pub recommendations : List String
  pub unknowns : List String
  pub next_safe_step : String
  pub assumptions : List String
  pub files_affected : Option (List String)
  pub test_plan : Option (List String)
  pub rollback_plan : Option (List String)
  pub validation_commands : Option (List String)

-- `text.replace(needle, "")` for all matches, from the left; `skip` counts what is left of a match.
abbrev pub remove_from : List ℕ → (ℕ → ℕ) → ℕ → List ℕ → List ℕ
remove_from needle fold skip [] = []
remove_from needle fold (suc k) (c ∷ cs) = remove_from needle fold k cs
remove_from needle fold zero (c ∷ cs) =
    let dropped = remove_from needle fold (length needle - 1) cs in
    let kept = c ∷ remove_from needle fold zero cs in
    if is_prefix needle (map fold (c ∷ cs)) then dropped else kept

-- "```json", whatever its case, and "```".
abbrev pub remove_json_fence : List ℕ → List ℕ
remove_json_fence s = remove_from (codes "```json") to_lower zero s

abbrev pub remove_fence : List ℕ → List ℕ
remove_fence s = remove_from (codes "```") (λ c. c) zero s

unfoldable pub cleaned : List ℕ → List ℕ
cleaned text = trim (remove_fence (remove_json_fence text))

-- From the first "{" on.
abbrev pub from_brace : List ℕ → List ℕ
from_brace [] = []
from_brace (c ∷ cs) = if c == b'{' then c ∷ cs else from_brace cs

abbrev pub keep : ℕ → Option (List ℕ) → Option (List ℕ)
keep c (some rest) = some (c ∷ rest)
keep c none = if c == b'}' then some (c ∷ []) else none

-- Up to the last "}", if there is one.
abbrev pub to_last_brace : List ℕ → Option (List ℕ)
to_last_brace [] = none
to_last_brace (c ∷ cs) = keep c (to_last_brace cs)

-- `cleaned.slice(firstBrace, lastBrace + 1)`, unless there is no such pair of braces.
abbrev pub candidate : List ℕ → Option (List ℕ)
candidate s = to_last_brace (from_brace s)

abbrev pub str : Option Json → String
str (some (string s)) = s
str (some null) = ""
str (some (boolean b)) = ""
str (some (number z)) = ""
str (some (array items)) = ""
str (some (object fields)) = ""
str none = ""

abbrev pub str_array : Option Json → List String
str_array (some (array items)) = strings items
str_array (some null) = []
str_array (some (boolean b)) = []
str_array (some (number z)) = []
str_array (some (string s)) = []
str_array (some (object fields)) = []
str_array none = []

abbrev optional : Option Json → Option (List String)
optional value = if is_truthy value then some (str_array value) else none

unfoldable pub read_output : Json → ModelOutput
read_output obj = record {
  summary = str (property "summary" obj);
  findings = str_array (property "findings" obj);
  risks = str_array (property "risks" obj);
  recommendations = str_array (property "recommendations" obj);
  unknowns = str_array (property "unknowns" obj);
  next_safe_step = str (property "nextSafeStep" obj);
  assumptions = str_array (property "assumptions" obj);
  files_affected = optional (property "filesAffected" obj);
  test_plan = optional (property "testPlan" obj);
  rollback_plan = optional (property "rollbackPlan" obj);
  validation_commands = optional (property "validationCommands" obj);
}

-- A `null` has no fields, and the access throws into the same `catch`.
abbrev pub read_json : Option Json → Option ModelOutput
read_json none = none
read_json (some null) = none
read_json (some (boolean b)) = some (read_output (boolean b))
read_json (some (number z)) = some (read_output (number z))
read_json (some (string s)) = some (read_output (string s))
read_json (some (array items)) = some (read_output (array items))
read_json (some (object fields)) = some (read_output (object fields))

abbrev pub read_candidate : ParseJson → Option (List ℕ) → Option ModelOutput
read_candidate parse none = none
read_candidate parse (some text) = read_json (parse text)

unfoldable pub parse_model_output : ParseJson → String → Option ModelOutput
parse_model_output parse text = read_candidate parse (candidate (cleaned (codes text)))
