-- ===== src/Prelude/Text.antt =====
-- Texts by their code points: case folding, substrings and decimal numerals.
use Prim.Native.Nat.{ℕ, zero, suc, ◌+◌, ◌-◌, ◌/◌, ◌%◌}
use Prim.Native.Char.{Char, code}
use Prim.Native.String.{String}
use Prim.Native.String
use mathlib.Core.Path.{◌≡◌, refl}
use mathlib.Core.Bool.{Bool, true, false, ◌&&◌, ◌||◌}
use mathlib.Core.List.{List, [], ◌∷◌, map, reverse}
use mathlib.Core.Logic.{◌↔◌}
use native.Mathlib.Omega.{arith}
use harp_ochestration.Prelude.Maps.{lookup}
use harp_ochestration.Prelude.Tests.{
  or_else, nat_eq, Eq, ltb, leb, nat_eqb, nat_eqb_iff, if◌then◌else◌,
}

abbrev pub codes : String → List ℕ
codes String.[] = []
codes (String.◌∷◌ c rest) = code c ∷ codes rest

infixr 60 ◌⧺◌
-- Concatenation, as in a template literal.
abbrev pub ◌⧺◌ : String → String → String
s ⧺ t = String.◌++◌ s t

-- `toLowerCase` on a code point; letters outside ASCII are left as they are.
abbrev pub to_lower : ℕ → ℕ
to_lower c = if leb b'A' c && leb c b'Z' then c + 32 else c

unfoldable pub lower_case : String → List ℕ
lower_case s = map to_lower (codes s)

abbrev pub is_prefix : List ℕ → List ℕ → Bool
is_prefix [] ys = true
is_prefix (x ∷ xs) [] = false
is_prefix (x ∷ xs) (y ∷ ys) = nat_eqb x y && is_prefix xs ys

-- `hay.includes(needle)`
unfoldable pub includes : List ℕ → List ℕ → Bool
includes [] needle = is_prefix needle []
includes (c ∷ hay) needle = is_prefix needle (c ∷ hay) || includes hay needle

abbrev codes_eqb : List ℕ → List ℕ → Bool
codes_eqb [] [] = true
codes_eqb [] (y ∷ ys) = false
codes_eqb (x ∷ xs) [] = false
codes_eqb (x ∷ xs) (y ∷ ys) = nat_eqb x y && codes_eqb xs ys

pub codes_eqb_iff : (xs ys : List ℕ) → (codes_eqb xs ys ≡ true) ↔ (xs ≡ ys)
codes_eqb_iff [] [] = ground arith
codes_eqb_iff [] (y ∷ ys) = ground arith
codes_eqb_iff (x ∷ xs) [] = ground arith
codes_eqb_iff (x ∷ xs) (y ∷ ys) = ground (arith, nat_eqb_iff x y, codes_eqb_iff xs ys)

-- Two texts are the same when their code points are.
instance abbrev pub codes_eq : Eq (List ℕ)
codes_eq = record { eqb = codes_eqb; eqb_iff = codes_eqb_iff }

abbrev pub chars : String → List Char
chars String.[] = []
chars (String.◌∷◌ c rest) = c ∷ chars rest

abbrev pub text_of : List Char → String
text_of [] = String.[]
text_of (c ∷ rest) = String.◌∷◌ c (text_of rest)

-- `xs.join(sep)`
abbrev pub join : String → List String → String
join sep [] = ""
join sep (s ∷ []) = s
join sep (s ∷ t ∷ rest) = s ⧺ sep ⧺ join sep (t ∷ rest)

-- The length of a text in JavaScript, where a code point above 65535 takes two units.
abbrev pub units : List ℕ → ℕ
units [] = 0
units (c ∷ cs) = (if leb 65_536 c then 2 else 1) + units cs

abbrev zip_letters : List ℕ → List Char → List (ℕ × Char)
zip_letters [] ds = []
zip_letters (c ∷ cs) [] = []
zip_letters (c ∷ cs) (d ∷ ds) = (c, d) ∷ zip_letters cs ds

small_letters : List (ℕ × Char)
small_letters =
    zip_letters (codes "ABCDEFGHIJKLMNOPQRSTUVWXYZ") (chars "abcdefghijklmnopqrstuvwxyz")

-- `s.toLowerCase()` as a text.
unfoldable pub lower_text : String → String
unfolding small_letters
lower_text s = text_of (map (λ c. or_else (lookup (code c) small_letters) c) (chars s))

-- `s.slice(0, n)`; of a code point of two units that is cut in half, nothing is left.
abbrev pub slice_to : ℕ → List Char → List Char
slice_to n [] = []
slice_to n (c ∷ cs) =
    let width = if leb 65_536 (code c) then 2 else 1 in
    let rest = slice_to (n - width) cs in if leb width n then c ∷ rest else []

-- What `trim` takes off: white space and line ends.
abbrev pub is_space : ℕ → Bool
is_space c =
    (leb 9 c && leb c 13)
    || nat_eqb c 32
    || nat_eqb c 160
    || nat_eqb c 0x1680
    || (leb 0x2000 c && leb c 0x200A)
    || nat_eqb c 0x2028
    || nat_eqb c 0x2029
    || nat_eqb c 0x202F
    || nat_eqb c 0x205F
    || nat_eqb c 0x3000
    || nat_eqb c 0xFEFF

module _ {A : Type 0} (num : A → ℕ) where
  abbrev pub trim_start : List A → List A
  trim_start [] = []
  trim_start (c ∷ cs) = if is_space (num c) then trim_start cs else c ∷ cs

  abbrev pub trim_end : List A → List A
  trim_end s = reverse (trim_start (reverse s))

  abbrev pub split_on : ℕ → List A → List A → List (List A)
  split_on sep word [] = reverse word ∷ []
  split_on sep word (c ∷ cs) =
      let later = split_on sep [] cs in
      let longer = split_on sep (c ∷ word) cs in
      if nat_eqb (num c) sep then reverse word ∷ later else longer

-- `s.trim()`
unfoldable pub trim : List ℕ → List ℕ
trim s = trim_end (λ c. c) (trim_start (λ c. c) s)

unfoldable pub trim_chars : List Char → List Char
trim_chars s = trim_end code (trim_start code s)

-- `s.split(sep)` for a separator of one code point
unfoldable pub split : ℕ → List ℕ → List (List ℕ)
split sep s = split_on (λ c. c) sep [] s

unfoldable pub split_chars : ℕ → List Char → List (List Char)
split_chars sep s = split_on code sep [] s

digit : ℕ → String
digit zero = "0"
digit (suc zero) = "1"
digit (suc (suc zero)) = "2"
digit (suc (suc (suc zero))) = "3"
digit (suc (suc (suc (suc zero)))) = "4"
digit (suc (suc (suc (suc (suc zero))))) = "5"
digit (suc (suc (suc (suc (suc (suc zero)))))) = "6"
digit (suc (suc (suc (suc (suc (suc (suc zero))))))) = "7"
digit (suc (suc (suc (suc (suc (suc (suc (suc zero)))))))) = "8"
digit _ = "9"

decimal_on : ℕ → ℕ → String
decimal_on zero n = ""
decimal_on (suc fuel) n =
    let more = decimal_on fuel (n / 10) in if ltb n 10 then digit n else more ⧺ digit (n % 10)

-- A whole number in a template literal. A number has fewer digits than itself and one.
unfoldable pub decimal : ℕ → String
unfolding decimal_on digit
decimal n = decimal_on (suc n) n

decimal_test : decimal 200_417 ≡ "200417"
unfolding decimal
decimal_test = refl

split_test : map trim (split b',' (codes " a, ,b")) ≡ codes "a" ∷ [] ∷ codes "b" ∷ []
unfolding trim split
split_test = refl

lower_test : lower_text "HarP-1" ≡ "harp-1"
unfolding lower_text lookup
lower_test = refl
