-- ===== src/Prelude/Pieces.antt =====
-- A text that is split at a separator and trimmed, against pieces with white space around them.
use Prim.Native.Nat.{ℕ}
use Prim.Native.Char.{Char, code}
use mathlib.Core.Path.{◌≡◌, refl, sym, ap, ◌∙◌}
use mathlib.Core.Bool.{Bool, true, false, not, ◌&&◌}
use mathlib.Core.List.{
  List, [], ◌∷◌, ◌++◌, reverse, reverse-append, reverse-cons, reverse-reverse, append-nil,
  append_assoc,
}
use native.Mathlib.Omega.{arith}
use harp_ochestration.Prelude.Tests.{nat_eqb}
use harp_ochestration.Prelude.Lists.{All, All-append}
use harp_ochestration.Prelude.Text.{is_space, trim_start, trim_chars, split_on, split_chars}

abbrev pub AllBlank : List Char → Type 0
AllBlank s = All (λ c. is_space (code c) ≡ true) s

abbrev pub Lacks : ℕ → List Char → Type 0
Lacks sep s = All (λ c. nat_eqb (code c) sep ≡ false) s

abbrev pub IsSolid : List Char → Type 0
IsSolid s = (x : Char) × (l : List Char) × (s ≡ x ∷ l) × (is_space (code x) ≡ false)

abbrev pub lacks : ℕ → List Char → Bool
lacks sep [] = true
lacks sep (c ∷ cs) = not (nat_eqb (code c) sep) && lacks sep cs

pub lacks-Lacks : (sep : ℕ) (s : List Char) → lacks sep s ≡ true → Lacks sep s
lacks-Lacks sep [] h = tt
lacks-Lacks sep (c ∷ cs) h = (ground (arith, h), lacks-Lacks sep cs (ground (arith, h)))

-- White space has no comma.
pub AllBlank-Lacks : (s : List Char) → AllBlank s → Lacks b',' s
AllBlank-Lacks [] h = tt
AllBlank-Lacks (c ∷ cs) (t, h) = (ground (arith, t), AllBlank-Lacks cs h)

AllBlank-reverse : (s : List Char) → AllBlank s → AllBlank (reverse s)
AllBlank-reverse [] h = tt
AllBlank-reverse (c ∷ cs) (t, h) = rw (reverse-cons c cs) (
    All-append (λ x. is_space (code x) ≡ true) (reverse cs) (c ∷ []) (AllBlank-reverse cs h)
      (t, tt))

trim_start-AllBlank :
    (blank s : List Char) → AllBlank blank → trim_start code (blank ++ s) ≡ trim_start code s
trim_start-AllBlank [] s h = refl
trim_start-AllBlank (c ∷ cs) s (t, h) = rw t (trim_start-AllBlank cs s h)

trim_start-IsSolid : (s rest : List Char) → IsSolid s → trim_start code (s ++ rest) ≡ s ++ rest
trim_start-IsSolid s rest (x, l, e, f) = rw e (rw f refl)

-- The white space at both ends goes, and nothing else.
pub trim_chars-IsSolid :
    (front s back : List Char)
    → AllBlank front
    → AllBlank back
    → IsSolid s
    → IsSolid (reverse s)
    → trim_chars (front ++ (s ++ back)) ≡ s
unfolding trim_chars
trim_chars-IsSolid front s back before behind start end =
    ap (λ l. reverse (trim_start code (reverse l)))
      (trim_start-AllBlank front (s ++ back) before ∙ trim_start-IsSolid s back start)
    ∙ ap (λ l. reverse (trim_start code l)) (reverse-append s back)
    ∙ ap reverse (
        trim_start-AllBlank (reverse back) (reverse s) (AllBlank-reverse back behind)
        ∙ ap (trim_start code) (sym (append-nil (reverse s)))
        ∙ trim_start-IsSolid (reverse s) [] end
        ∙ append-nil (reverse s))
    ∙ reverse-reverse s

module _ (sep : ℕ) where
  split_on-Lacks :
      (word s : List Char) → Lacks sep s → split_on code sep word s ≡ (reverse word ++ s) ∷ []
  split_on-Lacks word [] h = ap (λ l. l ∷ []) (sym (append-nil (reverse word)))
  split_on-Lacks word (c ∷ cs) (n, h) = rw n (
      split_on-Lacks (c ∷ word) cs h
      ∙ ap (λ l. l ∷ [])
          (ap (λ l. l ++ cs) (reverse-cons c word) ∙ append_assoc (reverse word) (c ∷ []) cs))

  split_on-cut :
      (word s : List Char) (at : Char) (rest : List Char)
      → Lacks sep s
      → nat_eqb (code at) sep ≡ true
      → split_on code sep word (s ++ at ∷ rest) ≡ (reverse word ++ s) ∷ split_on code sep [] rest
  split_on-cut word [] at rest h e =
      rw e (ap (λ l. l ∷ split_on code sep [] rest) (sym (append-nil (reverse word))))
  split_on-cut word (c ∷ cs) at rest (n, h) e = rw n (
      split_on-cut (c ∷ word) cs at rest h e
      ∙ ap (λ l. l ∷ split_on code sep [] rest)
          (ap (λ l. l ++ cs) (reverse-cons c word) ∙ append_assoc (reverse word) (c ∷ []) cs))

  -- A text without the separator is one piece.
  pub split_chars-Lacks : (s : List Char) → Lacks sep s → split_chars sep s ≡ s ∷ []
  unfolding split_chars
  split_chars-Lacks s h = split_on-Lacks [] s h

  -- In front of the first separator stands the first piece.
  pub split_chars-cut :
      (s : List Char) (at : Char) (rest : List Char)
      → Lacks sep s
      → nat_eqb (code at) sep ≡ true
      → split_chars sep (s ++ at ∷ rest) ≡ s ∷ split_chars sep rest
  unfolding split_chars
  split_chars-cut s at rest h e = split_on-cut [] s at rest h e
