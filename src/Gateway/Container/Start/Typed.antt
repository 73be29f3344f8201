-- ===== src/Gateway/Container/Start/Typed.antt =====
-- What the casts of container/src/index.ts read from an environment that is written well.
use Prim.Native.String
use harp_ochestration.Prelude.{
  String, List, [], ◌∷◌, ◌++◌, some, ◌≡◌, refl, sym, ap, ◌∙◌, map, join, All, All-append, or_else,
  chars, text_of, ◌⧺◌, trim_chars, split_chars, ◌==◌, string_eq, true, false, eq_iff, Bool-cases,
  inl, inr,
}
use mathlib.Core.List.{reverse}
use harp_ochestration.Prelude.Pieces.{
  AllBlank, Lacks, IsSolid, lacks, lacks-Lacks, AllBlank-Lacks, trim_chars-IsSolid,
  split_chars-Lacks, split_chars-cut,
}
use harp_ochestration.Core.Ids.{ModelClass, class_name, local_fast}
use harp_ochestration.Orchestration.Activation.{Environment}
use harp_ochestration.Gateway.Wire.{Tier, primary, backup, ContainerDescriptor}
use harp_ochestration.Gateway.Container.Start.{
  RawDescriptor, descriptor_of, parse_classes, pieces_of,
}

abbrev pub tier_name : Tier → String
tier_name primary = "primary"
tier_name backup = "backup"

-- The descriptor as a value of its type.
pub record IsTypedAs (raw : RawDescriptor) (d : ContainerDescriptor) : Type 0 where
  pub id : raw.id ≡ d.id
  pub serves_classes : raw.serves_classes ≡ map class_name d.serves_classes
  pub tier : raw.tier ≡ tier_name d.tier
  pub provider_family : raw.provider_family ≡ d.provider_family

-- A model class as somebody writes it between two commas.
pub record Entry : Type 0 where
  pub front : String
  pub model_class : ModelClass
  pub back : String

abbrev pub written : Entry → String
written e = e.front ⧺ class_name e.model_class ⧺ e.back

-- There is nothing but white space around the class.
abbrev pub IsPadded : Entry → Type 0
IsPadded e = AllBlank (chars e.front) × AllBlank (chars e.back)

chars-append : (s t : String) → chars (s ⧺ t) ≡ chars s ++ chars t
chars-append String.[] t = ap chars (String.append.nil t)
chars-append (String.◌∷◌ c s) t =
    ap chars (String.append.cons c s t) ∙ ap (λ l. c ∷ l) (chars-append s t)

chars-written :
    (e : Entry)
    → chars (written e) ≡ chars e.front ++ (chars (class_name e.model_class) ++ chars e.back)
chars-written e =
    chars-append e.front (class_name e.model_class ⧺ e.back)
    ∙ ap (λ l. chars e.front ++ l) (chars-append (class_name e.model_class) e.back)

text_of-name : (c : ModelClass) → text_of (chars (class_name c)) ≡ class_name c
unfolding class_name
text_of-name local_fast = refl
text_of-name _ = refl

name-IsSolid : (c : ModelClass) → IsSolid (chars (class_name c))
unfolding class_name
name-IsSolid local_fast = (_, _, refl, refl)
name-IsSolid _ = (_, _, refl, refl)

reverse_name-IsSolid : (c : ModelClass) → IsSolid (reverse (chars (class_name c)))
unfolding class_name
reverse_name-IsSolid local_fast = (_, _, refl, refl)
reverse_name-IsSolid _ = (_, _, refl, refl)

lacks-name : (c : ModelClass) → lacks b',' (chars (class_name c)) ≡ true
unfolding class_name
lacks-name local_fast = refl
lacks-name _ = refl

name-Lacks : (c : ModelClass) → Lacks b',' (chars (class_name c))
name-Lacks c = lacks-Lacks b',' (chars (class_name c)) (lacks-name c)

written-Lacks : (e : Entry) → IsPadded e → Lacks b',' (chars (written e))
written-Lacks e (f, b) = rw (chars-written e) (
    All-append _ (chars e.front) _ (AllBlank-Lacks (chars e.front) f) (
      All-append _ (chars (class_name e.model_class)) _ (name-Lacks e.model_class)
        (AllBlank-Lacks (chars e.back) b)))

-- Trimmed, it is the name.
trim_written :
    (e : Entry) → IsPadded e → text_of (trim_chars (chars (written e))) ≡ class_name e.model_class
trim_written e (f, b) =
    ap (λ l. text_of (trim_chars l)) (chars-written e)
    ∙ ap text_of (
        trim_chars-IsSolid (chars e.front) (chars (class_name e.model_class)) (chars e.back) f b
          (name-IsSolid e.model_class) (reverse_name-IsSolid e.model_class))
    ∙ text_of-name e.model_class

pieces_of-join :
    (e : Entry) (es : List Entry)
    → All IsPadded (e ∷ es)
    → pieces_of (join "," (map written (e ∷ es))) ≡ map (λ x. class_name x.model_class) (e ∷ es)
unfolding pieces_of
pieces_of-join e [] (p, h) =
    ap (map (λ s. text_of (trim_chars s)))
      (split_chars-Lacks b',' (chars (written e)) (written-Lacks e p))
    ∙ ap (λ s. s ∷ []) (trim_written e p)
pieces_of-join e (x ∷ es) (p, h) =
    let rest = join "," (map written (x ∷ es)) in
    ap (λ l. map (λ s. text_of (trim_chars s)) (split_chars b',' l))
      (chars-append (written e) ("," ⧺ rest)
        ∙ ap (λ l. chars (written e) ++ l) (chars-append "," rest))
    ∙ ap (map (λ s. text_of (trim_chars s)))
        (split_chars-cut b',' (chars (written e)) _ (chars rest) (written-Lacks e p) refl)
    ∙ ap (λ s. s ∷ pieces_of rest) (trim_written e p)
    ∙ ap (λ l. class_name e.model_class ∷ l) (pieces_of-join x es h)

name_not_empty : (c : ModelClass) → class_name c ≡ "" → ⊥
name_not_empty c e = let (x, l, h, n) = name-IsSolid c in cc (h, ap chars e)

-- A text with a class in it is not empty.
join-written :
    (e : Entry) (es : List Entry)
    → All IsPadded (e ∷ es)
    → (join "," (map written (e ∷ es)) == "") ≡ false
unfolding pieces_of
join-written e es h = elim (Bool-cases (join "," (map written (e ∷ es)) == "")) [
  | inr f ↦ f
  | inl t ↦ absurd (
      name_not_empty e.model_class
        (first (sym (pieces_of-join e es h) ∙ ap pieces_of ((eq_iff _ "").0 t))))
]
  where
    first : {a b : String} {xs ys : List String} → a ∷ xs ≡ b ∷ ys → a ≡ b
    first p = cc p

-- The classes of any entries, at least one, that are written with white space around them and
-- joined with commas, are read back.
parse_classes-join :
    (e : Entry) (es : List Entry)
    → All IsPadded (e ∷ es)
    → parse_classes (some (join "," (map written (e ∷ es))))
      ≡ map (λ x. class_name x.model_class) (e ∷ es)
unfolding parse_classes
parse_classes-join e es h = rw (join-written e es h) (pieces_of-join e es h)

map-map :
    (es : List Entry)
    → map (λ x. class_name x.model_class) es ≡ map class_name (map (λ x. x.model_class) es)
map-map [] = refl
map-map (e ∷ es) = ap (λ l. class_name e.model_class ∷ l) (map-map es)

-- When the environment names one or more model classes, with commas between them and any white space
-- around each, and a tier, then the descriptor that the container reads is a value of the type to
-- which it is cast: it serves these classes in this order and has this tier, and the id and the
-- family are those of the environment, or "stub-primary" and "stub" where it names none.
pub descriptor_of-IsTypedAs :
    (env : Environment) (e : Entry) (es : List Entry) (tier : Tier)
    → All IsPadded (e ∷ es)
    → env "HARP_CONTAINER_CLASSES" ≡ some (join "," (map written (e ∷ es)))
    → env "HARP_CONTAINER_TIER" ≡ some (tier_name tier)
    → IsTypedAs (descriptor_of env) (record {
      id = or_else (env "HARP_CONTAINER_ID") "stub-primary";
      serves_classes = map (λ x. x.model_class) (e ∷ es);
      tier = tier;
      provider_family = or_else (env "HARP_CONTAINER_FAMILY") "stub";
    })
unfolding descriptor_of
descriptor_of-IsTypedAs env e es tier h classes at = record {
  id = refl;
  serves_classes = ap parse_classes classes ∙ parse_classes-join e es h ∙ map-map (e ∷ es);
  tier = rw at refl;
  provider_family = refl;
}
