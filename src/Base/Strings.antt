-- ===== src/Base/Strings.antt =====
-- Text as a list of numbers (bytes, or code points where the source ranges over runes), and the
-- functions of Go's `strings` that the program calls.
use Prim.Native.Nat.{ℕ, zero, suc, ◌-◌}
use Prim.Native.Char.{code}
use Prim.Native.String.{String}
use mathlib.Core.Path.{◌≡◌, refl, sym, ap, ◌∙◌}
use mathlib.Core.Bool.{Bool, true, false, ◌&&◌, ◌||◌}
use mathlib.Core.Logic.{◌↔◌}
use mathlib.Core.List.{List, [], ◌∷◌, ◌++◌, reverse, reverse-reverse, reverse-append, append_assoc}
use mathlib.Core.Option
use mathlib.Core.Option.{Option, none, some}
use native.Mathlib.Omega.{arith}
use cmdshape.Base.Tests.{◌==◌, if◌then◌else◌}
use cmdshape.Base.Lists.{length, any}

abbrev pub Text : Type 0
Text = List ℕ

abbrev pub codes : String → Text
codes String.[] = []
codes (String.◌∷◌ c s) = code c ∷ codes s

abbrev pub text_eq : Text → Text → Bool
text_eq [] [] = true
text_eq [] (d ∷ t) = false
text_eq (c ∷ s) [] = false
text_eq (c ∷ s) (d ∷ t) = c == d && text_eq s t

pub text_eq_iff : (s t : Text) → (text_eq s t ≡ true) ↔ (s ≡ t)
text_eq_iff [] [] = ground arith
text_eq_iff [] (d ∷ t) = ground arith
text_eq_iff (c ∷ s) [] = ground arith
text_eq_iff (c ∷ s) (d ∷ t) = ground (arith, text_eq_iff s t)

pub text_eq_refl : (s : Text) → text_eq s s ≡ true
text_eq_refl s = (text_eq_iff s s).1 refl

abbrev pub is_empty : Text → Bool
is_empty [] = true
is_empty (c ∷ s) = false

-- `slices.Contains`
abbrev pub contains_text : List Text → Text → Bool
contains_text xs t = any (λ x. text_eq x t) xs

-- `strings.HasPrefix s p`
abbrev pub has_prefix : Text → Text → Bool
has_prefix s [] = true
has_prefix [] (d ∷ p) = false
has_prefix (c ∷ s) (d ∷ p) = c == d && has_prefix s p

-- `strings.HasSuffix s p`
abbrev pub has_suffix : Text → Text → Bool
has_suffix s p = has_prefix (reverse s) (reverse p)

pub has_prefix_lem : (s p : Text) → has_prefix s p ≡ true → (rest : Text) × (s ≡ p ++ rest)
has_prefix_lem s [] h = (s, refl)
has_prefix_lem [] (d ∷ p) h = absurd (cc)
has_prefix_lem (c ∷ s) (d ∷ p) h =
    let both : (c ≡ d) × (has_prefix s p ≡ true) = ground arith in
    let (rest, e) = has_prefix_lem s p both.1 in
    (rest, ap (λ x. x ∷ s) both.0 ∙ ap (λ (t : Text). d ∷ t) e)

pub has_suffix_lem : (s p : Text) → has_suffix s p ≡ true → (front : Text) × (s ≡ front ++ p)
has_suffix_lem s p h =
    let (rest, e) = has_prefix_lem (reverse s) (reverse p) h in
    (
      reverse rest,
      sym (reverse-reverse s)
          ∙ ap reverse e
          ∙ reverse-append (reverse p) rest
          ∙ ap (λ (t : Text). reverse rest ++ t) (reverse-reverse p),
    )

-- `strings.Contains s p`
abbrev pub contains : Text → Text → Bool
contains [] p = has_prefix [] p
contains (c ∷ s) p = has_prefix (c ∷ s) p || contains s p

-- `strings.Join`
abbrev pub join : List Text → Text → Text
join [] sep = []
join (x ∷ []) sep = x
join (x ∷ y ∷ ys) sep = x ++ (sep ++ join (y ∷ ys) sep)

-- `strings.Cut` at one character: the text before and after the first one.
abbrev pub cut : ℕ → Text → Option (Text × Text)
cut sep [] = none
cut sep (c ∷ s) = if c == sep then some ([], s) else Option.map (λ (a, b). (c ∷ a, b)) (cut sep s)

-- `strings.Split` at one character: never empty.
abbrev pub split_onto : ℕ → Text → Text → List Text
split_onto sep cur [] = cur ∷ []
split_onto sep cur (c ∷ s) =
    let next = split_onto sep [] s in
    let same = split_onto sep (cur ++ c ∷ []) s in if c == sep then cur ∷ next else same

abbrev pub split : ℕ → Text → List Text
split sep s = split_onto sep [] s

-- `strings.ReplaceAll s old new` for an `old` that is not empty; `skip` counts down the rest of an
-- occurrence that has been replaced.
abbrev pub replace_from : ℕ → Text → Text → Text → Text
replace_from skip old new [] = []
replace_from (suc k) old new (c ∷ s) = replace_from k old new s
replace_from zero old new (c ∷ s) =
    let behind = replace_from (length old - 1) old new s in
    let same = replace_from 0 old new s in
    if has_prefix (c ∷ s) old then new ++ behind else c ∷ same

abbrev pub replace_all : Text → Text → Text → Text
replace_all s old new = replace_from 0 old new s

-- The texts of a list, one behind the other.
abbrev pub concat : List Text → Text
concat [] = []
concat (t ∷ ts) = t ++ concat ts

pub concat-append : (xs ys : List Text) → concat (xs ++ ys) ≡ concat xs ++ concat ys
concat-append [] ys = refl
concat-append (x ∷ xs) ys =
    ap (λ (t : Text). x ++ t) (concat-append xs ys) ∙ sym (append_assoc x (concat xs) (concat ys))
