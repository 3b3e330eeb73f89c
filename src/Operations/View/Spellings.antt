-- ===== src/Operations/View/Spellings.antt =====
-- The two spellings of a long option's value.
use cmdshape.Base.{
  ℕ, ◌<◌, Bool, true, false, List, [], ◌∷◌, ◌++◌, Option, none, some, Text, length, length-append,
  cut, any, ◌==◌, contains_text, text_eq, text_eq_iff, ◌≡◌, refl, ap, sym, ◌∙◌, arith, append_assoc,
  Bool-cases, inl, inr,
}
use cmdshape.Operations.View.{
  ArgumentView, LongOption, separator, is_long_option_name, cut_option, append_normalized,
  add_before, add_long_option, append_flag, append_flag_value, append_standalone_value,
  append_positional, append_before_separator, read_after, read_before,
}

-- The views have the same normalized arguments, positionals and long options. The raw arguments and
-- those in front of the separator, which the tests of short flags read, may differ.
pub record SameReading (v w : ArgumentView) : Type 0 where
  pub normalized : v.normalized ≡ w.normalized
  pub normalized_pre : v.normalized_pre ≡ w.normalized_pre
  pub positionals : v.positionals ≡ w.positionals
  pub long_options : v.long_options ≡ w.long_options

append_before_separator-SameReading :
    (flags : List Text) (arg : Text) (next : Option Text) (v w : ArgumentView)
    → SameReading v w
    → SameReading
        (append_before_separator flags arg next v).0
        (append_before_separator flags arg next w).0
      × ((append_before_separator flags arg next v).1
          ≡ (append_before_separator flags arg next w).1)
unfolding append_before_separator append_normalized append_flag append_flag_value
    append_standalone_value append_positional
append_before_separator-SameReading flags arg none v w m = (ground arith, ground arith)
append_before_separator-SameReading flags arg (some value) v w m = (ground arith, ground arith)

read_after-SameReading :
    (args : List Text) (v w : ArgumentView)
    → SameReading v w
    → SameReading (read_after args v) (read_after args w)
unfolding read_after
read_after-SameReading [] v w m = m
read_after-SameReading (arg ∷ args) v w m = read_after-SameReading args _ _ (ground arith)

read_before-SameReading :
    (flags args : List Text) (v w : ArgumentView)
    → SameReading v w
    → SameReading (read_before flags args v) (read_before flags args w)
unfolding read_before
read_before-SameReading flags [] v w m = m
read_before-SameReading flags (arg ∷ []) v w m = elim (Bool-cases (text_eq arg separator)) [
  | inl here ↦ rw here (ground arith)
  | inr on ↦ rw on (append_before_separator-SameReading flags arg none _ _ (ground arith)).0
]
read_before-SameReading flags (arg ∷ next ∷ args) v w m =
    elim (Bool-cases (text_eq arg separator)) [
      | inl here ↦ rw here (read_after-SameReading (next ∷ args) _ _ (ground arith))
      | inr on ↦
          let (same, took) =
            append_before_separator-SameReading flags arg (some next) (add_before arg v)
              (add_before arg w) (ground arith) in
          elim (Bool-cases (append_before_separator flags arg (some next) (add_before arg w)).1) [
            | inl taken ↦ rw on (rw (took, taken) (read_before-SameReading flags args _ _ same))
            | inr going_on ↦
                rw on (rw (took, going_on) (read_before-SameReading flags (next ∷ args) _ _ same))
          ]
    ]

abbrev pub is_equals : ℕ → Bool
is_equals c = c == b'='

cut_first :
    (name value : Text)
    → any is_equals name ≡ false
    → cut b'=' (name ++ b'=' ∷ value) ≡ some (name, value)
cut_first [] value h = refl
cut_first (c ∷ name) value h =
    let plain : (c == b'=') ≡ false = ground arith in
    rw plain (rw (cut_first name value (ground arith)))

cut-none : (s : Text) → any is_equals s ≡ false → cut b'=' s ≡ none
cut-none [] h = refl
cut-none (c ∷ s) h =
    let plain : (c == b'=') ≡ false = ground arith in rw plain (rw (cut-none s (ground arith)))

ne_separator : (s : Text) → 2 < length s → text_eq s separator ≡ false
ne_separator s h = elim (Bool-cases (text_eq s separator)) [
  | inl e ↦ let size = ap length ((text_eq_iff s separator).0 e) in absurd (omega arith)
  | inr ne ↦ ne
]

long_option-length : (s : Text) → is_long_option_name s ≡ true → 2 < length s
unfolding is_long_option_name
long_option-length s h = ground arith

module _ (flags : List Text) (name value : Text) (long : is_long_option_name name ≡ true)
    (plain : any is_equals name ≡ false) (listed : contains_text flags name ≡ true) where
  abbrev attached : Text
  attached = name ++ b'=' ∷ value

  cut_attached : cut_option attached ≡ some (name, value)
  unfolding cut_option
  cut_attached = rw (cut_first name value plain, cut_option) (rw long)

  cut_name : cut_option name ≡ none
  unfolding cut_option
  cut_name = rw (cut-none name plain, cut_option)

  attached_round :
      (next : Option Text) (v : ArgumentView)
      → append_before_separator flags attached next v
        ≡ (append_normalized (name ∷ value ∷ []) (add_long_option name (some value) v), false)
  unfolding append_before_separator
  attached_round next v = rw (cut_attached, append_before_separator)

  split_round :
      (v : ArgumentView)
      → append_before_separator flags name (some value) v ≡ (append_flag_value name value v, true)
  unfolding append_before_separator
  split_round v = rw (cut_name, append_before_separator) (rw long (rw listed))

  attached_ne : text_eq attached separator ≡ false
  attached_ne =
      let size = length-append name (b'=' ∷ value) in
      ne_separator attached (omega (arith, long_option-length name long))

  name_ne : text_eq name separator ≡ false
  name_ne = ne_separator name (long_option-length name long)

  round-SameReading :
      (v w : ArgumentView)
      → SameReading v w
      → SameReading
          (append_normalized (name ∷ value ∷ []) (add_long_option name (some value) v))
          (append_flag_value name value w)
  unfolding append_normalized append_flag_value
  round-SameReading v w m =
      let joined = λ (l : List Text). append_assoc l (name ∷ []) (value ∷ []) in
      record {
        normalized =
            ap (λ (l : List Text). l ++ name ∷ value ∷ []) m.normalized ∙ sym (joined w.normalized);
        normalized_pre =
            ap (λ (l : List Text). l ++ name ∷ value ∷ []) m.normalized_pre
            ∙ sym (joined w.normalized_pre);
        positionals = m.positionals;
        long_options =
            ap (λ (l : List LongOption). l ++ record { name = name; value = some value } ∷ [])
              m.long_options;
      }

  -- Wherever the loop comes to a value flag's long option, `--name=value` and `--name value` give
  -- views with the same normalized arguments, in front of the separator and in all, the same
  -- positionals and the same long options.
  pub read_before-attached :
      (rest : List Text) (v : ArgumentView)
      → SameReading
          (read_before flags ((name ++ b'=' ∷ value) ∷ rest) v)
          (read_before flags (name ∷ value ∷ rest) v)
  unfolding read_before
  read_before-attached [] v =
      rw (attached_ne, name_ne)
        (rw (attached_round none (add_before attached v), split_round (add_before name v))
          (round-SameReading _ _ (record {
            normalized = refl;
            normalized_pre = refl;
            positionals = refl;
            long_options = refl;
          })))
  read_before-attached (next ∷ rest) v =
      rw (attached_ne, name_ne)
        (rw (attached_round (some next) (add_before attached v), split_round (add_before name v))
          (read_before-SameReading flags (next ∷ rest) _ _ (
            round-SameReading _ _ (record {
              normalized = refl;
              normalized_pre = refl;
              positionals = refl;
              long_options = refl;
            }))))
