-- ===== src/CommandLine/Tool/Base.antt =====
-- The name of a tool holds no path.
use cmdshape.Base.{
  ℕ, zero, suc, ◌-◌, false, List, [], ◌∷◌, some, Text, any, take, ◌≡◌, refl, arith, text_eq,
  Bool-cases, Option-cases, inl, inr, length, has_suffix, to_lower,
}
use cmdshape.CommandLine.Tool.{
  wrapper_tool, is_separator, trim_path_to_base, trim_first_suffix, trim_executable_suffix,
  canonical_tool_name, executable_suffixes,
}

any-take : (n : ℕ) (s : Text) → any is_separator s ≡ false → any is_separator (take n s) ≡ false
any-take zero s h = refl
any-take (suc n) [] h = refl
any-take (suc n) (r ∷ rs) h = ground (arith, any-take n rs)

trim_path_to_base-plain : (s : Text) → any is_separator (trim_path_to_base s) ≡ false
unfolding trim_path_to_base
trim_path_to_base-plain [] = refl
trim_path_to_base-plain (r ∷ rs) = ground (arith, trim_path_to_base-plain rs)

trim_first_suffix-plain :
    (lower name : Text) (suffixes : List Text)
    → any is_separator name ≡ false
    → any is_separator (trim_first_suffix lower name suffixes) ≡ false
unfolding trim_first_suffix
trim_first_suffix-plain lower name [] h = h
trim_first_suffix-plain lower name (suffix ∷ suffixes) h =
    elim (Bool-cases (has_suffix lower suffix)) [
      | inl ends ↦ rw ends (any-take (length name - length suffix) name h)
      | inr other ↦ rw other (trim_first_suffix-plain lower name suffixes h)
    ]

wrapper_tool-plain : (s t : Text) → wrapper_tool s ≡ some t → any is_separator t ≡ false
unfolding wrapper_tool
wrapper_tool-plain s t h = ground arith

-- The canonical name of a tool holds neither a slash nor a backslash, however the command was
-- spelled.
pub canonical_tool_name-plain : (name : Text) → any is_separator (canonical_tool_name name) ≡ false
unfolding canonical_tool_name
canonical_tool_name-plain name =
    let base = trim_path_to_base name in
    let stem = trim_executable_suffix base in
    elim (Option-cases (wrapper_tool (to_lower base))) [
      | inr (mapped, e) ↦ rw (e, canonical_tool_name) (wrapper_tool-plain _ mapped e)
      | inl e ↦ elim (Bool-cases (text_eq stem base)) [
        | inl same ↦ rw (e, canonical_tool_name) (rw same (trim_path_to_base-plain name))
        | inr shorter ↦ elim (Option-cases (wrapper_tool (to_lower stem))) [
          | inr (mapped, e') ↦
              rw (e, canonical_tool_name) (rw shorter (rw e' (wrapper_tool-plain _ mapped e')))
          | inl e' ↦
              rw (e, canonical_tool_name)
                (rw shorter (
                  rw e' (
                    unfold trim_executable_suffix in
                    trim_first_suffix-plain (to_lower base) base executable_suffixes
                      (trim_path_to_base-plain name))))
        ]
      ]
    ]
