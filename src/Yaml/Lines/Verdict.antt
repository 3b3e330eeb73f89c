-- ===== src/Yaml/Lines/Verdict.antt =====
-- What the rules of a scope may answer for a line.
use cmdshape.Base.{
  ℕ, suc, Bool, true, false, ◌||◌, List, none, some, ◌≡◌, refl, ◌⊎◌, inl, inr, Text, any,
  if◌then◌else◌, Bool-cases, Option-cases,
}
use cmdshape.Contracts.{Action, keep, ignore, plain}
use cmdshape.Yaml.Model.{Variables, Matcher, Rules, Scope}
use cmdshape.Yaml.Lines.{
  matches, replace_line, replacing, any_given, base_action_for_line, is_ignore, at_max,
  action_for_line, split_record_delimiter,
}

-- Does one of the matchers match the content?
abbrev pub one_matches : List Matcher → Text → Bool
one_matches ms content = any (λ m. matches m content) ms

-- The verdict of the rules, by the order of their precedence: a line that a keep rule matches is
-- kept and the variables stay; else the first replace rule that applies gives the line, with the
-- delimiter of the old one behind it; else the line is kept if no skip rule matches it and there is
-- no keep rule, and ignored otherwise.
pub base_action_for_line-cases :
    (c : Rules) (line content : Text) (vars : Variables)
    → ((one_matches c.keep_rules content ≡ true)
        × (base_action_for_line c line content vars ≡ (plain keep, vars)))
      ⊎ ((one_matches c.keep_rules content ≡ false)
          × ((replaced : Text) × (after : Variables) × (replace_line c.replace_rules line content
                  vars
                ≡ some (replaced, after))
              × (base_action_for_line c line content vars ≡ (replacing replaced, after))))
      ⊎ ((one_matches c.keep_rules content ≡ false)
          × (replace_line c.replace_rules line content vars ≡ none)
          × (base_action_for_line c line content vars ≡ (
            plain (
                if one_matches c.skip_rules content || any_given c.keep_rules
                then ignore
                else keep),
            vars,
          )))
unfolding base_action_for_line
base_action_for_line-cases c line content vars =
    elim (Bool-cases (one_matches c.keep_rules content)) [
      | inl kept ↦ inl (kept, rw kept)
      | inr not_kept ↦ elim (Option-cases (replace_line c.replace_rules line content vars)) [
        | inl e ↦ inr (
            inr (
              not_kept,
              e,
              rw (not_kept, e)
                  (else_branch (one_matches c.skip_rules content) (any_given c.keep_rules)),
            ))
        | inr ((replaced, after), e) ↦ inr (inl (not_kept, (replaced, after, e, rw (not_kept, e))))
      ]
    ]
  where
    else_branch :
        (skipped only_kept : Bool)
        → ◌≡◌ {A = Action × Variables}
            (if skipped
              then (plain ignore, vars)
              else if only_kept
              then (plain ignore, vars)
              else (plain keep, vars))
            (plain (if skipped || only_kept then ignore else keep), vars)
    else_branch true only_kept = refl
    else_branch false true = refl
    else_branch false false = refl

-- A scope with a limit lets a line through only below it, and counts the lines that it hides: the
-- answer to a line is either to ignore it, or the rules' own with fewer lines buffered than the
-- limit, if there is one. The lines hidden grow by one exactly where the rules would have let the
-- line through at the limit.
pub action_for_line-cases :
    (c : Scope) (line : Text) (buffered : ℕ) (vars : Variables)
    → let content = (split_record_delimiter line).0 in
      let (wanted, after) = base_action_for_line c.rules line content vars in
      ((is_ignore wanted.kind ≡ true) × (action_for_line c line buffered vars ≡ (wanted, c, after)))
      ⊎ ((is_ignore wanted.kind ≡ false)
          × (at_max c.rules.max buffered ≡ true)
          × (action_for_line c line buffered vars
              ≡ (plain ignore, record c { hidden = suc c.hidden }, after)))
      ⊎ ((is_ignore wanted.kind ≡ false)
          × (at_max c.rules.max buffered ≡ false)
          × (action_for_line c line buffered vars ≡ (wanted, c, after)))
unfolding action_for_line
action_for_line-cases c line buffered vars =
    let content = (split_record_delimiter line).0 in
    let wanted = (base_action_for_line c.rules line content vars).0 in
    elim (Bool-cases (is_ignore wanted.kind)) [
      | inl e ↦ inl (e, rw e)
      | inr e ↦ elim (Bool-cases (at_max c.rules.max buffered)) [
        | inl full ↦ inr (inl (e, full, rw (e, full)))
        | inr room ↦ inr (inr (e, room, rw (e, room)))
      ]
    ]
