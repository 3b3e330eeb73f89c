-- ===== src/Cli/Tests.antt =====
-- The program's own flags on small inputs.
use cmdshape.Base.{
  is_empty, trim_space, contains_text, map, split, true, false, ◌≡◌, refl, List, [], ◌∷◌, Text,
  codes,
}
use cmdshape.Cli.{parse}
use cmdshape.Cli.Scope.{IsParsed, parse-IsParsed}

abbrev raw_git : List Text
raw_git = codes "--raw" ∷ codes "git" ∷ codes "--help" ∷ []

parse-IsParsed_example : IsParsed raw_git (parse raw_git)
parse-IsParsed_example = parse-IsParsed raw_git

spaced_is_solid : is_empty (trim_space (codes "key, token")) ≡ false
unfolding trim_space
spaced_is_solid = refl

token_is_part :
    contains_text (map trim_space (split b',' (codes "key, token"))) (codes "token") ≡ true
unfolding trim_space
token_is_part = refl
