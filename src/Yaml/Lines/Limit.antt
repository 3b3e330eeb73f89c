-- ===== src/Yaml/Lines/Limit.antt =====
-- The limit of a scope over the lines of a stream.
use cmdshape.Base.{ℕ, suc, List, [], ◌∷◌, Text, if◌then◌else◌}
use cmdshape.Yaml.Model.{Variables, Rules, Scope}
use cmdshape.Yaml.Lines.{base_action_for_line, is_ignore, action_for_line, split_record_delimiter}

-- The lines that a scope lets through, counted as the engine buffers them, and the scope behind.
unfoldable pub pass_lines : Scope → ℕ → Variables → List Text → ℕ × Scope
pass_lines c buffered vars [] = (buffered, c)
pass_lines c buffered vars (line ∷ lines) =
    let (action, after, vars') = action_for_line c line buffered vars in
    let hidden = pass_lines after buffered vars' lines in
    let shown = pass_lines after (suc buffered) vars' lines in
    if is_ignore action.kind then hidden else shown

-- How many of the lines the rules would let through without a limit.
unfoldable pub wanted_lines : Rules → Variables → List Text → ℕ
wanted_lines c vars [] = 0
wanted_lines c vars (line ∷ lines) =
    let (action, vars') = base_action_for_line c line (split_record_delimiter line).0 vars in
    let rest = wanted_lines c vars' lines in if is_ignore action.kind then rest else suc rest
