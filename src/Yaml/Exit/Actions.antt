-- ===== src/Yaml/Exit/Actions.antt =====
-- What a YAML filter may ask of the engine at the exit.
use cmdshape.Base.{
  ℕ, Bool, true, false, [], ◌∷◌, Option, none, some, ◌≡◌, refl, ◌≢◌, ◌⊎◌, inl, inr, Text, All,
  All-append, is_empty, if◌then◌else◌,
}
use cmdshape.Contracts.{
  Stream, combined, stdout, stderr, unset, Action, keep, replace, plain, Context,
}
use cmdshape.Yaml.Model.{Scope, Case}
use cmdshape.Yaml.Cases.{YamlFilter, prepare_invocation, get_elem?}
use cmdshape.Yaml.Exit.{
  exit_action_for_output, render_scoped_exit_action, render_unscoped_exit_action,
  render_stream_exit_actions, case_exit_actions, on_stdout_exit_actions,
}

-- The action leaves the output, or puts a text that is not empty in the place of a stream.
abbrev pub IsRewrite : Action → Type 0
IsRewrite a =
    (a ≡ plain keep) ⊎ ((a.kind ≡ replace) × (is_empty a.output ≡ false) × (a.stream ≢ unset))

exit_action_for_output-IsRewrite :
    (output : Text) (stream : Stream)
    → stream ≢ unset
    → IsRewrite (exit_action_for_output output stream)
unfolding exit_action_for_output
exit_action_for_output-IsRewrite [] stream h = inl refl
exit_action_for_output-IsRewrite (c ∷ s) stream h = inr (refl, refl, h)

render_scoped_exit_action-IsRewrite :
    (context : Context) (stream : Stream) (scope : Scope) (c : Case) (include : Bool)
    → stream ≢ unset
    → IsRewrite (render_scoped_exit_action context stream scope c include)
unfolding render_scoped_exit_action
render_scoped_exit_action-IsRewrite context stream scope c include h =
    unless_same _ _ (exit_action_for_output-IsRewrite _ stream h)
  where
    unless_same :
        (same : Bool) (a : Action) → IsRewrite a → IsRewrite (if same then plain keep else a)
    unless_same true a r = inl refl
    unless_same false a r = r

stream_actions-IsRewrite :
    (context : Context) (c : Case) → All IsRewrite (render_stream_exit_actions context c)
unfolding render_stream_exit_actions
stream_actions-IsRewrite context c =
    All-append IsRewrite _ _ (one c.out stdout true (λ e. cc)) (one c.err stderr _ (λ e. cc))
  where
    one :
        (scope : Option Scope) (stream : Stream) (include : Bool)
        → stream ≢ unset
        → All IsRewrite (elim scope [
          | none ↦ []
          | some s ↦ render_scoped_exit_action context stream s c include ∷ []
        ])
    one none stream include h = tt
    one (some s) stream include h =
        (render_scoped_exit_action-IsRewrite context stream s c include h, tt)

case_exit_actions-IsRewrite :
    (context : Context) (c : Case) → All IsRewrite (case_exit_actions context c)
unfolding case_exit_actions render_unscoped_exit_action
case_exit_actions-IsRewrite context c = choose c.shared c.out c.err
  where
    choose :
        (shared out err : Option Scope)
        → All IsRewrite (elim shared [
          | some scope ↦ render_scoped_exit_action context combined scope c true ∷ []
          | none ↦ elim out [
            | some o ↦ render_stream_exit_actions context c
            | none ↦ elim err [
              | some e ↦ render_stream_exit_actions context c
              | none ↦ render_unscoped_exit_action context c ∷ []
            ]
          ]
        ])
    choose (some scope) out err =
        (render_scoped_exit_action-IsRewrite context combined scope c true (λ e. cc), tt)
    choose none (some o) err = stream_actions-IsRewrite context c
    choose none none (some e) = stream_actions-IsRewrite context c
    choose none none none = (exit_action_for_output-IsRewrite _ stdout (λ e. cc), tt)

-- At the exit a YAML filter asks for nothing but to keep the output, or to put a text that is not
-- empty in the place of a stream that it names: it never asks to drop the output.
pub on_stdout_exit_actions-IsRewrite :
    (f : YamlFilter) (context : Context) → All IsRewrite (on_stdout_exit_actions f context).0
unfolding on_stdout_exit_actions
on_stdout_exit_actions-IsRewrite f context = active (prepare_invocation context.args f).active_case
  where
    kept : All IsRewrite (plain keep ∷ [])
    kept = (inl refl, tt)

    unless_passthrough :
        (b : Bool) (c : Case)
        → All IsRewrite (if b then plain keep ∷ [] else case_exit_actions context c)
    unless_passthrough true c = kept
    unless_passthrough false c = case_exit_actions-IsRewrite context c

    found :
        (c : Option Case)
        → All IsRewrite (elim c [
          | none ↦ plain keep ∷ []
          | some c ↦ if c.is_passthrough then plain keep ∷ [] else case_exit_actions context c
        ])
    found none = kept
    found (some c) = unless_passthrough c.is_passthrough c

    active :
        (i : Option ℕ)
        → All IsRewrite (elim i [
          | none ↦ plain keep ∷ []
          | some i ↦ elim (get_elem? (prepare_invocation context.args f).cases i) [
            | none ↦ plain keep ∷ []
            | some c ↦ if c.is_passthrough then plain keep ∷ [] else case_exit_actions context c
          ]
        ])
    active none = kept
    active (some i) = found (get_elem? (prepare_invocation context.args f).cases i)
