-- ===== src/CommandLine/Split/RoundTrip.antt =====
-- Splitting what `renderCommandArgs` renders gives the arguments back.
use cmdshape.Base.{
  ℕ, Bool, true, false, List, [], ◌∷◌, ◌++◌, Text, any, ◌==◌, if◌then◌else◌, ◌≡◌, refl, ap, ◌∙◌,
  append-nil, append_assoc, arith, Bool-cases, inl, inr,
}
use cmdshape.CommandLine.Split.{
  single_quote, SplitState, consume, consume_all, flush_token, finish, split_command_line, ok,
}
use cmdshape.CommandLine.Render.{
  is_safe, escaped_quote, quote_runes, quote_shell_arg, render_command_arg, render_command_args,
}

-- Between quotes: the tokens that are done, and the one that is being read.
abbrev unquoted : List Text → Text → Bool → SplitState
unquoted done cur started = record {
  args = done;
  current = cur;
  in_single = false;
  in_double = false;
  escaping = false;
  escape_double = false;
  token_started = started;
}

-- Inside single quotes.
abbrev quoted : List Text → Text → SplitState
quoted done cur = record (unquoted done cur true) { in_single = true }

consume_all-append :
    (xs ys : Text) (s : SplitState) → consume_all (xs ++ ys) s ≡ consume_all ys (consume_all xs s)
unfolding consume_all
consume_all-append [] ys s = refl
consume_all-append (x ∷ xs) ys s = consume_all-append xs ys (consume x s)

consume-safe :
    (r : ℕ) (done : List Text) (cur : Text) (started : Bool)
    → is_safe r ≡ true
    → consume r (unquoted done cur started) ≡ unquoted done (cur ++ r ∷ []) true
unfolding consume is_safe
consume-safe r done cur started h = ground arith

abbrev unsafe : ℕ → Bool
unsafe r = if is_safe r then false else true

consume_all-safe :
    (w : Text) (done : List Text) (cur : Text)
    → any unsafe w ≡ false
    → consume_all w (unquoted done cur true) ≡ unquoted done (cur ++ w) true
unfolding consume_all
consume_all-safe [] done cur h = rw append-nil
consume_all-safe (r ∷ rs) done cur h =
    let safe : is_safe r ≡ true = ground arith in
    rw (consume-safe r done cur true safe)
      (rw (consume_all-safe rs done (cur ++ r ∷ []) (ground arith)) (rw append_assoc))

consume-quoted :
    (r : ℕ) (done : List Text) (cur : Text)
    → consume_all (if r == single_quote then escaped_quote else r ∷ []) (quoted done cur)
      ≡ quoted done (cur ++ r ∷ [])
unfolding consume_all consume
consume-quoted r done cur = ground arith

consume_all-quote_runes :
    (w : Text) (done : List Text) (cur : Text)
    → consume_all (quote_runes w) (quoted done cur) ≡ quoted done (cur ++ w)
unfolding quote_runes
consume_all-quote_runes [] done cur = unfold consume_all in rw append-nil
consume_all-quote_runes (r ∷ rs) done cur =
    consume_all-append (if r == single_quote then escaped_quote else r ∷ []) (quote_runes rs)
      (quoted done cur)
    ∙ ap (consume_all (quote_runes rs)) (consume-quoted r done cur)
    ∙ consume_all-quote_runes rs done (cur ++ r ∷ [])
    ∙ ap (quoted done) (append_assoc cur (r ∷ []) rs)

quote_runes-eq_self : (w : Text) → any (λ r. r == single_quote) w ≡ false → quote_runes w ≡ w
unfolding quote_runes
quote_runes-eq_self [] h = refl
quote_runes-eq_self (r ∷ rs) h = ground (arith, quote_runes-eq_self rs)

pub quote_shell_arg_lem :
    (arg : Text) → quote_shell_arg arg ≡ single_quote ∷ quote_runes arg ++ single_quote ∷ []
unfolding quote_shell_arg
quote_shell_arg_lem arg = ground (arith, quote_runes-eq_self arg)

consume-quote_shell_arg :
    (arg : Text) (done : List Text)
    → consume_all (quote_shell_arg arg) (unquoted done [] false) ≡ unquoted done arg true
unfolding consume_all consume
consume-quote_shell_arg arg done = rw (quote_shell_arg_lem arg) (
    consume_all-append (quote_runes arg) (single_quote ∷ []) (quoted done [])
    ∙ ap (consume_all (single_quote ∷ [])) (consume_all-quote_runes arg done []))

consume-bare :
    (r : ℕ) (rs : Text) (done : List Text)
    → any unsafe (r ∷ rs) ≡ false
    → consume_all (r ∷ rs) (unquoted done [] false) ≡ unquoted done (r ∷ rs) true
unfolding consume_all
consume-bare r rs done h =
    let safe : is_safe r ≡ true = ground arith in
    rw (consume-safe r done [] false safe) (consume_all-safe rs done (r ∷ []) (ground arith))

consume-render :
    (arg : Text) (done : List Text)
    → consume_all (render_command_arg arg) (unquoted done [] false) ≡ unquoted done arg true
unfolding render_command_arg
consume-render [] done = unfold consume_all consume in refl
consume-render (r ∷ rs) done = elim (Bool-cases (any unsafe (r ∷ rs))) [
  | inl plain ↦ rw plain (consume-quote_shell_arg (r ∷ rs) done)
  | inr safe ↦ rw safe (consume-bare r rs done safe)
]

consume-space :
    (rest : Text) (done : List Text) (cur : Text)
    → consume_all (32 ∷ rest) (unquoted done cur true)
      ≡ consume_all rest (unquoted (done ++ cur ∷ []) [] false)
unfolding consume_all consume
consume-space rest done cur = refl

pub render-cons :
    (arg next : Text) (args : List Text)
    → render_command_args (arg ∷ next ∷ args)
      ≡ render_command_arg arg ++ 32 ∷ render_command_args (next ∷ args)
unfolding render_command_args
render-cons arg next args = refl

finish-render :
    (arg : Text) (args done : List Text)
    → finish (consume_all (render_command_args (arg ∷ args)) (unquoted done [] false))
      ≡ ok (unquoted (done ++ arg ∷ args) [] false)
finish-render arg [] done =
    unfold render_command_args finish flush_token in rw (consume-render arg done)
finish-render arg (next ∷ args) done =
    let text = render_command_arg arg in
    let rest = render_command_args (next ∷ args) in
    rw (render-cons arg next args) (
      ap finish (
        consume_all-append text (32 ∷ rest) (unquoted done [] false)
        ∙ ap (consume_all (32 ∷ rest)) (consume-render arg done)
        ∙ consume-space rest done arg)
      ∙ finish-render next args (done ++ arg ∷ [])
      ∙ ap (λ (l : List Text). ok (unquoted l [] false))
          (append_assoc done (arg ∷ []) (next ∷ args)))

-- Splitting a rendered command line gives back its arguments, whatever characters they hold, empty
-- ones included, as long as there is one.
pub split-render :
    (arg : Text) (args : List Text)
    → split_command_line (render_command_args (arg ∷ args)) ≡ ok (arg ∷ args)
unfolding split_command_line
split-render arg args = rw (finish-render arg args [])
