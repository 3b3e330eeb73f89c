-- ===== src/CommandLine/Parse/RoundTrip.antt =====
-- Parsing what was rendered.
use mathlib.Core.List.{reverse, reverse-append, reverse-reverse}
use cmdshape.Base.{
  ℕ, Bool, true, false, List, [], ◌∷◌, ◌++◌, Text, any, if◌then◌else◌, is_empty, ◌≡◌, refl, sym, ap,
  ◌∙◌, append_assoc, arith, Bool-cases, inl, inr, is_space, trim_space, trim_left, trim_right,
}
use cmdshape.CommandLine.Split.{single_quote, ok, ◌>>=◌}
use cmdshape.CommandLine.Split.RoundTrip.{split-render, render-cons, quote_shell_arg_lem}
use cmdshape.CommandLine.Render.{
  is_safe, quote_runes, quote_shell_arg, render_command_arg, render_command_args,
}
use cmdshape.CommandLine.Parse.{parse_command_args, parse_command_line}

-- A text that begins and ends with a character that is no space.
record IsSolid (t : Text) : Type 0 where
  first : ℕ
  rest : Text
  front : t ≡ first ∷ rest
  first_solid : is_space first ≡ false
  init : Text
  last : ℕ
  back : t ≡ init ++ last ∷ []
  last_solid : is_space last ≡ false

IsSolid-append : (s t : Text) (c : ℕ) → IsSolid s → IsSolid t → IsSolid (s ++ c ∷ t)
IsSolid-append s t c a b = record {
  first = a.first;
  rest = a.rest ++ c ∷ t;
  front = ap (λ (u : Text). u ++ c ∷ t) a.front;
  first_solid = a.first_solid;
  init = s ++ c ∷ b.init;
  last = b.last;
  back = ap (λ (u : Text). s ++ c ∷ u) b.back ∙ sym (append_assoc s (c ∷ b.init) (b.last ∷ []));
  last_solid = b.last_solid;
}

trim_left-solid : (p : ℕ → Bool) (c : ℕ) (s : Text) → p c ≡ false → trim_left p (c ∷ s) ≡ c ∷ s
trim_left-solid p c s h = ground arith

trim_space-IsSolid : (t : Text) → IsSolid t → trim_space t ≡ t
unfolding trim_space
trim_space-IsSolid t s =
    let left : trim_left is_space t ≡ t =
      rw s.front (trim_left-solid is_space s.first s.rest s.first_solid) in
    let turned : reverse t ≡ s.last ∷ reverse s.init =
      ap reverse s.back ∙ reverse-append s.init (s.last ∷ []) in
    let right : trim_left is_space (reverse t) ≡ reverse t =
      rw turned (trim_left-solid is_space s.last (reverse s.init) s.last_solid) in
    ap (trim_right is_space) left ∙ ap reverse right ∙ reverse-reverse t

safe-solid : (r : ℕ) → is_safe r ≡ true → is_space r ≡ false
unfolding is_safe is_space
safe-solid r h = ground arith

-- A text of safe characters ends in one.
safe-IsSolid :
    (r : ℕ) (rs : Text)
    → any (λ c. if is_safe c then false else true) (r ∷ rs) ≡ false
    → IsSolid (r ∷ rs)
safe-IsSolid r [] h = record {
  first = r;
  rest = [];
  front = refl;
  first_solid = safe-solid r (ground arith);
  init = [];
  last = r;
  back = refl;
  last_solid = safe-solid r (ground arith);
}
safe-IsSolid r (c ∷ cs) h =
    let tail = safe-IsSolid c cs (ground arith) in
    record {
      first = r;
      rest = c ∷ cs;
      front = refl;
      first_solid = safe-solid r (ground arith);
      init = r ∷ tail.init;
      last = tail.last;
      back = ap (λ (u : Text). r ∷ u) tail.back;
      last_solid = tail.last_solid;
    }

quote-IsSolid : (s : Text) → IsSolid (quote_shell_arg s)
unfolding is_space
quote-IsSolid s = record {
  first = single_quote;
  rest = quote_runes s ++ single_quote ∷ [];
  front = quote_shell_arg_lem s;
  first_solid = refl;
  init = single_quote ∷ quote_runes s;
  last = single_quote;
  back = quote_shell_arg_lem s;
  last_solid = refl;
}

render_command_arg-IsSolid : (arg : Text) → IsSolid (render_command_arg arg)
unfolding render_command_arg
render_command_arg-IsSolid [] =
    unfold is_space in
    record {
      first = single_quote;
      rest = single_quote ∷ [];
      front = refl;
      first_solid = refl;
      init = single_quote ∷ [];
      last = single_quote;
      back = refl;
      last_solid = refl;
    }
render_command_arg-IsSolid (r ∷ rs) =
    elim (Bool-cases (any (λ c. if is_safe c then false else true) (r ∷ rs))) [
      | inl plain ↦ rw plain (quote-IsSolid (r ∷ rs))
      | inr safe ↦ rw safe (safe-IsSolid r rs safe)
    ]

render-IsSolid : (arg : Text) (args : List Text) → IsSolid (render_command_args (arg ∷ args))
render-IsSolid arg [] = unfold render_command_args in render_command_arg-IsSolid arg
render-IsSolid arg (next ∷ args) =
    rw (render-cons arg next args)
      (IsSolid-append _ _ 32 (render_command_arg-IsSolid arg) (render-IsSolid next args))

IsSolid-ne : (t : Text) → IsSolid t → is_empty t ≡ false
IsSolid-ne t s = rw s.front

parse_command_args-raw_input :
    (arg : Text) (args : List Text)
    → (parse_command_args (arg ∷ args) >>= λ command.
        ok (record command { raw_input = render_command_args (arg ∷ args) }))
      ≡ parse_command_args (arg ∷ args)
unfolding parse_command_args
parse_command_args-raw_input arg args = elim (Bool-cases (is_empty (trim_space arg))) [
  | inl blank ↦ rw blank
  | inr named ↦ rw named
]

-- A command line that was rendered from arguments parses to what the arguments themselves parse to:
-- the same command, raw input included, or the same error.
pub parse_command_line-render :
    (arg : Text) (args : List Text)
    → parse_command_line (render_command_args (arg ∷ args)) ≡ parse_command_args (arg ∷ args)
unfolding parse_command_line
parse_command_line-render arg args =
    let solid = render-IsSolid arg args in
    rw (trim_space-IsSolid _ solid)
      (rw (split-render arg args, IsSolid-ne _ solid) (parse_command_args-raw_input arg args))
