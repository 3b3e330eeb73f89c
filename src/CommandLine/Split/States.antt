-- ===== src/CommandLine/Split/States.antt =====
-- What holds of the splitter's state after every rune.
use cmdshape.Base.{ℕ, true, false, [], ◌∷◌, ◌++◌, Text, is_empty, ◌≡◌, refl, arith}
use cmdshape.CommandLine.Split.{SplitState, backslash, new_split_state, consume, consume_all}

pub record IsConsistent (s : SplitState) : Type 0 where
  pub one_quote : s.in_single ≡ true → s.in_double ≡ false
  pub escape_outside : s.escaping ≡ true → s.in_single ≡ false
  pub escape_kind : s.escaping ≡ true → s.escape_double ≡ s.in_double
  pub idle_kind : s.escaping ≡ false → s.escape_double ≡ false
  pub begun : is_empty s.current ≡ false → s.token_started ≡ true
  pub quote_begun : s.in_single ≡ true → s.token_started ≡ true
  pub double_begun : s.in_double ≡ true → s.token_started ≡ true

not-empty-snoc : (s : Text) (r : ℕ) → is_empty (s ++ r ∷ []) ≡ false
not-empty-snoc [] r = refl
not-empty-snoc (c ∷ s) r = refl

consume-IsConsistent : (r : ℕ) (s : SplitState) → IsConsistent s → IsConsistent (consume r s)
unfolding consume
consume-IsConsistent r s i = ground (
  arith,
  not-empty-snoc s.current r,
  not-empty-snoc s.current backslash,
  not-empty-snoc (s.current ++ backslash ∷ []) r,
)

-- After any text the splitter is in at most one kind of quotes, escapes only outside single quotes
-- and by the rule of the quotes that it is in, and has noted a token as begun whenever the token
-- holds a rune or a quote is open.
pub consume_all-IsConsistent : (t : Text) → IsConsistent (consume_all t new_split_state)
unfolding consume_all
consume_all-IsConsistent t = go t new_split_state (record {
  one_quote = λ _. refl;
  escape_outside = λ _. refl;
  escape_kind = λ _. refl;
  idle_kind = λ _. refl;
  begun = λ h. ground arith;
  quote_begun = λ h. ground arith;
  double_begun = λ h. ground arith;
})
  where
    go : (t : Text) (s : SplitState) → IsConsistent s → IsConsistent (consume_all t s)
    go [] s i = i
    go (r ∷ rs) s i = go rs (consume r s) (consume-IsConsistent r s i)
