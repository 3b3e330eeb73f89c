-- ===== src/CommandLine/Split.antt =====
-- internal/parser.go: `splitCommandLine` and its state machine.
pub mod RoundTrip
pub mod States
use cmdshape.Base.{
  ℕ, Bool, true, false, ◌&&◌, ◌||◌, List, [], ◌∷◌, ◌++◌, Text, ◌==◌, if◌then◌else◌, is_empty,
}

pub record SplitState : Type 0 where
  pub args : List Text
  pub current : Text
  pub in_single : Bool
  pub in_double : Bool
  pub escaping : Bool
  pub escape_double : Bool
  pub token_started : Bool

pub data SplitError : Type 0 where
  no_command_provided unterminated_escape unterminated_single unterminated_double : SplitError

pub data Result (A : Type 0) : Type 0 where
  ok : A → Result A
  fail : SplitError → Result A

infixl 5 ◌>>=◌
abbrev pub ◌>>=◌ : {A B : Type 0} → Result A → (A → Result B) → Result B
ok a >>= f = f a
fail e >>= f = fail e

abbrev pub new_split_state : SplitState
new_split_state = record {
  args = [];
  current = [];
  in_single = false;
  in_double = false;
  escaping = false;
  escape_double = false;
  token_started = false;
}

abbrev pub backslash : ℕ
backslash = b'\\'

abbrev pub single_quote : ℕ
single_quote = 39

abbrev pub double_quote : ℕ
double_quote = 34

unfoldable pub unicode_is_space : ℕ → Bool
unicode_is_space r = r == 32 || r == 9 || r == 10 || r == 13

unfoldable pub is_double_quoted_escape : ℕ → Bool
is_double_quoted_escape r = r == double_quote || r == backslash || r == b'$' || r == b'`' || r == 10

abbrev pub write_rune : ℕ → SplitState → SplitState
write_rune r s = record s { current = s.current ++ r ∷ []; token_started = true }

unfoldable pub flush_token : SplitState → SplitState
flush_token s =
    if (if s.token_started then false else true) && is_empty s.current
    then s
    else record s { args = s.args ++ s.current ∷ []; current = []; token_started = false }

unfoldable pub consume_escaped : ℕ → SplitState → SplitState
unfolding is_double_quoted_escape unicode_is_space
consume_escaped r s =
    if s.escape_double
    then if is_double_quoted_escape r
      then if r == 10 then s else write_rune r s
      else write_rune r (write_rune backslash s)
    else if unicode_is_space r
        || r == backslash
        || r == single_quote
        || r == double_quote
        || r == b';'
    then write_rune r s
    else write_rune r (write_rune backslash s)

unfoldable pub consume_single_quoted : ℕ → SplitState → SplitState
consume_single_quoted r s =
    if r == single_quote then record s { in_single = false } else write_rune r s

unfoldable pub consume_double_quoted : ℕ → SplitState → SplitState
consume_double_quoted r s =
    if r == double_quote
    then record s { in_double = false }
    else if r == backslash
    then record s { escaping = true; escape_double = true }
    else write_rune r s

unfoldable pub consume_unquoted : ℕ → SplitState → SplitState
unfolding unicode_is_space flush_token
consume_unquoted r s =
    if unicode_is_space r
    then flush_token s
    else if r == single_quote
    then record s { in_single = true; token_started = true }
    else if r == double_quote
    then record s { in_double = true; token_started = true }
    else if r == backslash
    then record s { escaping = true; escape_double = false; token_started = true }
    else write_rune r s

unfoldable pub consume : ℕ → SplitState → SplitState
unfolding consume_escaped consume_single_quoted consume_double_quoted consume_unquoted
consume r s =
    if s.escaping
    then record (consume_escaped r s) { escaping = false; escape_double = false }
    else if s.in_single
    then consume_single_quoted r s
    else if s.in_double
    then consume_double_quoted r s
    else consume_unquoted r s

unfoldable pub consume_all : Text → SplitState → SplitState
unfolding consume
consume_all [] s = s
consume_all (r ∷ rs) s = consume_all rs (consume r s)

unfoldable pub finish : SplitState → Result SplitState
unfolding flush_token
finish s =
    if s.escaping
    then fail unterminated_escape
    else if s.in_single
    then fail unterminated_single
    else if s.in_double
    then fail unterminated_double
    else ok (flush_token s)

unfoldable pub split_command_line : Text → Result (List Text)
unfolding consume_all finish
split_command_line raw = do
  s ← finish (consume_all raw new_split_state)
  elim s.args [ [] ↦ fail no_command_provided | a ∷ as' ↦ ok (a ∷ as') ]
