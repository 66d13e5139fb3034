-- ===== src/Syntax/Lexer.antt =====
-- The lexer, crates/wsharp-syntax/src/lexer.rs. The parser of floats is a parameter: `parse_f64` is
-- `str::parse::<f64>`, `float_zero` is 0.0. A loop has a round for each byte left and one more.
pub mod State
pub mod Number
pub mod Text
pub mod Place
pub mod Total
pub mod RoundTrip
mod Tests
use wsharp.Prelude.{
  ℕ, zero, suc, ◌+◌, ◌%◌, ◌^◌, Bool, true, false, not, ◌&&◌, ◌||◌, Option, none, some, List, [],
  ◌∷◌, ◌++◌, ◌==◌, if◌then◌else◌, length, map,
}
use wsharp.Prelude.Run.{Run, ok, panic, out_of_fuel, then_run}
use wsharp.Syntax.Token
use wsharp.Syntax.Token.{TokenKind, Span, span_new, eof}
use wsharp.Syntax.Lexer.State.{
  Lexer, Diagnostic, unexpected_character, head, is_byte, advance, bump, eat, slice, report,
  is_digit, is_word_start, is_space,
}
use wsharp.Syntax.Lexer.Number.{number}
use wsharp.Syntax.Lexer.Text.{string, ident_token}

-- The inner loop of `skip_trivia`, to the end of the line.
unfoldable pub skip_comment : Lexer → List ℕ → Lexer
skip_comment l [] = l
skip_comment l (b ∷ bs) =
    let more = skip_comment (record l { pos = l.pos + 1; rest = bs }) bs in
    if b == b'\n' then l else more

abbrev pub skip_round : (Lexer → Run Lexer) → Lexer → List ℕ → Run Lexer
skip_round rec l [] = ok l
skip_round rec l (b ∷ bs) =
    if is_space b
    then rec (advance 1 l)
    else if b == b'/' && is_byte b'/' (head bs)
    then rec (skip_comment l l.rest)
    else ok l

unfoldable pub skip_loop : ℕ → Lexer → Run Lexer
unfolding skip_comment
skip_loop zero l = out_of_fuel
skip_loop (suc f) l = skip_round (skip_loop f) l l.rest

unfoldable pub skip_trivia : Lexer → Run Lexer
unfolding skip_loop
skip_trivia l = skip_loop (suc (length l.rest)) l

module _ {F : Type 0} where
  -- By what `eat` says.
  abbrev pub either : TokenKind F → TokenKind F → Bool × Lexer → TokenKind F × Lexer
  either yes_kind no_kind (b, l) = (if b then yes_kind else no_kind, l)

  unfoldable pub maybe_eq : TokenKind F → TokenKind F → Lexer → TokenKind F × Lexer
  unfolding eat
  maybe_eq with_eq without l = either with_eq without (eat b'=' l)

  abbrev pub by_doubled :
      TokenKind F → TokenKind F → TokenKind F → TokenKind F → Bool × Lexer → TokenKind F × Lexer
  by_doubled shift_eq shift cmp_eq cmp (b, l) =
      if b then maybe_eq shift_eq shift l else maybe_eq cmp_eq cmp l

  unfoldable pub shift_or :
      TokenKind F → TokenKind F → TokenKind F → TokenKind F → ℕ → Lexer → TokenKind F × Lexer
  unfolding eat
  shift_or shift_eq shift cmp_eq cmp doubled l =
      by_doubled shift_eq shift cmp_eq cmp (eat doubled l)

  -- The inner `match`, after the `bump`; `none` is its last arm.
  unfoldable pub symbol : ℕ → Lexer → Option (TokenKind F × Lexer)
  unfolding maybe_eq shift_or eat
  symbol b l =
      if b == b'('
      then some (Token.l_paren, l)
      else if b == b')'
      then some (Token.r_paren, l)
      else if b == b'{'
      then some (Token.l_brace, l)
      else if b == b'}'
      then some (Token.r_brace, l)
      else if b == b'['
      then some (Token.l_bracket, l)
      else if b == b']'
      then some (Token.r_bracket, l)
      else if b == b','
      then some (Token.comma, l)
      else if b == b';'
      then some (Token.semi, l)
      else if b == b':'
      then some (Token.colon, l)
      else if b == b'|'
      then some (maybe_eq Token.pipe_eq Token.pipe l)
      else if b == b'&'
      then some (maybe_eq Token.amp_eq Token.amp l)
      else if b == b'^'
      then some (maybe_eq Token.caret_eq Token.caret l)
      else if b == b'~'
      then some (Token.tilde, l)
      else if b == b'?'
      then some (Token.question, l)
      else if b == b'@'
      then some (Token.at, l)
      else if b == b'.'
      then some (either Token.dot_question Token.dot (eat b'?' l))
      else if b == b'+'
      then some (maybe_eq Token.plus_eq Token.plus l)
      else if b == b'-'
      then some (maybe_eq Token.minus_eq Token.minus l)
      else if b == b'*'
      then some (maybe_eq Token.star_eq Token.star l)
      else if b == b'/'
      then some (maybe_eq Token.slash_eq Token.slash l)
      else if b == b'%'
      then some (maybe_eq Token.percent_eq Token.percent l)
      else if b == b'='
      then some (maybe_eq Token.eq_eq Token.eq l)
      else if b == b'!'
      then some (maybe_eq Token.bang_eq Token.bang l)
      else if b == b'<'
      then some (shift_or Token.shl_eq Token.shl Token.lt_eq Token.lt b'<' l)
      else if b == b'>'
      then some (shift_or Token.shr_eq Token.shr Token.gt_eq Token.gt b'>' l)
      else none

  abbrev pub is_eof : TokenKind F → Bool
  is_eof eof = true
  is_eof _ = false

-- The sums are of `u32`s.
abbrev pub shift : ℕ → Span → Span
shift base s = record { start = (s.start + base) % 2 ^ 32; end = (s.end + base) % 2 ^ 32 }

abbrev pub shift_token : {F : Type 0} → ℕ → Token.Token F → Token.Token F
shift_token base t = record t { span = shift base t.span }

abbrev pub shift_diagnostic : ℕ → Diagnostic → Diagnostic
shift_diagnostic base d = record d { span = shift base d.span }

module _ {F : Type 0} (parse_f64 : List ℕ → Option F) (float_zero : F) where
  -- A token and the state after it.
  abbrev pub Lexed : Type 0
  Lexed = Run (Token.Token F × Lexer)

  -- After a `bump` from `from` to `l`; an unexpected character is skipped.
  abbrev pub symbol_or_skip : (Lexer → Lexed) → Lexer → Lexer → Option (TokenKind F × Lexer) → Lexed
  symbol_or_skip rec from l (some (k, m)) =
      ok (record { kind = k; span = span_new from.pos m.pos }, m)
  symbol_or_skip rec from l none =
      then_run (slice from l)
        (λ ch. rec (report (span_new from.pos l.pos) (unexpected_character ch) l))

  abbrev pub next_round : (Lexer → Lexed) → Lexer → List ℕ → Lexed
  next_round rec l [] = ok (record { kind = eof; span = span_new l.pos l.pos }, l)
  next_round rec l (b ∷ bs) =
      if is_digit b
      then number parse_f64 float_zero l
      else if b == b'"'
      then string l
      else if is_word_start b
      then ident_token l
      else then_run (bump l) (λ l'. symbol_or_skip rec l l' (symbol b l'))

  unfoldable pub next_loop : ℕ → Lexer → Lexed
  unfolding skip_trivia number string ident_token bump symbol slice
  next_loop zero l = out_of_fuel
  next_loop (suc f) l = then_run (skip_trivia l) (λ l'. next_round (next_loop f) l' l'.rest)

  unfoldable pub next_token : Lexer → Lexed
  unfolding next_loop
  next_token l = next_loop (suc (length l.rest)) l

  abbrev pub Scan : Type 0
  Scan = Run (List (Token.Token F) × List Diagnostic)

  abbrev pub scan_on : (Lexer → Scan) → Token.Token F × Lexer → Scan
  scan_on rec (t, l) =
      if is_eof t.kind
      then ok (t ∷ [], l.diags)
      else then_run (rec l) (λ (ts, diags). ok (t ∷ ts, diags))

  unfoldable pub scan_loop : ℕ → Lexer → Scan
  unfolding next_token
  scan_loop zero l = out_of_fuel
  scan_loop (suc f) l = then_run (next_token l) (scan_on (scan_loop f))

  unfoldable pub scan : List ℕ → Scan
  unfolding scan_loop
  scan src = scan_loop (suc (length src)) (record { pos = 0; rest = src; diags = [] })

  unfoldable pub lex_at : List ℕ → ℕ → Scan
  unfolding scan
  lex_at src base = then_run (scan src) (λ (tokens, diags).
      if base == 0
      then ok (tokens, diags)
      else ok (map (shift_token base) tokens, map (shift_diagnostic base) diags))

  unfoldable pub lex : List ℕ → Scan
  unfolding lex_at
  lex src = lex_at src 0
