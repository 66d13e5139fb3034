-- ===== src/Syntax/Lexer/Text.antt =====
-- `string` and `ident` of crates/wsharp-syntax/src/lexer.rs.
use wsharp.Prelude.{
  ℕ, zero, suc, ◌+◌, Option, none, some, List, [], ◌∷◌, ◌++◌, ◌==◌, if◌then◌else◌, length,
}
use wsharp.Prelude.Run.{Run, ok, out_of_fuel, then_run}
use wsharp.Syntax.Token.{TokenKind, span_new, Token, str, ident, keyword}
use wsharp.Syntax.Lexer.State.{
  Lexer, unterminated, unterminated_line, unknown_escape, advance, bump, slice, report, is_word,
}

-- The character of a known escape.
abbrev pub escape_value : ℕ → Option ℕ
escape_value c =
    if c == b'n'
    then some b'\n'
    else if c == b't'
    then some b'\t'
    else if c == b'r'
    then some b'\r'
    else if c == b'0'
    then some 0
    else if c == b'\\'
    then some b'\\'
    else if c == b'"'
    then some b'"'
    else none

abbrev pub escape_at : List ℕ → Option ℕ
escape_at [] = none
escape_at (c ∷ cs) = escape_value c

-- The rest of the loop, on the value and the state.
abbrev pub Loop : Type 0
Loop = List ℕ → Lexer → Run (List ℕ × Lexer)

-- After the backslash at `from`.
abbrev pub after_backslash : Loop → List ℕ → Lexer → Lexer → Option ℕ → Run (List ℕ × Lexer)
after_backslash rec value from l (some c) = rec (value ++ c ∷ []) (advance 1 l)
after_backslash rec value from l none =
    then_run (bump l) (λ l'. rec value (report (span_new from.pos l'.pos) unknown_escape l'))

abbrev pub string_round : Loop → ℕ → List ℕ → Lexer → List ℕ → Run (List ℕ × Lexer)
string_round rec start value l [] = ok (value, report (span_new start l.pos) unterminated l)
string_round rec start value l (b ∷ bs) =
    if b == b'"'
    then ok (value, advance 1 l)
    else if b == b'\n'
    then ok (value, report (span_new start l.pos) unterminated_line l)
    else if b == b'\\'
    then after_backslash rec value l (advance 1 l) (escape_at bs)
    else then_run (bump l) (λ l'. then_run (slice l l') (λ s. rec (value ++ s) l'))

unfoldable pub string_loop : ℕ → ℕ → Loop
unfolding bump slice
string_loop zero start value l = out_of_fuel
string_loop (suc f) start value l = string_round (string_loop f start) start value l l.rest

unfoldable pub string : {F : Type 0} → Lexer → Run (Token F × Lexer)
unfolding string_loop
string from =
    let l = advance 1 from in
    then_run (string_loop (suc (length l.rest)) from.pos [] l)
      (λ (value, l'). ok (record { kind = str value; span = span_new from.pos l'.pos }, l'))

unfoldable pub word_loop : Lexer → List ℕ → Lexer
word_loop l [] = l
word_loop l (b ∷ bs) =
    let more = word_loop (record l { pos = l.pos + 1; rest = bs }) bs in
    if is_word b then more else l

abbrev pub or_ident : {F : Type 0} → List ℕ → Option (TokenKind F) → TokenKind F
or_ident word none = ident word
or_ident word (some k) = k

unfoldable pub ident_token : {F : Type 0} → Lexer → Run (Token F × Lexer)
unfolding word_loop slice keyword
ident_token from =
    let l = word_loop from from.rest in
    then_run (slice from l) (λ word.
      ok (record { kind = or_ident word (keyword word); span = span_new from.pos l.pos }, l))
