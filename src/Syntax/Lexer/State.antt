-- ===== src/Syntax/Lexer/State.antt =====
-- The state of the lexer, crates/wsharp-syntax/src/lexer.rs. `rest` is the bytes from `pos` on. A slice
-- of the source text panics where it would cut a character; `diags` is in the order of the pushes.
use wsharp.Prelude.{
  ℕ, ◌+◌, ◌-◌, Bool, true, false, not, ◌&&◌, ◌||◌, Option, none, some, List, [], ◌∷◌, ◌++◌, ◌==◌,
  ltb, leb, if◌then◌else◌, take, drop,
}
use wsharp.Prelude.Run.{Run, ok, panic}
use wsharp.Syntax.Token.{Span}

-- The messages, with what they name.
pub data Problem : Type 0 where
  unexpected_character : List ℕ → Problem
  bad_digit : ℕ → ℕ → Problem
  no_digits invalid_float out_of_range unterminated unterminated_line unknown_escape : Problem

pub record Diagnostic : Type 0 where
  pub span : Span
  pub problem : Problem

pub record Lexer : Type 0 where
  pub pos : ℕ
  pub rest : List ℕ
  pub diags : List Diagnostic

abbrev pub head : List ℕ → Option ℕ
head [] = none
head (b ∷ bs) = some b

unfoldable pub peek : Lexer → Option ℕ
peek l = head l.rest

abbrev pub is_byte : ℕ → Option ℕ → Bool
is_byte c none = false
is_byte c (some b) = b == c

-- `pos += n`, where `n` bytes are left.
abbrev pub advance : ℕ → Lexer → Lexer
advance n l = record l { pos = l.pos + n; rest = drop n l.rest }

abbrev pub is_continuation : ℕ → Bool
is_continuation b = leb 0x80 b && ltb b 0xc0

-- The length of the character that the byte leads.
abbrev pub len_utf8 : ℕ → ℕ
len_utf8 b = if ltb b 0x80 then 1 else if ltb b 0xe0 then 2 else if ltb b 0xf0 then 3 else 4

-- `bump`: the slice from `pos` panics inside a character.
abbrev pub bump_at : Lexer → List ℕ → Run Lexer
bump_at l [] = ok l
bump_at l (b ∷ bs) = if is_continuation b then panic else ok (advance (len_utf8 b) l)

unfoldable pub bump : Lexer → Run Lexer
bump l = bump_at l l.rest

unfoldable pub eat : ℕ → Lexer → Bool × Lexer
eat b l = if is_byte b (head l.rest) then (true, advance 1 l) else (false, l)

abbrev pub at_boundary : List ℕ → Bool
at_boundary [] = true
at_boundary (b ∷ bs) = not (is_continuation b)

-- `src[start..pos]`, from the state at `start` to that at `pos`.
unfoldable pub slice : Lexer → Lexer → Run (List ℕ)
slice from l =
    if at_boundary from.rest && at_boundary l.rest
    then ok (take (l.pos - from.pos) from.rest)
    else panic

-- `diags.push`.
abbrev pub report : Span → Problem → Lexer → Lexer
report span problem l = record l {
  diags = l.diags ++ record { span = span; problem = problem } ∷ [];
}

abbrev pub is_digit : ℕ → Bool
is_digit b = leb b'0' b && leb b b'9'

abbrev pub is_word_start : ℕ → Bool
is_word_start b = b == b'_' || leb b'a' b && leb b b'z' || leb b'A' b && leb b b'Z'

abbrev pub is_word : ℕ → Bool
is_word b = is_word_start b || is_digit b

abbrev pub is_space : ℕ → Bool
is_space b = b == b' ' || b == b'\t' || b == b'\r' || b == b'\n'
