-- ===== src/Syntax/Lexer/Tests.antt =====
-- Runs of the lexer.
use wsharp.Prelude.{ℕ, ◌≡◌, refl, Option, none, List, [], ◌∷◌, ◌++◌, arith, codes}
use wsharp.Prelude.Run.{Run, ok}
use wsharp.Syntax.Token
use wsharp.Syntax.Token.{TokenKind, Token, text, keyword}
use wsharp.Syntax.Lexer.{lex, lex_at}
use wsharp.Syntax.Lexer.State.{Diagnostic}
use wsharp.Syntax.Lexer.RoundTrip.Printed.{
  identifier, fixed, SpellsAll, done, more, kinds, lex-SpellsAll,
}
use wsharp.Syntax.Lexer.RoundTrip.Fixed.{unknown-text}
use wsharp.Syntax.Lexer.Place.{AllWithin}
use wsharp.Syntax.Lexer.Total.Streams.{Tiles, AllInRange}
use wsharp.Syntax.Lexer.Total.Returns.{lex_at-Tiles, lex_at-AllWithin, lex_at-AllInRange}

-- No float is read in these runs.
abbrev no_float : List ℕ → Option ℕ
no_float s = none

abbrev spans : List Diagnostic → List (ℕ × ℕ)
spans [] = []
spans (d ∷ ds) = (d.span.start, d.span.end) ∷ spans ds

abbrev diagnostics : {F : Type 0} → Run (List (Token F) × List Diagnostic) → List (ℕ × ℕ)
diagnostics (ok (tokens, diags)) = spans diags
diagnostics _ = []

small_run :
    lex no_float 0 (codes "a <<= 0xff; // end")
    ≡ ok (
      (record { kind = Token.ident (codes "a"); span = record { start = 0; end = 1 } })
          ∷ (record { kind = Token.shl_eq; span = record { start = 2; end = 5 } })
          ∷ (record { kind = Token.int 255; span = record { start = 6; end = 10 } })
          ∷ (record { kind = Token.semi; span = record { start = 10; end = 11 } })
          ∷ (record { kind = Token.eof; span = record { start = 18; end = 18 } })
          ∷ [],
      [],
    )
unfolding lex
small_run = refl

-- A number that is too large, an unknown escape of two bytes, a string with no end, and a stray `#`.
abbrev bad_source : List ℕ
bad_source = codes "99999999999999999999 # \"\\" ++ (0xc3 ∷ 0xa9 ∷ []) ++ codes "x\n}"

bad_source_run :
    diagnostics (lex_at no_float 0 bad_source 100)
    ≡ ((100, 120) ∷ (121, 122) ∷ (124, 127) ∷ (123, 128) ∷ [])
unfolding lex_at
bad_source_run = refl

lex_at-Tiles_example :
    (tokens : List (Token ℕ)) × (diags : List Diagnostic) × (lex_at no_float 0 bad_source 100
      ≡ ok (tokens, diags))
    × Tiles 130 100 tokens
lex_at-Tiles_example = lex_at-Tiles ℕ no_float 0 bad_source 100 (omega arith) refl

lex_at-AllWithin_example :
    (tokens : List (Token ℕ)) × (diags : List Diagnostic) × (lex_at no_float 0 bad_source 100
      ≡ ok (tokens, diags))
    × AllWithin 100 130 diags
lex_at-AllWithin_example = lex_at-AllWithin ℕ no_float 0 bad_source 100 (omega arith) refl

abbrev printed : List ℕ
printed = codes " while x1 <<= y ; "

abbrev printed_kinds : List (TokenKind ℕ)
printed_kinds =
    Token.while_kw
    ∷ Token.ident (codes "x1")
    ∷ Token.shl_eq
    ∷ Token.ident (codes "y")
    ∷ Token.semi
    ∷ []

printed-SpellsAll : SpellsAll printed_kinds printed
unfolding text keyword
printed-SpellsAll = more _ _ _ _ (fixed Token.while_kw (codes "while") refl refl) (
    more _ _ _ _ (identifier (codes "x1") refl (unknown-text (codes "x1") refl refl)) (
      more _ _ _ _ (fixed Token.shl_eq (codes "<<=") refl refl) (
        more _ _ _ _ (identifier (codes "y") refl (unknown-text (codes "y") refl refl))
          (more _ _ _ _ (fixed Token.semi (codes ";") refl refl) done))))

lex-SpellsAll_example :
    (tokens : List (Token ℕ)) × (lex no_float 0 printed ≡ ok (tokens, []))
    × (kinds tokens ≡ printed_kinds ++ Token.eof ∷ [])
lex-SpellsAll_example = lex-SpellsAll ℕ no_float 0 printed_kinds printed printed-SpellsAll

lex_at-AllInRange_example :
    (tokens : List (Token ℕ)) × (diags : List Diagnostic) × (lex_at no_float 0 bad_source 100
      ≡ ok (tokens, diags))
    × AllInRange tokens
lex_at-AllInRange_example = lex_at-AllInRange ℕ no_float 0 bad_source 100 (omega arith) refl
