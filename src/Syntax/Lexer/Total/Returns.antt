-- ===== src/Syntax/Lexer/Total/Returns.antt =====
-- For `lex_at` of crates/wsharp-syntax/src/lexer.rs.
use wsharp.Prelude.{ℕ, ◌+◌, ◌^◌, ◌<◌, ◌≡◌, true, Option, List, arith, length}
use wsharp.Prelude.Run.{ok}
use wsharp.Syntax.Token.{Token}
use wsharp.Syntax.Lexer.{lex_at}
use wsharp.Syntax.Lexer.State.{Diagnostic}
use wsharp.Syntax.Lexer.Place.{is_text, AllWithin}
use wsharp.Syntax.Lexer.Total.Streams.{Tiles, AllInRange, lex_at_total}

module _ (F : Type 0) (parse_f64 : List ℕ → Option F) (float_zero : F) (src : List ℕ) (base : ℕ)
    (room : length src + base < 2 ^ 32) (text : is_text src ≡ true) where
  -- For each source of well-formed UTF-8 that ends, with its base, below 2^32, `lex_at` returns: no slice panics
  -- and no loop runs on. The spans of its tokens follow each other from the base on, none empty and none over another,
  -- and the last token alone is `Eof`, at the end of the source.
  pub lex_at-Tiles :
      (tokens : List (Token F)) × (diags : List Diagnostic) × (lex_at parse_f64 float_zero src base
        ≡ ok (tokens, diags))
      × Tiles (length src + base) base tokens
  lex_at-Tiles =
      let s = lex_at_total F parse_f64 float_zero src (omega (arith, room)) base room text in
      (s.tokens, s.diags, s.runs, s.tiles)

  -- For each source of well-formed UTF-8 that ends, with its base, below 2^32, and with any errors in it, `lex_at`
  -- returns, and each diagnostic's span holds a byte at least, starts at the base or after it, and ends at the end of
  -- the source, counted from the base, or before.
  pub lex_at-AllWithin :
      (tokens : List (Token F)) × (diags : List Diagnostic) × (lex_at parse_f64 float_zero src base
        ≡ ok (tokens, diags))
      × AllWithin base (length src + base) diags
  lex_at-AllWithin =
      let s = lex_at_total F parse_f64 float_zero src (omega (arith, room)) base room text in
      (s.tokens, s.diags, s.runs, s.reported)

  -- For each source of well-formed UTF-8 that ends, with its base, below 2^32, `lex_at` returns, and the value of each
  -- integer literal among its tokens is below 2^64.
  pub lex_at-AllInRange :
      (tokens : List (Token F)) × (diags : List Diagnostic) × (lex_at parse_f64 float_zero src base
        ≡ ok (tokens, diags))
      × AllInRange tokens
  lex_at-AllInRange =
      let s = lex_at_total F parse_f64 float_zero src (omega (arith, room)) base room text in
      (s.tokens, s.diags, s.runs, s.in_range)
