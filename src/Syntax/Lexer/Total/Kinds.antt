-- ===== src/Syntax/Lexer/Total/Kinds.antt =====
-- What a token of crates/wsharp-syntax/src/lexer.rs that is not the last is asked to be.
use wsharp.Prelude.{
  ℕ, ◌^◌, ◌≤◌, ◌<◌, ◌≡◌, refl, false, inl, inr, List, [], ◌∷◌, arith, same_list, length, Bool-cases,
}
use wsharp.Prelude.Run.{Run, ok}
use wsharp.Syntax.Token.{TokenKind, int, Token, span_new, keyword, keyword_in, keywords}
use wsharp.Syntax.Lexer.{is_eof}
use wsharp.Syntax.Lexer.State.{Lexer}
use wsharp.Syntax.Lexer.Place.{Fits}
use wsharp.Syntax.Lexer.Text.{or_ident}

module _ {F : Type 0} where
  -- An integer literal fits in 64 bits.
  abbrev pub InRange : TokenKind F → Type 0
  InRange (int n) = n < 2 ^ 64
  InRange _ = Unit

  abbrev pub IsPlain : TokenKind F → Type 0
  IsPlain k = (is_eof k ≡ false) × InRange k

  abbrev AllPlain : List (List ℕ × TokenKind F) → Type 0
  AllPlain [] = Unit
  AllPlain ((w, k) ∷ rest) = IsPlain k × AllPlain rest

  -- A run from `from` that returns a token of the bytes it passed.
  pub record Reads (src : List ℕ) (from : Lexer) (run : Run (Token F × Lexer)) : Type 0 where
    pub token : Token F
    pub after : Lexer
    pub runs : run ≡ ok (token, after)
    pub fits : Fits src 0 after
    pub plain : IsPlain token.kind
    pub starts : token.span.start ≡ from.pos
    pub ends : token.span.end ≡ after.pos
    pub moves : from.pos < after.pos

  pub spanned :
      (src : List ℕ) (from m : Lexer) (k : TokenKind F) (run : Run (Token F × Lexer))
      → length src < 2 ^ 32
      → run ≡ ok (record { kind = k; span = span_new from.pos m.pos }, m)
      → Fits src 0 m
      → IsPlain k
      → from.pos < m.pos
      → Reads src from run
  spanned src from m k run small e f p n =
      let bound : m.pos ≤ length src = omega (arith, f.size) in
      record {
        token = record { kind = k; span = span_new from.pos m.pos };
        after = m;
        runs = e;
        fits = f;
        plain = p;
        starts = ground arith;
        ends = ground arith;
        moves = n;
      }

module _ (F : Type 0) where
  keywords-AllPlain : AllPlain (keywords {F = F})
  keywords-AllPlain = ground arith

  or_ident-IsPlain :
      (word : List ℕ) (table : List (List ℕ × TokenKind F))
      → AllPlain table
      → IsPlain (or_ident word (keyword_in word table))
  or_ident-IsPlain word [] all = (refl, tt)
  or_ident-IsPlain word ((w, k) ∷ rest) (here, all) = elim (Bool-cases (same_list word w)) [
    | inl hit ↦ rw hit here
    | inr miss ↦ rw miss (or_ident-IsPlain word rest all)
  ]

  pub word-IsPlain : (word : List ℕ) → IsPlain {F = F} (or_ident word (keyword word))
  unfolding keyword
  word-IsPlain word = or_ident-IsPlain word keywords keywords-AllPlain
