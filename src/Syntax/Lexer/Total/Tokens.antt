-- ===== src/Syntax/Lexer/Total/Tokens.antt =====
-- For `next_token` of crates/wsharp-syntax/src/lexer.rs.
use wsharp.Prelude.{
  ℕ, zero, suc, ◌-◌, ◌^◌, ◌≤◌, ◌<◌, ◌≡◌, ◌⊎◌, refl, inl, inr, Option, none, some, List, [], ◌∷◌,
  arith, ◌==◌, length, take, Bool-cases,
}
use wsharp.Prelude.Run.{Run, ok}
use wsharp.Syntax.Token.{TokenKind, eof, Token, span_new}
use wsharp.Syntax.Lexer.{symbol, symbol_or_skip, next_round, next_loop, next_token}
use wsharp.Syntax.Lexer.State.{
  Lexer, unexpected_character, advance, is_digit, is_word_start, len_utf8,
}
use wsharp.Syntax.Lexer.Place.{Fits, Fits-report, bump_total, slice_total}
use wsharp.Syntax.Lexer.Total.Kinds.{Reads, spanned}
use wsharp.Syntax.Lexer.Total.Trivia.{skip_trivia_total}
use wsharp.Syntax.Lexer.Total.Words.{ident_token_total}
use wsharp.Syntax.Lexer.Total.Strings.{string_total}
use wsharp.Syntax.Lexer.Total.Numbers.{number_total}
use wsharp.Syntax.Lexer.Total.Symbols.{GoodIf, nothing, good, symbol-GoodIf}

module _ (F : Type 0) (parse_f64 : List ℕ → Option F) (float_zero : F) (src : List ℕ)
    (small : length src < 2 ^ 32) where
  -- A token at or after a position, or the end of the source.
  abbrev pub Next : ℕ → Run (Token F × Lexer) → Type 0
  Next from run =
      ((m : Lexer) × (from ≤ m.pos) × Reads src m run)
      ⊎ ((m : Lexer) × (from ≤ m.pos)
          × Fits src 0 m
          × (m.pos ≡ length src)
          × (run ≡ ok (record { kind = eof; span = span_new m.pos m.pos }, m)))

  Next-before : (a b : ℕ) (run : Run (Token F × Lexer)) → a ≤ b → Next b run → Next a run
  Next-before a b run h (inl (m, n, r)) = inl (m, omega (arith, h, n), r)
  Next-before a b run h (inr (m, n, f, e, r)) = inr (m, omega (arith, h, n), f, e, r)

  symbol_or_skip_total :
      (rec : Lexer → Run (Token F × Lexer)) (from l : Lexer) (o : Option (TokenKind F × Lexer))
      → from.pos < l.pos
      → ((m : Lexer) → from.pos < m.pos → Fits src 0 m → Next m.pos (rec m))
      → Fits src 0 from
      → Fits src 0 l
      → GoodIf F src l o
      → Next from.pos (symbol_or_skip parse_f64 float_zero rec from l o)
  symbol_or_skip_total rec from l none h go f g nothing =
      let told =
        Fits-report src 0 from.pos l.pos (unexpected_character (take (l.pos - from.pos) from.rest))
          l small g h (omega (arith, g.size)) in
      rw (slice_total src from l f g)
        (Next-before from.pos l.pos _ (omega (arith, h)) (go _ h told))
  symbol_or_skip_total rec from l (some (k, m)) h go f g (good _ (fm, n, p)) =
      inl (from, omega arith, spanned src from m k _ small refl fm p (omega (arith, h, n)))

  next_round_total :
      (rec : Lexer → Run (Token F × Lexer)) (l : Lexer) (bs : List ℕ)
      → l.rest ≡ bs
      → ((m : Lexer) → l.pos < m.pos → Fits src 0 m → Next m.pos (rec m))
      → Fits src 0 l
      → Next l.pos (next_round parse_f64 float_zero rec l bs)
  next_round_total rec l [] e go f =
      let size = rw e at f.size in inr (l, omega arith, f, omega (arith, size), refl)
  next_round_total rec l (b ∷ bs) e go f = elim (Bool-cases (is_digit b)) [
    | inl digit ↦
        rw digit
          (inl (l, omega arith, number_total F parse_f64 float_zero src small l b bs f e digit))
    | inr not_digit ↦ elim (Bool-cases (b == b'"')) [
      | inl quote ↦
          rw (not_digit, quote) (inl (l, omega arith, string_total src small F l b bs f e quote))
      | inr not_quote ↦ elim (Bool-cases (is_word_start b)) [
        | inl start ↦
            rw (not_digit, not_quote, start)
              (inl (l, omega arith, ident_token_total src small F l b bs f e start))
        | inr other ↦
            let (r, g, n) = bump_total src l b bs f e in
            let m = advance (len_utf8 b) l in
            rw (not_digit, not_quote, other, r)
              (symbol_or_skip_total rec l m (symbol b m) (omega (arith, n)) go f g
                (symbol-GoodIf F src b m g))
      ]
    ]
  ]

  next_loop_total :
      (f : ℕ) (l : Lexer)
      → length l.rest < f
      → Fits src 0 l
      → Next l.pos (next_loop parse_f64 float_zero f l)
  unfolding next_loop
  next_loop_total zero l h fit = absurd (omega arith)
  next_loop_total (suc f) l h fit =
      let (m, r, g, n) = skip_trivia_total src l fit in
      rw r (
        Next-before l.pos m.pos _ n (
          next_round_total (next_loop parse_f64 float_zero f) m m.rest refl
            (λ k before fk. next_loop_total f k (omega (arith, h, n, before, fit.size, fk.size)) fk)
            g))

  pub next_token_total : (l : Lexer) → Fits src 0 l → Next l.pos (next_token parse_f64 float_zero l)
  unfolding next_token
  next_token_total l fit = next_loop_total (suc (length l.rest)) l (omega arith) fit
