-- ===== src/Syntax/Lexer/Total/Streams.antt =====
-- For `scan` and `lex_at` of crates/wsharp-syntax/src/lexer.rs.
use wsharp.Prelude.{
  ℕ, zero, suc, ◌+◌, ◌%◌, ◌^◌, ◌≤◌, ◌<◌, ◌≡◌, refl, subst, ◌∙◌, ap, true, false, inl, inr, Option,
  List, [], ◌∷◌, map, arith, ◌==◌, length, Bool-cases,
}
use wsharp.Prelude.Run.{Run, ok, then_run}
use wsharp.Syntax.Token.{eof, span_new, Token}
use wsharp.Syntax.Lexer.{
  is_eof, next_token, scan_on, scan_loop, scan, shift_token, shift_diagnostic, lex_at,
}
use wsharp.Syntax.Lexer.State.{Lexer, Diagnostic}
use wsharp.Syntax.Lexer.Place.{Fits, AllWithin, is_text, span_new_small}
use wsharp.Syntax.Lexer.Total.Kinds.{InRange}
use wsharp.Syntax.Lexer.Total.Tokens.{Next, next_token_total}

sum_small : (n a base : ℕ) → n + base < 2 ^ 32 → a ≤ n → (a + base) % 2 ^ 32 ≡ a + base
sum_small n a base h k = omega (arith, h, k)

module _ {F : Type 0} where
  -- From `from` on the tokens follow each other, none empty, none over another, to a last one at `n`,
  -- which alone is the end of the file.
  pub data Tiles (n : ℕ) : ℕ → List (Token F) → Type 0 where
    last :
        {from : ℕ} (t : Token F)
        → from ≤ n
        → is_eof t.kind ≡ true
        → t.span ≡ record { start = n; end = n }
        → Tiles n from (t ∷ [])
    token :
        {from : ℕ} (t : Token F) (ts : List (Token F))
        → from ≤ t.span.start
        → t.span.start < t.span.end
        → is_eof t.kind ≡ false
        → Tiles n t.span.end ts
        → Tiles n from (t ∷ ts)

  abbrev pub AllInRange : List (Token F) → Type 0
  AllInRange [] = Unit
  AllInRange (t ∷ ts) = InRange t.kind × AllInRange ts

  -- A scan from `from` that returns.
  pub record Scanned (low n from : ℕ) (run : Run (List (Token F) × List Diagnostic)) : Type 0 where
    pub tokens : List (Token F)
    pub diags : List Diagnostic
    pub runs : run ≡ ok (tokens, diags)
    pub tiles : Tiles n from tokens
    pub in_range : AllInRange tokens
    pub reported : AllWithin low n diags

  Tiles-bound : (n from : ℕ) (ts : List (Token F)) → Tiles n from ts → from ≤ n
  Tiles-bound n from _ (last t h e s) = h
  Tiles-bound n from _ (token t ts h k e later) =
      omega (arith, h, k, Tiles-bound n t.span.end ts later)

  Tiles-shift :
      (n from base : ℕ) (ts : List (Token F))
      → n + base < 2 ^ 32
      → Tiles n from ts
      → Tiles (n + base) (from + base) (map (shift_token base) ts)
  Tiles-shift n from base _ small (last t h e s) =
      last (shift_token base t) (omega (arith, h)) e
        (rw (s, sum_small n n base small (omega arith)) refl)
  Tiles-shift n from base _ small (token t ts h k e later) =
      let bound = Tiles-bound n t.span.end ts later in
      let start = sum_small n t.span.start base small (omega (arith, k, bound)) in
      let end = sum_small n t.span.end base small bound in
      token (shift_token base t) (map (shift_token base) ts) (omega (arith, start, h))
        (omega (arith, start, end, k)) e (rw end (Tiles-shift n t.span.end base ts small later))

AllWithin-shift :
    (n base : ℕ) (ds : List Diagnostic)
    → n + base < 2 ^ 32
    → AllWithin 0 n ds
    → AllWithin base (n + base) (map (shift_diagnostic base) ds)
AllWithin-shift n base [] small all = tt
AllWithin-shift n base (d ∷ ds) small ((z, h, k), all) =
    ((ground arith, ground arith, ground arith), AllWithin-shift n base ds small all)

AllInRange-shift :
    {F : Type 0} (base : ℕ) (ts : List (Token F))
    → AllInRange ts
    → AllInRange (map (shift_token base) ts)
AllInRange-shift base [] all = tt
AllInRange-shift base (t ∷ ts) (here, all) = (here, AllInRange-shift base ts all)

module _ (F : Type 0) (parse_f64 : List ℕ → Option F) (float_zero : F) (src : List ℕ)
    (small : length src < 2 ^ 32) where
  scan_on_total :
      (rec : Lexer → Run (List (Token F) × List Diagnostic)) (from : ℕ)
      (run : Run (Token F × Lexer))
      → Next F parse_f64 float_zero src small from run
      → ((m : Lexer) → from < m.pos → Fits src 0 m → Scanned 0 (length src) m.pos (rec m))
      → Scanned 0 (length src) from (then_run run (scan_on parse_f64 float_zero rec))
  scan_on_total rec from run (inr (m, n, f, e, r)) go =
      let span = span_new_small m.pos m.pos (omega (arith, e, small)) (omega (arith, e, small)) in
      record {
        tokens = record { kind = eof; span = span_new m.pos m.pos } ∷ [];
        diags = m.diags;
        runs = rw r refl;
        tiles =
            last (record { kind = eof; span = span_new m.pos m.pos }) (omega (arith, n, e)) refl
              (span ∙ ap (λ p. record { start = p; end = p }) e);
        in_range = (tt, tt);
        reported = f.reported;
      }
  scan_on_total rec from run (inl (m, n, r)) go =
      let later = go r.after (omega (arith, n, r.moves)) r.fits in
      record {
        tokens = r.token ∷ later.tokens;
        diags = later.diags;
        runs = rw (r.runs, r.plain.0, later.runs) refl;
        tiles =
            token r.token later.tokens (omega (arith, n, r.starts))
              (omega (arith, r.starts, r.ends, r.moves)) r.plain.0 (rw r.ends later.tiles);
        in_range = (r.plain.1, later.in_range);
        reported = later.reported;
      }

  scan_loop_total :
      (f : ℕ) (l : Lexer)
      → length l.rest < f
      → Fits src 0 l
      → Scanned 0 (length src) l.pos (scan_loop parse_f64 float_zero f l)
  unfolding scan_loop
  scan_loop_total zero l h fit = absurd (omega arith)
  scan_loop_total (suc f) l h fit =
      scan_on_total (scan_loop parse_f64 float_zero f) l.pos (next_token parse_f64 float_zero l)
        (next_token_total F parse_f64 float_zero src small l fit)
        (λ m n g. scan_loop_total f m (omega (arith, h, n, fit.size, g.size)) g)

  scan_total : is_text src ≡ true → Scanned 0 (length src) 0 (scan parse_f64 float_zero src)
  unfolding scan
  scan_total text =
      scan_loop_total (suc (length src)) _ (omega arith)
        (record { place = refl; size = omega arith; shape = text; reported = tt })

  pub lex_at_total :
      (base : ℕ)
      → length src + base < 2 ^ 32
      → is_text src ≡ true
      → Scanned base (length src + base) base (lex_at parse_f64 float_zero src base)
  unfolding lex_at
  lex_at_total base room text =
      let s = scan_total text in
      let from : 0 + base ≡ base = omega arith in
      elim (Bool-cases (base == 0)) [
        | inl first ↦
            let zero_base : 0 ≡ base = ground arith in
            let whole : length src ≡ length src + base = omega (arith, zero_base) in
            rw (s.runs, first)
              (record {
                tokens = s.tokens;
                diags = s.diags;
                runs = refl;
                tiles =
                    subst (λ n. Tiles n base s.tokens) whole
                      (subst (λ b. Tiles (length src) b s.tokens) zero_base s.tiles);
                in_range = s.in_range;
                reported =
                    subst (λ n. AllWithin base n s.diags) whole
                      (subst (λ b. AllWithin b (length src) s.diags) zero_base s.reported);
              })
        | inr moved ↦
            rw (s.runs, moved)
              (record {
                tokens = map (shift_token base) s.tokens;
                diags = map (shift_diagnostic base) s.diags;
                runs = refl;
                tiles =
                    subst (λ b. Tiles (length src + base) b (map (shift_token base) s.tokens)) from
                      (Tiles-shift (length src) 0 base s.tokens room s.tiles);
                in_range = AllInRange-shift base s.tokens s.in_range;
                reported = AllWithin-shift (length src) base s.diags room s.reported;
              })
      ]
