-- ===== src/Syntax/Lexer/RoundTrip/Words.antt =====
-- For `ident` of crates/wsharp-syntax/src/lexer.rs: a word between two spaces.
use wsharp.Prelude.{
  ℕ, suc, ◌+◌, ◌-◌, ◌≡◌, refl, ap, ◌∙◌, Bool, true, false, ◌&&◌, Option, List, [], ◌∷◌, ◌++◌, arith,
  ◌==◌, length, take-append,
}
use wsharp.Syntax.Token.{span_new, keyword}
use wsharp.Syntax.Lexer.{next_token}
use wsharp.Syntax.Lexer.State.{
  Lexer, Diagnostic, slice, is_word, is_word_start, is_digit, is_space, is_continuation,
}
use wsharp.Syntax.Lexer.Text.{word_loop, or_ident, ident_token}
use wsharp.Syntax.Lexer.RoundTrip.Signs.{ReadsAs}

abbrev all_word : List ℕ → Bool
all_word [] = true
all_word (b ∷ bs) = is_word b && all_word bs

-- What an identifier or a keyword looks like.
abbrev pub is_name : List ℕ → Bool
is_name [] = false
is_name (b ∷ bs) = is_word_start b && all_word bs

-- The loop stops at the space.
word_loop_lem :
    (w rest : List ℕ) (l : Lexer)
    → all_word w ≡ true
    → l.rest ≡ w ++ b' ' ∷ rest
    → word_loop l (w ++ b' ' ∷ rest)
      ≡ record { pos = l.pos + length w; rest = b' ' ∷ rest; diags = l.diags }
unfolding word_loop
word_loop_lem [] rest l h e =
    let same : l.pos ≡ l.pos + 0 = omega arith in
    ap (λ r. record l { rest = r }) e
    ∙ ap (λ p. record { pos = p; rest = b' ' ∷ rest; diags = l.diags }) same
word_loop_lem (b ∷ w) rest l h e =
    let here : is_word b ≡ true = ground arith in
    let later : all_word w ≡ true = ground arith in
    let sum : l.pos + 1 + length w ≡ l.pos + suc (length w) = omega arith in
    rw here (
      word_loop_lem w rest (record l { pos = l.pos + 1; rest = w ++ b' ' ∷ rest }) later refl
      ∙ ap (λ p. record { pos = p; rest = b' ' ∷ rest; diags = l.diags }) sum)

module _ {F : Type 0} (p : ℕ) (rest : List ℕ) (ds : List Diagnostic) where
  ident_token_lem :
      (b : ℕ) (w : List ℕ)
      → is_name (b ∷ w) ≡ true
      → ReadsAs {F = F}
          (or_ident (b ∷ w) (keyword (b ∷ w)))
          (b' ' ∷ rest)
          ds
          (ident_token (record { pos = p; rest = b ∷ w ++ b' ' ∷ rest; diags = ds }))
  unfolding ident_token slice
  ident_token_lem b w h =
      let from : Lexer = record { pos = p; rest = b ∷ w ++ b' ' ∷ rest; diags = ds } in
      let word : all_word (b ∷ w) ≡ true = ground arith in
      let edge : is_continuation b ≡ false = ground arith in
      let loop = word_loop_lem (b ∷ w) rest from word refl in
      let width : p + suc (length w) - p ≡ suc (length w) = omega arith in
      let text = take-append w (b' ' ∷ rest) in
      (span_new p (p + suc (length w)), p + suc (length w), rw (loop, edge, width, text) refl)

module _ {F : Type 0} (parse_f64 : List ℕ → Option F) (float_zero : F) (p : ℕ)
    (ds : List Diagnostic) where
  -- The space is passed over.
  word_round :
      (b : ℕ) (w : List ℕ)
      → is_word_start b ≡ true
      → next_token {F = F} parse_f64 float_zero
          (record { pos = p; rest = b' ' ∷ b ∷ w; diags = ds })
        ≡ ident_token (record { pos = p + 1; rest = b ∷ w; diags = ds })
  unfolding next_token
  word_round b w start =
      let space : is_space b ≡ false = ground arith in
      let slash : (b == b'/') ≡ false = ground arith in
      let digit : is_digit b ≡ false = ground arith in
      let quote : (b == b'"') ≡ false = ground arith in rw (space, slash, digit, quote, start) refl

module _ {F : Type 0} (parse_f64 : List ℕ → Option F) (float_zero : F) (p : ℕ) (rest : List ℕ)
    (ds : List Diagnostic) where
  pub word_reads :
      (w : List ℕ)
      → is_name w ≡ true
      → ReadsAs {F = F} (or_ident w (keyword w)) (b' ' ∷ rest) ds (
          next_token parse_f64 float_zero
            (record { pos = p; rest = b' ' ∷ w ++ b' ' ∷ rest; diags = ds }))
  word_reads [] h = absurd (cc)
  word_reads (b ∷ w) h =
      let step = word_round parse_f64 float_zero p ds b (w ++ b' ' ∷ rest) (ground arith) in
      let (s, q, e) = ident_token_lem (p + 1) rest ds b w h in (s, q, step ∙ e)
