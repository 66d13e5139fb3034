-- ===== src/Syntax/Lexer/RoundTrip/Signs.antt =====
-- For the operators of crates/wsharp-syntax/src/lexer.rs: the text of one, between two spaces.
use wsharp.Prelude.{
  ℕ, ◌≡◌, refl, Bool, true, false, not, ◌&&◌, Option, none, some, List, [], ◌∷◌, ◌++◌,
}
use wsharp.Prelude.Run.{Run, ok}
use wsharp.Syntax.Token
use wsharp.Syntax.Token.{TokenKind, Span, Token, text}
use wsharp.Syntax.Lexer.{is_eof, next_token}
use wsharp.Syntax.Lexer.State.{Lexer, Diagnostic, is_word_start}

abbrev pub or_empty : Option (List ℕ) → List ℕ
or_empty none = []
or_empty (some w) = w

abbrev pub starts_sign : List ℕ → Bool
starts_sign [] = false
starts_sign (b ∷ bs) = not (is_word_start b)

module _ {F : Type 0} where
  abbrev pub sign_text : TokenKind F → List ℕ
  sign_text k = or_empty (text k)

  -- An operator or a bracket: a kind with a text that is no word.
  abbrev pub is_sign : TokenKind F → Bool
  is_sign k = not (is_eof k) && starts_sign (sign_text k)

  -- A run that reads `k` and stops before `rest`.
  abbrev pub ReadsAs : TokenKind F → List ℕ → List Diagnostic → Run (Token F × Lexer) → Type 0
  ReadsAs k rest ds run =
      (s : Span) × (p : ℕ) × (run
        ≡ ok (record { kind = k; span = s }, record { pos = p; rest = rest; diags = ds }))

module _ {F : Type 0} (parse_f64 : List ℕ → Option F) (float_zero : F) (p : ℕ) (rest : List ℕ)
    (ds : List Diagnostic) where
  abbrev at_text : List ℕ → Lexer
  at_text w = record { pos = p; rest = b' ' ∷ w ++ b' ' ∷ rest; diags = ds }

  pub sign_reads :
      (k : TokenKind F)
      → is_sign k ≡ true
      → ReadsAs k (b' ' ∷ rest) ds (next_token parse_f64 float_zero (at_text (sign_text k)))
  unfolding next_token text
  sign_reads (Token.int n) e = absurd (cc)
  sign_reads (Token.float x) e = absurd (cc)
  sign_reads (Token.str v) e = absurd (cc)
  sign_reads (Token.ident v) e = absurd (cc)
  sign_reads Token.and_kw e = absurd (cc)
  sign_reads Token.break_kw e = absurd (cc)
  sign_reads Token.catch_kw e = absurd (cc)
  sign_reads Token.const_kw e = absurd (cc)
  sign_reads Token.continue_kw e = absurd (cc)
  sign_reads Token.else_kw e = absurd (cc)
  sign_reads Token.error_kw e = absurd (cc)
  sign_reads Token.false_kw e = absurd (cc)
  sign_reads Token.fn_kw e = absurd (cc)
  sign_reads Token.for_kw e = absurd (cc)
  sign_reads Token.if_kw e = absurd (cc)
  sign_reads Token.null_kw e = absurd (cc)
  sign_reads Token.or_kw e = absurd (cc)
  sign_reads Token.orelse_kw e = absurd (cc)
  sign_reads Token.pub_kw e = absurd (cc)
  sign_reads Token.return_kw e = absurd (cc)
  sign_reads Token.struct_kw e = absurd (cc)
  sign_reads Token.true_kw e = absurd (cc)
  sign_reads Token.try_kw e = absurd (cc)
  sign_reads Token.var_kw e = absurd (cc)
  sign_reads Token.while_kw e = absurd (cc)
  sign_reads Token.eof e = absurd (cc)
  sign_reads Token.l_paren e = (_, _, refl)
  sign_reads Token.r_paren e = (_, _, refl)
  sign_reads Token.l_brace e = (_, _, refl)
  sign_reads Token.r_brace e = (_, _, refl)
  sign_reads Token.l_bracket e = (_, _, refl)
  sign_reads Token.r_bracket e = (_, _, refl)
  sign_reads Token.comma e = (_, _, refl)
  sign_reads Token.semi e = (_, _, refl)
  sign_reads Token.colon e = (_, _, refl)
  sign_reads Token.dot e = (_, _, refl)
  sign_reads Token.dot_question e = (_, _, refl)
  sign_reads Token.pipe e = (_, _, refl)
  sign_reads Token.question e = (_, _, refl)
  sign_reads Token.at e = (_, _, refl)
  sign_reads Token.plus e = (_, _, refl)
  sign_reads Token.minus e = (_, _, refl)
  sign_reads Token.star e = (_, _, refl)
  sign_reads Token.slash e = (_, _, refl)
  sign_reads Token.percent e = (_, _, refl)
  sign_reads Token.bang e = (_, _, refl)
  sign_reads Token.eq e = (_, _, refl)
  sign_reads Token.eq_eq e = (_, _, refl)
  sign_reads Token.bang_eq e = (_, _, refl)
  sign_reads Token.lt e = (_, _, refl)
  sign_reads Token.lt_eq e = (_, _, refl)
  sign_reads Token.gt e = (_, _, refl)
  sign_reads Token.gt_eq e = (_, _, refl)
  sign_reads Token.plus_eq e = (_, _, refl)
  sign_reads Token.minus_eq e = (_, _, refl)
  sign_reads Token.star_eq e = (_, _, refl)
  sign_reads Token.slash_eq e = (_, _, refl)
  sign_reads Token.percent_eq e = (_, _, refl)
  sign_reads Token.amp e = (_, _, refl)
  sign_reads Token.caret e = (_, _, refl)
  sign_reads Token.tilde e = (_, _, refl)
  sign_reads Token.shl e = (_, _, refl)
  sign_reads Token.shr e = (_, _, refl)
  sign_reads Token.amp_eq e = (_, _, refl)
  sign_reads Token.pipe_eq e = (_, _, refl)
  sign_reads Token.caret_eq e = (_, _, refl)
  sign_reads Token.shl_eq e = (_, _, refl)
  sign_reads Token.shr_eq e = (_, _, refl)
