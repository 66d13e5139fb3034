-- ===== src/Syntax/Lexer/RoundTrip/Printed.antt =====
-- For `lex` of crates/wsharp-syntax/src/lexer.rs: texts of words and operators with spaces between them.
use wsharp.Prelude.{
  ℕ, zero, suc, ◌+◌, ◌≤◌, ◌≡◌, ◌≢◌, refl, sym, ap, ◌∙◌, subst, inl, inr, true, false, Option, some,
  List, [], ◌∷◌, ◌++◌, map, arith, length, length-append,
}
use wsharp.Prelude.Run.{Run, ok}
use wsharp.Syntax.Token.{TokenKind, eof, ident, Token, span_new, text, keyword}
use wsharp.Syntax.Lexer.{is_eof, next_token, scan_loop, scan, lex_at, lex}
use wsharp.Syntax.Lexer.State.{Lexer, Diagnostic}
use wsharp.Syntax.Lexer.Text.{or_ident}
use wsharp.Syntax.Lexer.RoundTrip.Signs.{ReadsAs, sign_reads}
use wsharp.Syntax.Lexer.RoundTrip.Words.{is_name, word_reads}
use wsharp.Syntax.Lexer.RoundTrip.Fixed.{text-KnownBy, keyword-unknown}

module _ {F : Type 0} where
  -- The text of a kind: any kind with a fixed text but the end of the file is spelled as that text, and an identifier
  -- as a name that is not the text of any kind.
  pub data Spells : TokenKind F → List ℕ → Type 0 where
    fixed : (k : TokenKind F) (w : List ℕ) → text k ≡ some w → is_eof k ≡ false → Spells k w
    identifier :
        (w : List ℕ) → is_name w ≡ true → ((k : TokenKind F) → text k ≢ some w) → Spells (ident w) w

  -- A text of many: a space before each and one after the last.
  pub data SpellsAll : List (TokenKind F) → List ℕ → Type 0 where
    done : SpellsAll [] (b' ' ∷ [])
    more :
        (k : TokenKind F) (w : List ℕ) (ks : List (TokenKind F)) (src : List ℕ)
        → Spells k w
        → SpellsAll ks src
        → SpellsAll (k ∷ ks) (b' ' ∷ w ++ src)

  abbrev pub kinds : List (Token F) → List (TokenKind F)
  kinds = map (λ t. t.kind)

  starts_space :
      (ks : List (TokenKind F)) (src : List ℕ)
      → SpellsAll ks src
      → (rest : List ℕ) × (src ≡ b' ' ∷ rest)
  starts_space _ _ done = ([], refl)
  starts_space _ _ (more k w ks src s later) = (w ++ src, refl)

  Spells-is_eof : (k : TokenKind F) (w : List ℕ) → Spells k w → is_eof k ≡ false
  Spells-is_eof k _ (fixed _ w e h) = h
  Spells-is_eof _ w (identifier _ h fresh) = refl

module _ (F : Type 0) (parse_f64 : List ℕ → Option F) (float_zero : F) where
  -- The next token of a text between two spaces.
  abbrev ReadsSpelled : TokenKind F → List ℕ → ℕ → List Diagnostic → List ℕ → Type 0
  ReadsSpelled k rest p ds w = ReadsAs k (b' ' ∷ rest) ds (
      next_token parse_f64 float_zero
        (record { pos = p; rest = b' ' ∷ w ++ b' ' ∷ rest; diags = ds }))

  spelled_reads :
      (k : TokenKind F) (w rest : List ℕ) (p : ℕ) (ds : List Diagnostic)
      → Spells k w
      → ReadsSpelled k rest p ds w
  spelled_reads k w rest p ds (fixed _ _ e h) = elim (text-KnownBy k w e h) [
    | inl (sign, same) ↦
        subst (ReadsSpelled k rest p ds) same (sign_reads parse_f64 float_zero p rest ds k sign)
    | inr (name, known) ↦
        subst (λ x. ReadsSpelled x rest p ds w) (ap (or_ident w) known)
          (word_reads parse_f64 float_zero p rest ds w name)
  ]
  spelled_reads _ w rest p ds (identifier _ name fresh) =
      subst (λ x. ReadsSpelled x rest p ds w)
        (ap (or_ident w) (keyword-unknown w (keyword w) refl fresh))
        (word_reads parse_f64 float_zero p rest ds w name)

  -- A scan that returns tokens of these kinds and no diagnostic of its own.
  abbrev ScansAs :
      List (TokenKind F) → List Diagnostic → Run (List (Token F) × List Diagnostic) → Type 0
  ScansAs ks ds run =
      (tokens : List (Token F)) × (run ≡ ok (tokens, ds)) × (kinds tokens ≡ ks ++ eof ∷ [])

  scan_step :
      (f : ℕ) (l m : Lexer) (t : Token F) (ts : List (Token F)) (ds : List Diagnostic)
      → next_token parse_f64 float_zero l ≡ ok (t, m)
      → is_eof t.kind ≡ false
      → scan_loop parse_f64 float_zero f m ≡ ok (ts, ds)
      → scan_loop parse_f64 float_zero (suc f) l ≡ ok (t ∷ ts, ds)
  unfolding scan_loop
  scan_step f l m t ts ds e k r = rw (e, k, r) refl

  scan_end :
      (f p : ℕ) (ds : List Diagnostic)
      → ScansAs [] ds (
          scan_loop parse_f64 float_zero (suc f) (record { pos = p; rest = b' ' ∷ []; diags = ds }))
  unfolding scan_loop
  scan_end f p ds = (record { kind = eof; span = span_new (p + 1) (p + 1) } ∷ [], refl, refl)

  scan_loop_lem :
      (f p : ℕ) (ks : List (TokenKind F)) (src : List ℕ) (ds : List Diagnostic)
      → length src ≤ f
      → SpellsAll ks src
      → ScansAs ks ds
          (scan_loop parse_f64 float_zero f (record { pos = p; rest = src; diags = ds }))
  scan_loop_lem zero p _ _ ds h done = absurd (omega arith)
  scan_loop_lem zero p _ _ ds h (more k w ks src s later) = absurd (omega arith)
  scan_loop_lem (suc f) p _ _ ds h done = scan_end f p ds
  scan_loop_lem (suc f) p _ _ ds h (more k w ks src s later) =
      let (rest, same) = starts_space ks src later in
      let (span, q, e) = spelled_reads k w rest p ds s in
      let bound : length src ≤ f = omega (arith, h, length-append w src) in
      let (tokens, r, all) = scan_loop_lem f q ks src ds bound later in
      let after : ℕ → List ℕ → Lexer = λ at text. record { pos = at; rest = text; diags = ds } in
      let here =
        ap (λ x. next_token parse_f64 float_zero (after p (b' ' ∷ w ++ x))) same
        ∙ e
        ∙ ap (λ x. ok (record { kind = k; span = span }, after q x)) (sym same) in
      (
        record { kind = k; span = span } ∷ tokens,
        scan_step f _ (after q src) _ tokens ds here (Spells-is_eof k w s) r,
        ap (◌∷◌ k) all,
      )

  -- A text with a space before each item and after the last is lexed without a diagnostic, to tokens of the items'
  -- kinds and the end of the file. An item is any kind of keyword, operator or bracket, spelled as the text that the
  -- kind is displayed as, or an identifier, spelled as a name of ASCII letters, digits and underscores that begins with
  -- no digit and is the text of no kind.
  pub lex-SpellsAll :
      (ks : List (TokenKind F)) (src : List ℕ)
      → SpellsAll ks src
      → (tokens : List (Token F)) × (lex parse_f64 float_zero src ≡ ok (tokens, []))
        × (kinds tokens ≡ ks ++ eof ∷ [])
  unfolding lex lex_at scan
  lex-SpellsAll ks src s =
      let (tokens, r, all) = scan_loop_lem (suc (length src)) 0 ks src [] (omega arith) s in
      (tokens, rw r refl, all)
