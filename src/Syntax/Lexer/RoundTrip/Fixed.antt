-- ===== src/Syntax/Lexer/RoundTrip/Fixed.antt =====
-- For `text` and `keyword` of crates/wsharp-syntax/src/token.rs: the kinds with a fixed text, and the words that are
-- no such text.
use wsharp.Prelude.{
  ℕ, ◌≡◌, ◌≢◌, refl, ap, ◌⊎◌, inl, inr, true, false, Option, none, some, List, [], ◌∷◌, arith,
  codes, some_inj, subst, Bool-cases,
}
use wsharp.Syntax.Token
use wsharp.Syntax.Token.{TokenKind, text, keyword}
use wsharp.Syntax.Token.Keywords.{keyword-text}
use wsharp.Syntax.Lexer.{is_eof}
use wsharp.Syntax.Lexer.RoundTrip.Signs.{sign_text, is_sign, starts_sign, or_empty}
use wsharp.Syntax.Lexer.RoundTrip.Words.{is_name}

starts_sign-is_name : (w : List ℕ) → starts_sign w ≡ true → is_name w ≡ true → ⊥
starts_sign-is_name [] h e = ground arith
starts_sign-is_name (b ∷ bs) h e = ground arith

eof_text : (F : Type 0) (w : List ℕ) → text {F = F} Token.eof ≡ some w → is_name w ≡ true → ⊥
unfolding text
eof_text F w e name =
    let same = some_inj (codes "<eof>") w e in
    let clash = subst (λ x. is_name x ≡ false) same refl in absurd (cc)

module _ {F : Type 0} where
  -- How the lexer knows a kind by its text: as an operator, or as a word of its table.
  abbrev pub KnownBy : TokenKind F → List ℕ → Type 0
  KnownBy k w = (is_sign k ≡ true) × (sign_text k ≡ w) ⊎ (is_name w ≡ true) × (keyword w ≡ some k)

  by_word :
      (k : TokenKind F) (v w : List ℕ)
      → Option.some v ≡ some w
      → is_name v ≡ true
      → keyword v ≡ some k
      → KnownBy k w
  by_word k v w e name known =
      let same = some_inj v w e in
      inr (subst (λ x. is_name x ≡ true) same name, subst (λ x. keyword x ≡ some k) same known)

  by_sign : (k : TokenKind F) (w : List ℕ) → text k ≡ some w → is_sign k ≡ true → KnownBy k w
  by_sign k w e sign = inl (sign, ap or_empty e)

  -- Each kind with a fixed text, but for the end of the file.
  pub text-KnownBy :
      (k : TokenKind F) (w : List ℕ) → text k ≡ some w → is_eof k ≡ false → KnownBy k w
  unfolding text keyword
  text-KnownBy Token.and_kw w e h = by_word Token.and_kw (codes "and") w e refl refl
  text-KnownBy Token.break_kw w e h = by_word Token.break_kw (codes "break") w e refl refl
  text-KnownBy Token.catch_kw w e h = by_word Token.catch_kw (codes "catch") w e refl refl
  text-KnownBy Token.const_kw w e h = by_word Token.const_kw (codes "const") w e refl refl
  text-KnownBy Token.continue_kw w e h = by_word Token.continue_kw (codes "continue") w e refl refl
  text-KnownBy Token.else_kw w e h = by_word Token.else_kw (codes "else") w e refl refl
  text-KnownBy Token.error_kw w e h = by_word Token.error_kw (codes "error") w e refl refl
  text-KnownBy Token.false_kw w e h = by_word Token.false_kw (codes "false") w e refl refl
  text-KnownBy Token.fn_kw w e h = by_word Token.fn_kw (codes "fn") w e refl refl
  text-KnownBy Token.for_kw w e h = by_word Token.for_kw (codes "for") w e refl refl
  text-KnownBy Token.if_kw w e h = by_word Token.if_kw (codes "if") w e refl refl
  text-KnownBy Token.null_kw w e h = by_word Token.null_kw (codes "null") w e refl refl
  text-KnownBy Token.or_kw w e h = by_word Token.or_kw (codes "or") w e refl refl
  text-KnownBy Token.orelse_kw w e h = by_word Token.orelse_kw (codes "orelse") w e refl refl
  text-KnownBy Token.pub_kw w e h = by_word Token.pub_kw (codes "pub") w e refl refl
  text-KnownBy Token.return_kw w e h = by_word Token.return_kw (codes "return") w e refl refl
  text-KnownBy Token.struct_kw w e h = by_word Token.struct_kw (codes "struct") w e refl refl
  text-KnownBy Token.true_kw w e h = by_word Token.true_kw (codes "true") w e refl refl
  text-KnownBy Token.try_kw w e h = by_word Token.try_kw (codes "try") w e refl refl
  text-KnownBy Token.var_kw w e h = by_word Token.var_kw (codes "var") w e refl refl
  text-KnownBy Token.while_kw w e h = by_word Token.while_kw (codes "while") w e refl refl
  text-KnownBy (Token.int n) w e h = absurd (cc)
  text-KnownBy (Token.float x) w e h = absurd (cc)
  text-KnownBy (Token.str v) w e h = absurd (cc)
  text-KnownBy (Token.ident v) w e h = absurd (cc)
  text-KnownBy Token.eof w e h = absurd (cc)
  text-KnownBy k w e h = by_sign k w e (ground arith)

  sign-is_name :
      (k : TokenKind F) (w : List ℕ) → is_sign k ≡ true → sign_text k ≡ w → is_name w ≡ true → ⊥
  sign-is_name k w h same e =
      let first : starts_sign (sign_text k) ≡ true = ground arith in
      starts_sign-is_name w (subst (λ x. starts_sign x ≡ true) same first) e

  not_known :
      (k : TokenKind F) (w : List ℕ) → is_name w ≡ true → keyword {F = F} w ≡ none → KnownBy k w → ⊥
  not_known k w name h (inl (sign, same)) = sign-is_name k w sign same name
  not_known k w name h (inr (_, e)) = absurd (cc)

  -- A name that is not in the table is the text of no kind.
  pub unknown-text :
      (w : List ℕ)
      → is_name w ≡ true
      → keyword {F = F} w ≡ none
      → (k : TokenKind F) → text k ≢ some w
  unknown-text w name h k e = elim (Bool-cases (is_eof k)) [
    | inl last ↦ absurd (last_text k last e)
    | inr going ↦ not_known k w name h (text-KnownBy k w e going)
  ]
    where
      last_text : (k : TokenKind F) → is_eof k ≡ true → text k ≡ some w → ⊥
      last_text Token.eof last e = eof_text F w e name
      last_text k last e = absurd (ground arith)

  -- A name that is the text of no kind is not in the table.
  pub keyword-unknown :
      (w : List ℕ) (o : Option (TokenKind F))
      → keyword w ≡ o
      → ((k : TokenKind F) → text k ≢ some w)
      → keyword {F = F} w ≡ none
  keyword-unknown w none e h = e
  keyword-unknown w (some k) e h = absurd (h k (keyword-text F w k e))
