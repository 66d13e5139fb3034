-- ===== src/Syntax/Lexer/Total/Symbols.antt =====
-- For the operators of crates/wsharp-syntax/src/lexer.rs.
use wsharp.Prelude.{
  ℕ, ◌≤◌, ◌<◌, ◌≡◌, refl, Bool, true, false, inl, inr, Option, none, some, List, [], ◌∷◌, arith,
  ◌==◌, if◌then◌else◌, Bool-cases,
}
use wsharp.Syntax.Token
use wsharp.Syntax.Token.{TokenKind}
use wsharp.Syntax.Lexer.{either, maybe_eq, by_doubled, shift_or, symbol}
use wsharp.Syntax.Lexer.State.{Lexer, head, is_byte, eat}
use wsharp.Syntax.Lexer.Place.{Fits, Fits-ascii}
use wsharp.Syntax.Lexer.Total.Kinds.{IsPlain}

byte_at : (c : ℕ) (bs : List ℕ) → is_byte c (head bs) ≡ true → (cs : List ℕ) × (bs ≡ c ∷ cs)
byte_at c [] e = absurd (cc)
byte_at c (b ∷ bs) e = (bs, let h : b ≡ c = ground arith in rw h refl)

eat-Fits :
    (src : List ℕ) (c : ℕ) (l : Lexer)
    → c < 0x80
    → Fits src 0 l
    → Fits src 0 (eat c l).1 × (l.pos ≤ (eat c l).1.pos)
unfolding eat
eat-Fits src c l h f = elim (Bool-cases (is_byte c (head l.rest))) [
  | inl hit ↦
      let (cs, e) = byte_at c l.rest hit in rw hit (Fits-ascii src l c cs f e h, omega arith)
  | inr miss ↦ rw miss (f, omega arith)
]

module _ (F : Type 0) (src : List ℕ) where
  -- A kind read between two states.
  abbrev Good : Lexer → TokenKind F × Lexer → Type 0
  Good l (k, m) = Fits src 0 m × (l.pos ≤ m.pos) × IsPlain k

  pub data GoodIf (l : Lexer) : Option (TokenKind F × Lexer) → Type 0 where
    nothing : GoodIf l none
    good : (r : TokenKind F × Lexer) → Good l r → GoodIf l (some r)

  either-Good :
      (l : Lexer) (yes_kind no_kind : TokenKind F) (r : Bool × Lexer)
      → Fits src 0 r.1 × (l.pos ≤ r.1.pos)
      → IsPlain yes_kind
      → IsPlain no_kind
      → Good l (either yes_kind no_kind r)
  either-Good l yes_kind no_kind (true, m) (f, n) p q = (f, n, p)
  either-Good l yes_kind no_kind (false, m) (f, n) p q = (f, n, q)

  eat-Good :
      (c : ℕ) (l : Lexer) (yes_kind no_kind : TokenKind F)
      → Fits src 0 l
      → c < 0x80
      → IsPlain yes_kind
      → IsPlain no_kind
      → Good l (either yes_kind no_kind (eat c l))
  eat-Good c l yes_kind no_kind f h p q =
      either-Good l yes_kind no_kind (eat c l) (eat-Fits src c l h f) p q

  maybe_eq-Good :
      (l : Lexer) (with_eq without : TokenKind F)
      → Fits src 0 l
      → IsPlain with_eq
      → IsPlain without
      → Good l (maybe_eq with_eq without l)
  unfolding maybe_eq
  maybe_eq-Good l with_eq without f p q = eat-Good b'=' l with_eq without f (omega arith) p q

  -- From an earlier state.
  earlier : (l m : Lexer) (r : TokenKind F × Lexer) → l.pos ≤ m.pos → Good m r → Good l r
  earlier l m r h (f, n, p) = (f, omega (arith, h, n), p)

  by_doubled-Good :
      (l : Lexer) (doubled_eq shift or_eq single : TokenKind F) (r : Bool × Lexer)
      → Fits src 0 r.1 × (l.pos ≤ r.1.pos)
      → IsPlain doubled_eq
      → IsPlain shift
      → IsPlain or_eq
      → IsPlain single
      → Good l (by_doubled doubled_eq shift or_eq single r)
  by_doubled-Good l doubled_eq shift or_eq single (true, m) (f, n) p q r s =
      earlier l m _ n (maybe_eq-Good m doubled_eq shift f p q)
  by_doubled-Good l doubled_eq shift or_eq single (false, m) (f, n) p q r s =
      earlier l m _ n (maybe_eq-Good m or_eq single f r s)

  shift_or-Good :
      (c : ℕ) (l : Lexer) (doubled_eq shift or_eq single : TokenKind F)
      → Fits src 0 l
      → c < 0x80
      → IsPlain doubled_eq
      → IsPlain shift
      → IsPlain or_eq
      → IsPlain single
      → Good l (shift_or doubled_eq shift or_eq single c l)
  unfolding shift_or
  shift_or-Good c l doubled_eq shift or_eq single f h p q r s =
      by_doubled-Good l doubled_eq shift or_eq single (eat c l) (eat-Fits src c l h f) p q r s

  same : (l : Lexer) (k : TokenKind F) → Fits src 0 l → IsPlain k → Good l (k, l)
  same l k f p = (f, omega arith, p)

  arm :
      (l : Lexer) (test : Bool) (r : TokenKind F × Lexer) (later : Option (TokenKind F × Lexer))
      → Good l r
      → GoodIf l later
      → GoodIf l (if test then some r else later)
  arm l true r later here rest = good r here
  arm l false r later here rest = rest

  pub symbol-GoodIf : (b : ℕ) (l : Lexer) → Fits src 0 l → GoodIf l (symbol b l)
  unfolding symbol
  symbol-GoodIf b l f =
      arm l (b == b'(') (Token.l_paren, l) _ (same l Token.l_paren f (refl, tt))
        (arm l (b == b')') (Token.r_paren, l) _ (same l Token.r_paren f (refl, tt))
          (arm l (b == b'{') (Token.l_brace, l) _ (same l Token.l_brace f (refl, tt))
            (arm l (b == b'}') (Token.r_brace, l) _ (same l Token.r_brace f (refl, tt))
              (arm l (b == b'[') (Token.l_bracket, l) _ (same l Token.l_bracket f (refl, tt))
                (arm l (b == b']') (Token.r_bracket, l) _ (same l Token.r_bracket f (refl, tt))
                  (arm l (b == b',') (Token.comma, l) _ (same l Token.comma f (refl, tt))
                    (arm l (b == b';') (Token.semi, l) _ (same l Token.semi f (refl, tt))
                      (arm l (b == b':') (Token.colon, l) _ (same l Token.colon f (refl, tt))
                        (arm l (b == b'|') (maybe_eq Token.pipe_eq Token.pipe l) _
                          (maybe_eq-Good l Token.pipe_eq Token.pipe f (refl, tt) (refl, tt))
                          (arm l (b == b'&') (maybe_eq Token.amp_eq Token.amp l) _
                            (maybe_eq-Good l Token.amp_eq Token.amp f (refl, tt) (refl, tt))
                            (arm l (b == b'^') (maybe_eq Token.caret_eq Token.caret l) _
                              (maybe_eq-Good l Token.caret_eq Token.caret f (refl, tt) (refl, tt))
                              (arm l (b == b'~') (Token.tilde, l) _
                                (same l Token.tilde f (refl, tt))
                                (arm l (b == b'?') (Token.question, l) _
                                  (same l Token.question f (refl, tt))
                                  (arm l (b == b'@') (Token.at, l) _ (same l Token.at f (refl, tt))
                                    (arm l (b == b'.')
                                      (either Token.dot_question Token.dot (eat b'?' l)) _
                                      (eat-Good b'?' l Token.dot_question Token.dot f (omega arith)
                                        (refl, tt) (refl, tt))
                                      (arm l (b == b'+') (maybe_eq Token.plus_eq Token.plus l) _
                                        (maybe_eq-Good l Token.plus_eq Token.plus f (refl, tt)
                                          (refl, tt))
                                        (arm l (b == b'-') (maybe_eq Token.minus_eq Token.minus l) _
                                          (maybe_eq-Good l Token.minus_eq Token.minus f (refl, tt)
                                            (refl, tt))
                                          (arm l (b == b'*') (maybe_eq Token.star_eq Token.star l) _
                                            (maybe_eq-Good l Token.star_eq Token.star f (refl, tt)
                                              (refl, tt))
                                            (arm l (b == b'/')
                                              (maybe_eq Token.slash_eq Token.slash l) _
                                              (maybe_eq-Good l Token.slash_eq Token.slash f
                                                (refl, tt) (refl, tt))
                                              (arm l (b == b'%')
                                                (maybe_eq Token.percent_eq Token.percent l) _
                                                (maybe_eq-Good l Token.percent_eq Token.percent f
                                                  (refl, tt) (refl, tt))
                                                (arm l (b == b'=') (maybe_eq Token.eq_eq Token.eq l)
                                                  _
                                                  (maybe_eq-Good l Token.eq_eq Token.eq f (refl, tt)
                                                    (refl, tt))
                                                  (arm l (b == b'!')
                                                    (maybe_eq Token.bang_eq Token.bang l) _
                                                    (maybe_eq-Good l Token.bang_eq Token.bang f
                                                      (refl, tt) (refl, tt))
                                                    (arm l (b == b'<')
                                                      (shift_or Token.shl_eq Token.shl Token.lt_eq
                                                        Token.lt b'<' l)
                                                      _
                                                      (shift_or-Good b'<' l Token.shl_eq Token.shl
                                                        Token.lt_eq Token.lt f (omega arith)
                                                        (refl, tt) (refl, tt) (refl, tt) (refl, tt))
                                                      (arm l (b == b'>')
                                                        (shift_or Token.shr_eq Token.shr Token.gt_eq
                                                          Token.gt b'>' l)
                                                        _
                                                        (shift_or-Good b'>' l Token.shr_eq Token.shr
                                                          Token.gt_eq Token.gt f (omega arith)
                                                          (refl, tt) (refl, tt) (refl, tt)
                                                          (refl, tt))
                                                        (nothing)))))))))))))))))))))))))
