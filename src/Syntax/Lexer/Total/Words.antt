-- ===== src/Syntax/Lexer/Total/Words.antt =====
-- For `ident` and `string` of crates/wsharp-syntax/src/lexer.rs.
use wsharp.Prelude.{
  ℕ, ◌+◌, ◌-◌, ◌^◌, ◌≤◌, ◌<◌, ◌≡◌, refl, true, inl, inr, List, [], ◌∷◌, arith, length, take,
  Bool-cases,
}
use wsharp.Syntax.Lexer.State.{Lexer, is_word, is_word_start}
use wsharp.Syntax.Lexer.Text.{word_loop, ident_token}
use wsharp.Syntax.Lexer.Place.{Fits, Fits-byte, is_text_from, slice_total}
use wsharp.Syntax.Lexer.Total.Kinds.{Reads, spanned, word-IsPlain}

module _ (src : List ℕ) (small : length src < 2 ^ 32) where
  word_loop-Fits :
      (bs : List ℕ) (l : Lexer)
      → l.rest ≡ bs
      → Fits src 0 l
      → Fits src 0 (word_loop l bs) × (l.pos ≤ (word_loop l bs).pos)
  unfolding word_loop
  word_loop-Fits [] l e f = (f, omega arith)
  word_loop-Fits (b ∷ bs) l e f = elim (Bool-cases (is_word b)) [
    | inl go ↦
        let s : is_text_from 0 (b ∷ bs) ≡ true = rw e at f.shape in
        let (g, n) = word_loop-Fits bs _ refl (Fits-byte src 0 0 l b bs f e (ground arith)) in
        rw go (g, omega (arith, n))
    | inr stop ↦ rw stop (f, omega arith)
  ]

  pub ident_token_total :
      (F : Type 0) (l : Lexer) (b : ℕ) (bs : List ℕ)
      → Fits src 0 l
      → l.rest ≡ b ∷ bs
      → is_word_start b ≡ true
      → Reads {F = F} src l (ident_token l)
  unfolding ident_token word_loop
  ident_token_total F l b bs f e start =
      let s : is_text_from 0 (b ∷ bs) ≡ true = rw e at f.shape in
      let go : is_word b ≡ true = ground arith in
      let (g, n) = word_loop-Fits bs _ refl (Fits-byte src 0 0 l b bs f e (ground arith)) in
      let m = word_loop (record l { pos = l.pos + 1; rest = bs }) bs in
      let here : word_loop l l.rest ≡ m = rw (e, go) refl in
      spanned src l m _ _ small (rw (here, slice_total src l m f g) refl) g
        (word-IsPlain F (take (m.pos - l.pos) l.rest)) (omega (arith, n))
