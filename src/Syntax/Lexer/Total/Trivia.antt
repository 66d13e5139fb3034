-- ===== src/Syntax/Lexer/Total/Trivia.antt =====
-- For `skip_trivia` of crates/wsharp-syntax/src/lexer.rs.
use wsharp.Prelude.{
  ℕ, zero, suc, ◌-◌, ◌≤◌, ◌<◌, ◌≡◌, refl, true, false, ◌&&◌, inl, inr, List, [], ◌∷◌, arith, ◌==◌,
  length, Bool-cases,
}
use wsharp.Prelude.Run.{Run, ok}
use wsharp.Syntax.Lexer.{skip_comment, skip_round, skip_loop, skip_trivia}
use wsharp.Syntax.Lexer.State.{Lexer, advance, head, is_byte, is_space, is_continuation, len_utf8}
use wsharp.Syntax.Lexer.Place.{Fits, Fits-byte, Fits-ascii, is_text_from}

module _ (src : List ℕ) where
  -- A run that returns, at or after a position.
  abbrev pub Reaches : ℕ → Run Lexer → Type 0
  Reaches from run = (l : Lexer) × (run ≡ ok l) × Fits src 0 l × (from ≤ l.pos)

  abbrev CommentEnd : Lexer → Lexer → Type 0
  CommentEnd from l = Fits src 0 l × (from.pos ≤ l.pos)

  skip_comment-Fits :
      (k : ℕ) (bs : List ℕ) (l : Lexer)
      → l.rest ≡ bs
      → Fits src k l
      → CommentEnd l (skip_comment l bs)
  unfolding skip_comment
  skip_comment-Fits zero [] l e f = (f, omega arith)
  skip_comment-Fits (suc k) [] l e f = absurd (let s = rw e at f.shape in cc)
  skip_comment-Fits zero (b ∷ bs) l e f = elim (Bool-cases (b == b'\n')) [
    | inl stop ↦ rw stop (f, omega arith)
    | inr go ↦
        let s : is_text_from 0 (b ∷ bs) ≡ true = rw e at f.shape in
        let next = Fits-byte src 0 (len_utf8 b - 1) l b bs f e (ground arith) in
        let (g, n) = skip_comment-Fits (len_utf8 b - 1) bs _ refl next in
        rw go (g, omega (arith, n))
  ]
  skip_comment-Fits (suc k) (b ∷ bs) l e f =
      let s : is_text_from (suc k) (b ∷ bs) ≡ true = rw e at f.shape in
      let (inside, later) : (is_continuation b ≡ true) × (is_text_from k bs ≡ true) =
        ground arith in
      let go : (b == b'\n') ≡ false = ground arith in
      let (g, n) = skip_comment-Fits k bs _ refl (Fits-byte src (suc k) k l b bs f e later) in
      rw go (g, omega (arith, n))

  skip_round_total :
      (rec : Lexer → Run Lexer) (l : Lexer) (bs : List ℕ)
      → l.rest ≡ bs
      → ((m : Lexer) → l.pos < m.pos → Fits src 0 m → Reaches m.pos (rec m))
      → Fits src 0 l
      → Reaches l.pos (skip_round rec l bs)
  unfolding skip_comment
  skip_round_total rec l [] e go fit = (l, refl, fit, omega arith)
  skip_round_total rec l (b ∷ bs) e go fit = elim (Bool-cases (is_space b)) [
    | inl space ↦
        let (m, r, g, n) =
          go (advance 1 l) (omega arith) (Fits-ascii src l b bs fit e (ground arith)) in
        rw space (m, r, g, omega (arith, n))
    | inr other ↦ elim (Bool-cases (b == b'/' && is_byte b'/' (head bs))) [
      | inl slashes ↦
          let s : is_text_from 0 (b ∷ bs) ≡ true = rw e at fit.shape in
          let first : (b == b'\n') ≡ false = ground arith in
          let byte = Fits-byte src 0 (len_utf8 b - 1) l b bs fit e (ground arith) in
          let (c, n) = skip_comment-Fits (len_utf8 b - 1) bs _ refl byte in
          let (m, r, g, n') = go _ (omega (arith, n)) c in
          rw (other, slashes, e, first) (m, r, g, omega (arith, n, n'))
      | inr neither ↦ rw (other, neither) (l, refl, fit, omega arith)
    ]
  ]

  skip_loop_total :
      (f : ℕ) (l : Lexer) → length l.rest < f → Fits src 0 l → Reaches l.pos (skip_loop f l)
  unfolding skip_loop
  skip_loop_total zero l h fit = absurd (omega arith)
  skip_loop_total (suc f) l h fit =
      skip_round_total (skip_loop f) l l.rest refl
        (λ m n g. skip_loop_total f m (omega (arith, fit.size, g.size)) g) fit

  pub skip_trivia_total : (l : Lexer) → Fits src 0 l → Reaches l.pos (skip_trivia l)
  unfolding skip_trivia
  skip_trivia_total l fit = skip_loop_total (suc (length l.rest)) l (omega arith) fit
