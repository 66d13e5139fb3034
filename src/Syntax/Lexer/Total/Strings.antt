-- ===== src/Syntax/Lexer/Total/Strings.antt =====
-- For `string` of crates/wsharp-syntax/src/lexer.rs.
use wsharp.Prelude.{
  ℕ, zero, suc, ◌+◌, ◌^◌, ◌≤◌, ◌<◌, ◌≡◌, refl, true, inl, inr, some, List, [], ◌∷◌, arith, ◌==◌,
  length, Bool-cases, Option-cases,
}
use wsharp.Prelude.Run.{Run, ok}
use wsharp.Syntax.Token.{str}
use wsharp.Syntax.Lexer.State.{
  Lexer, unterminated, unterminated_line, unknown_escape, advance, bump, len_utf8,
}
use wsharp.Syntax.Lexer.Text.{escape_at, Loop, after_backslash, string_round, string_loop, string}
use wsharp.Syntax.Lexer.Place.{Fits, Fits-ascii, Fits-report, bump_total, slice_total}
use wsharp.Syntax.Lexer.Total.Kinds.{Reads, spanned}

module _ (src : List ℕ) where
  -- A run that returns a value and a state, at or after a position.
  abbrev Reaches : ℕ → Run (List ℕ × Lexer) → Type 0
  Reaches from run = (v : List ℕ) × (l : Lexer) × (run ≡ ok (v, l)) × Fits src 0 l × (from ≤ l.pos)

  abbrev Loops : ℕ → Loop → Type 0
  Loops from rec = (v : List ℕ) (m : Lexer) → from < m.pos → Fits src 0 m → Reaches m.pos (rec v m)

  Reaches-before : (a b : ℕ) (run : Run (List ℕ × Lexer)) → a ≤ b → Reaches b run → Reaches a run
  Reaches-before a b run h (v, l, e, f, n) = (v, l, e, f, omega (arith, h, n))

  module _ (small : length src < 2 ^ 32) where
    -- `bump`, at the end of the source too.
    bump_reaches :
        (l : Lexer) (bs : List ℕ)
        → l.rest ≡ bs
        → Fits src 0 l
        → (m : Lexer) × (bump l ≡ ok m) × Fits src 0 m × (l.pos ≤ m.pos)
    unfolding bump
    bump_reaches l [] e f = (l, rw e refl, f, omega arith)
    bump_reaches l (b ∷ bs) e f =
        let (r, g, n) = bump_total src l b bs f e in
        (advance (len_utf8 b) l, r, g, omega (arith, n))

    escape_ascii :
        (bs : List ℕ) (c : ℕ)
        → escape_at bs ≡ some c
        → (b : ℕ) × (cs : List ℕ) × (bs ≡ b ∷ cs) × (b < 0x80)
    escape_ascii [] c e = absurd (cc)
    escape_ascii (b ∷ cs) c e = (b, cs, refl, ground arith)

    after_backslash_total :
        (rec : Loop) (value : List ℕ) (from l : Lexer) (bs : List ℕ)
        → l.rest ≡ bs
        → from.pos < l.pos
        → Loops from.pos rec
        → Fits src 0 l
        → Reaches from.pos (after_backslash rec value from l (escape_at bs))
    after_backslash_total rec value from l bs e n go f = elim (Option-cases (escape_at bs)) [
      | inl unknown ↦
          let (m, r, g, n') = bump_reaches l bs e f in
          let told =
            Fits-report src 0 from.pos m.pos unknown_escape m small g (omega (arith, n, n'))
              (omega (arith, g.size)) in
          rw (unknown, r)
            (Reaches-before from.pos m.pos _ (omega (arith, n, n'))
              (go _ _ (omega (arith, n, n')) told))
      | inr (c, known) ↦
          let (b, cs, same, small_byte) = escape_ascii bs c known in
          let next = Fits-ascii src l b cs f (rw same at e) small_byte in
          rw known (
            Reaches-before from.pos (l.pos + 1) _ (omega (arith, n))
              (go _ _ (omega (arith, n)) next))
    ]

    string_round_total :
        (rec : Loop) (start : ℕ) (value : List ℕ) (l : Lexer) (bs : List ℕ)
        → l.rest ≡ bs
        → start < l.pos
        → Loops l.pos rec
        → Fits src 0 l
        → Reaches l.pos (string_round rec start value l bs)
    string_round_total rec start value l [] e n go f = (
      value,
      _,
      refl,
      Fits-report src 0 start l.pos unterminated l small f n (omega (arith, f.size)),
      omega arith,
    )
    string_round_total rec start value l (b ∷ bs) e n go f = elim (Bool-cases (b == b'"')) [
      | inl quote ↦
          let g = Fits-ascii src l b bs f e (ground arith) in
          rw quote (value, advance 1 l, refl, g, omega arith)
      | inr more ↦ elim (Bool-cases (b == b'\n')) [
        | inl line ↦
            let g =
              Fits-report src 0 start l.pos unterminated_line l small f n (omega (arith, f.size)) in
            rw (more, line) (value, _, refl, g, omega arith)
        | inr other ↦ elim (Bool-cases (b == b'\\')) [
          | inl slash ↦
              let g = Fits-ascii src l b bs f e (ground arith) in
              rw (more, other, slash)
                (after_backslash_total rec value l (advance 1 l) bs (rw e refl) (omega arith) go g)
          | inr plain ↦
              let (r, g, k) = bump_total src l b bs f e in
              let m = advance (len_utf8 b) l in
              rw (more, other, plain, r, slice_total src l m f g)
                (Reaches-before l.pos m.pos _ (omega arith) (go _ m (omega (arith, k)) g))
        ]
      ]
    ]

    string_loop_total :
        (f start : ℕ) (value : List ℕ) (l : Lexer)
        → length l.rest < f
        → start < l.pos
        → Fits src 0 l
        → Reaches l.pos (string_loop f start value l)
    unfolding string_loop
    string_loop_total zero start value l h n fit = absurd (omega arith)
    string_loop_total (suc f) start value l h n fit =
        string_round_total (string_loop f start) start value l l.rest refl n
          (λ v m k g.
            string_loop_total f start v m (omega (arith, fit.size, g.size)) (omega (arith, n, k)) g)
          fit

    pub string_total :
        (F : Type 0) (l : Lexer) (b : ℕ) (bs : List ℕ)
        → Fits src 0 l
        → l.rest ≡ b ∷ bs
        → (b == b'"') ≡ true
        → Reads {F = F} src l (string l)
    unfolding string
    string_total F l b bs f e quote =
        let g = Fits-ascii src l b bs f e (ground arith) in
        let (v, m, r, h, n) =
          string_loop_total (suc (length (advance 1 l).rest)) l.pos [] (advance 1 l) (omega arith)
            (omega arith) g in
        spanned src l m (str v) (string l) small (rw r refl) h (refl, tt) (omega (arith, n))
