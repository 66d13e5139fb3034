-- ===== src/Syntax/Lexer/Total/Numbers.antt =====
-- For `number` of crates/wsharp-syntax/src/lexer.rs.
use wsharp.Prelude.{
  ℕ, ◌+◌, ◌-◌, ◌^◌, ◌≤◌, ◌<◌, ◌≡◌, ◌⊎◌, ◌∙◌, ap, refl, Bool, true, false, ◌||◌, inl, inr, Option,
  none, some, List, [], ◌∷◌, arith, ◌==◌, ltb, leb, length, take, drop, Bool-cases, Option-cases,
}
use wsharp.Syntax.Token.{TokenKind, span_new}
use wsharp.Syntax.Lexer.State.{
  Lexer, bad_digit, no_digits, invalid_float, out_of_range, advance, is_digit,
}
use wsharp.Syntax.Lexer.Number.{
  radix_of, digit_value, Scanned, get_or_insert, digit_step, digit_loop, without_underscores,
  value_from, literal, number_kind, number_token, number,
}
use wsharp.Syntax.Lexer.Place.{
  Fits, Fits-advance, Fits-byte, Fits-report, is_text_from, slice_total,
}
use wsharp.Syntax.Lexer.Total.Kinds.{IsPlain, Reads, spanned}

abbrev BadBefore : ℕ → Option (ℕ × ℕ) → Type 0
BadBefore n none = Unit
BadBefore n (some (at, b)) = at < n

insert-BadBefore :
    (n b : ℕ) (o : Option (ℕ × ℕ)) → BadBefore n o → BadBefore (n + 1) (get_or_insert (n, b) o)
insert-BadBefore n b none h = omega arith
insert-BadBefore n b (some (at, c)) h = omega (arith, h)

later-BadBefore : (n : ℕ) (o : Option (ℕ × ℕ)) → BadBefore n o → BadBefore (n + 1) o
later-BadBefore n none h = tt
later-BadBefore n (some (at, c)) h = omega (arith, h)

digit_step_lem :
    (radix : ℕ) (s t : Scanned) (pos b : ℕ) (bs : List ℕ)
    → radix ≤ 16
    → digit_step radix s pos b bs ≡ some t
    → (b < 0x80) × (BadBefore pos s.bad → BadBefore (pos + 1) t.bad)
unfolding digit_step
digit_step_lem radix s t pos b bs small e = (
  ground arith,
  λ h.
      let kept = later-BadBefore pos s.bad h in
      let told = insert-BadBefore pos b s.bad h in ground arith,
)

digit_loop-Fits :
    (src : List ℕ) (radix : ℕ) (bs : List ℕ) (l : Lexer) (s : Scanned)
    → radix ≤ 16
    → l.rest ≡ bs
    → Fits src 0 l
    → BadBefore l.pos s.bad
    → let (m, t) = digit_loop radix l bs s in Fits src 0 m × (l.pos ≤ m.pos) × BadBefore m.pos t.bad
unfolding digit_loop
digit_loop-Fits src radix [] l s small e f h = (f, omega arith, h)
digit_loop-Fits src radix (b ∷ bs) l s small e f h =
    elim (Option-cases (digit_step radix s l.pos b bs)) [
      | inl stop ↦ rw stop (f, omega arith, h)
      | inr (t, go) ↦
          let (ascii, kept) = digit_step_lem radix s t l.pos b bs small go in
          let shape : is_text_from 0 (b ∷ bs) ≡ true = rw e at f.shape in
          let next = Fits-byte src 0 0 l b bs f e (ground arith) in
          let (g, n, k) = digit_loop-Fits src radix bs _ t small refl next (kept h) in
          rw go (g, omega (arith, n), k)
    ]

-- A prefix is two bytes of ASCII.
radix_of-cases :
    (b : ℕ) (bs : List ℕ)
    → (radix_of (b ∷ bs) ≡ (10, 0))
      ⊎ ((r c : ℕ) × (cs : List ℕ) × (radix_of (b ∷ bs) ≡ (r, 2))
          × (r ≤ 16)
          × (bs ≡ c ∷ cs)
          × (b < 0x80)
          × (c < 0x80))
radix_of-cases b [] = inl (ground arith)
radix_of-cases b (c ∷ cs) = elim (Bool-cases (b == b'0')) [
  | inr other ↦ inl (rw other refl)
  | inl is_zero ↦ elim (Bool-cases (c == b'x' || c == b'X')) [
    | inl hex ↦
        inr (16, c, cs, rw (is_zero, hex) refl, omega arith, refl, ground arith, ground arith)
    | inr not_hex ↦ elim (Bool-cases (c == b'b' || c == b'B')) [
      | inl bin ↦
          inr (
            2,
            c,
            cs,
            rw (is_zero, not_hex, bin) refl,
            omega arith,
            refl,
            ground arith,
            ground arith,
          )
      | inr not_bin ↦ elim (Bool-cases (c == b'o' || c == b'O')) [
        | inl oct ↦ inr (
          8,
          c,
          cs,
          rw (is_zero, not_hex, not_bin, oct) refl,
          omega arith,
          refl,
          ground arith,
          ground arith,
        )
        | inr no_prefix ↦ inl (rw (is_zero, not_hex, not_bin, no_prefix) refl)
      ]
    ]
  ]
]

-- A digit is read in radix 10.
digit_loop_moves :
    (b : ℕ) (bs : List ℕ) (l : Lexer) (s : Scanned)
    → is_digit b ≡ true
    → digit_loop 10 l (b ∷ bs) s ≡ digit_loop 10 (record l { pos = l.pos + 1; rest = bs }) bs s
unfolding digit_loop digit_step
digit_loop_moves b bs l s d =
    let one : (b == b'_') ≡ false = ground arith in
    let two : (b == b'.') ≡ false = ground arith in
    let three : ltb (digit_value b) 10 ≡ true = ground arith in rw (one, two, three) refl

abbrev unread : Scanned
unread = record { is_float = false; bad = none }

module _ (F : Type 0) (parse_f64 : List ℕ → Option F) (float_zero : F) (src : List ℕ)
    (small : length src < 2 ^ 32) where
  -- A kind and the state with at most a diagnostic more.
  abbrev Reports : Lexer → TokenKind F × Lexer → Type 0
  Reports l (k, m) = Fits src 0 m × (m.pos ≡ l.pos) × IsPlain k

  literal_lem :
      (radix start : ℕ) (l : Lexer) (is_float : Bool) (text : List ℕ)
      → Fits src 0 l
      → start < l.pos
      → Reports l (literal parse_f64 float_zero radix (span_new start l.pos) l is_float text)
  literal_lem radix start l is_float [] f h = (
    Fits-report src 0 start l.pos no_digits l small f h (omega (arith, f.size)),
    refl,
    (refl, omega arith),
  )
  literal_lem radix start l true (b ∷ bs) f h = elim (Option-cases (parse_f64 (b ∷ bs))) [
    | inl bad ↦
        let g = Fits-report src 0 start l.pos invalid_float l small f h (omega (arith, f.size)) in
        rw bad (g, refl, (refl, tt))
    | inr (v, good) ↦ rw good (f, refl, (refl, tt))
  ]
  literal_lem radix start l false (b ∷ bs) f h =
      elim (Bool-cases (leb (value_from radix 0 (b ∷ bs)) (2 ^ 64 - 1))) [
        | inl fits ↦ rw fits (f, refl, (refl, ground arith))
        | inr out ↦
            let g =
              Fits-report src 0 start l.pos out_of_range l small f h (omega (arith, f.size)) in
            rw out (g, refl, (refl, omega arith))
      ]

  number_kind_lem :
      (radix start : ℕ) (l : Lexer) (s : Scanned) (bad : Option (ℕ × ℕ)) (text : List ℕ)
      → Fits src 0 l
      → start < l.pos
      → BadBefore l.pos bad
      → Reports l (number_kind parse_f64 float_zero radix (span_new start l.pos) l s bad text)
  number_kind_lem radix start l s none text f h k =
      literal_lem radix start l s.is_float (without_underscores text) f h
  number_kind_lem radix start l s (some (at, b)) text f h k = (
    Fits-report src 0 at (at + 1) (bad_digit b radix) l small f (omega arith)
        (omega (arith, f.size, k)),
    refl,
    (refl, omega arith),
  )

  number_token_total :
      (radix : ℕ) (from digits_from l : Lexer) (s : Scanned)
      → Fits src 0 digits_from
      → Fits src 0 l
      → from.pos < l.pos
      → BadBefore l.pos s.bad
      → Reads src from (number_token parse_f64 float_zero radix from digits_from (l, s))
  number_token_total radix from digits_from l s fd f h k =
      let text = take (l.pos - digits_from.pos) digits_from.rest in
      let result =
        number_kind parse_f64 float_zero radix (span_new from.pos l.pos) l s s.bad text in
      let (g, same, p) = number_kind_lem radix from.pos l s s.bad text f h k in
      spanned src from result.1 result.0 _ small
        (rw (slice_total src digits_from l fd f, same) refl) g p (omega (arith, same, h))

  number_from :
      (l : Lexer) (radix prefix : ℕ)
      → radix_of l.rest ≡ (radix, prefix)
      → number parse_f64 float_zero l
        ≡ number_token parse_f64 float_zero radix l
            (advance prefix l)
            (digit_loop radix (advance prefix l) (drop prefix l.rest) unread)
  unfolding number
  number_from l radix prefix e = rw e refl

  pub number_total :
      (l : Lexer) (b : ℕ) (bs : List ℕ)
      → Fits src 0 l
      → l.rest ≡ b ∷ bs
      → is_digit b ≡ true
      → Reads src l (number parse_f64 float_zero l)
  number_total l b bs f e d = elim (radix_of-cases b bs) [
    | inl decimal ↦
        let start = advance 0 l in
        let g = Fits-advance src 0 0 0 l f (omega arith) f.shape in
        let here : start.rest ≡ b ∷ bs = e in
        let s : is_text_from 0 (b ∷ bs) ≡ true = rw e at f.shape in
        let next = Fits-byte src 0 0 start b bs g here (ground arith) in
        let (h, n, k) = digit_loop-Fits src 10 bs _ unread (omega arith) refl next tt in
        let loop = digit_loop 10 (record start { pos = start.pos + 1; rest = bs }) bs unread in
        let moved : digit_loop 10 start l.rest unread ≡ loop =
          ap (λ xs. digit_loop 10 start xs unread) e ∙ digit_loop_moves b bs start unread d in
        let r = number_token_total 10 l start loop.0 loop.1 g h (omega (arith, n)) k in
        rw (number_from l 10 0 (rw e decimal), moved) r
    | inr (r, c, cs, prefix, small_radix, same, one, two) ↦
        let start = advance 2 l in
        let s : is_text_from 0 (b ∷ c ∷ cs) ≡ true = rw (e, same) at f.shape in
        let g =
          Fits-advance src 0 0 2 l f (rw (e, same) (omega arith)) (rw (e, same) (ground arith)) in
        let (h, n, k) = digit_loop-Fits src r start.rest start unread small_radix refl g tt in
        let loop = digit_loop r start start.rest unread in
        let t = number_token_total r l start loop.0 loop.1 g h (omega (arith, n)) k in
        rw (number_from l r 2 (rw e prefix)) t
  ]
