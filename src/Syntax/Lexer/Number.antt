-- ===== src/Syntax/Lexer/Number.antt =====
-- `number` of crates/wsharp-syntax/src/lexer.rs: the loop over the digits and the value of a literal.
use wsharp.Prelude.{
  ℕ, ◌+◌, ◌-◌, ◌*◌, ◌^◌, Bool, true, false, not, ◌&&◌, ◌||◌, Option, none, some, List, [], ◌∷◌,
  ◌==◌, ltb, leb, if◌then◌else◌,
}
use wsharp.Prelude.Run.{Run, ok, then_run}
use wsharp.Syntax.Token.{TokenKind, Span, span_new, Token, int, float}
use wsharp.Syntax.Lexer.State.{
  Lexer, bad_digit, no_digits, invalid_float, out_of_range, head, is_byte, advance, slice, report,
  is_digit,
}

-- The radix, and the bytes of its prefix.
abbrev pub radix_of : List ℕ → ℕ × ℕ
radix_of [] = (10, 0)
radix_of (b ∷ bs) =
    if not (b == b'0')
    then (10, 0)
    else if is_byte b'x' (head bs) || is_byte b'X' (head bs)
    then (16, 2)
    else if is_byte b'b' (head bs) || is_byte b'B' (head bs)
    then (2, 2)
    else if is_byte b'o' (head bs) || is_byte b'O' (head bs)
    then (8, 2)
    else (10, 0)

-- `to_digit` of an ASCII character: 99 stands for none.
abbrev pub digit_value : ℕ → ℕ
digit_value b =
    if is_digit b
    then b - b'0'
    else if leb b'a' b && leb b b'z'
    then b - b'a' + 10
    else if leb b'A' b && leb b b'Z'
    then b - b'A' + 10
    else 99

abbrev pub is_hex : ℕ → Bool
is_hex b = is_digit b || leb b'a' b && leb b b'f' || leb b'A' b && leb b b'F'

abbrev pub next_is_digit : List ℕ → Bool
next_is_digit [] = false
next_is_digit (b ∷ bs) = is_digit b

-- What the loop knows: whether a point was read, and the position of the first bad digit.
pub record Scanned : Type 0 where
  pub is_float : Bool
  pub bad : Option (ℕ × ℕ)

-- `get_or_insert`, with the byte at the position.
abbrev pub get_or_insert : ℕ × ℕ → Option (ℕ × ℕ) → Option (ℕ × ℕ)
get_or_insert x none = some x
get_or_insert x (some y) = some y

-- One round at byte `b`: `none` is the `break`.
unfoldable pub digit_step : ℕ → Scanned → ℕ → ℕ → List ℕ → Option Scanned
digit_step radix s pos b bs =
    if b == b'_'
    then some s
    else if b == b'.' && radix == 10 && not s.is_float
    then if next_is_digit bs then some (record s { is_float = true }) else none
    else if ltb (digit_value b) radix
    then some s
    else if is_hex b && not (radix == 10)
    then some (record s { bad = get_or_insert (pos, b) s.bad })
    else none

abbrev pub go_on : Lexer × Scanned → (Scanned → Lexer × Scanned) → Option Scanned → Lexer × Scanned
go_on stop more none = stop
go_on stop more (some s) = more s

-- The `while let`, over the bytes that are left.
unfoldable pub digit_loop : ℕ → Lexer → List ℕ → Scanned → Lexer × Scanned
unfolding digit_step
digit_loop radix l [] s = (l, s)
digit_loop radix l (b ∷ bs) s =
    go_on (l, s) (digit_loop radix (record l { pos = l.pos + 1; rest = bs }) bs)
      (digit_step radix s l.pos b bs)

-- `filter(|&c| c != '_')`.
abbrev pub without_underscores : List ℕ → List ℕ
without_underscores [] = []
without_underscores (b ∷ bs) =
    let rest = without_underscores bs in if b == b'_' then rest else b ∷ rest

abbrev pub value_from : ℕ → ℕ → List ℕ → ℕ
value_from radix v [] = v
value_from radix v (b ∷ bs) = value_from radix (v * radix + digit_value b) bs

module _ {F : Type 0} (parse_f64 : List ℕ → Option F) (float_zero : F) where
  abbrev pub float_kind : Span → Lexer → Option F → TokenKind F × Lexer
  float_kind span l (some v) = (float v, l)
  float_kind span l none = (float float_zero, report span invalid_float l)

  -- The kind of a literal from its digits. A value past the range of `i128` is past that of `u64`.
  abbrev pub literal : ℕ → Span → Lexer → Bool → List ℕ → TokenKind F × Lexer
  literal radix span l is_float [] = (int 0, report span no_digits l)
  literal radix span l is_float (b ∷ bs) =
      if is_float
      then float_kind span l (parse_f64 (b ∷ bs))
      else if leb (value_from radix 0 (b ∷ bs)) (2 ^ 64 - 1)
      then (int (value_from radix 0 (b ∷ bs)), l)
      else (int 0, report span out_of_range l)

  abbrev pub number_kind :
      ℕ → Span → Lexer → Scanned → Option (ℕ × ℕ) → List ℕ → TokenKind F × Lexer
  number_kind radix span l s (some (at, b)) text =
      (int 0, report (span_new at (at + 1)) (bad_digit b radix) l)
  number_kind radix span l s none text = literal radix span l s.is_float (without_underscores text)

  abbrev pub number_token : ℕ → Lexer → Lexer → Lexer × Scanned → Run (Token F × Lexer)
  number_token radix from digits_from (l, s) = then_run (slice digits_from l) (λ text.
      let span = span_new from.pos l.pos in
      let (kind, l') = number_kind radix span l s s.bad text in
      ok (record { kind = kind; span = span }, l'))

  unfoldable pub number : Lexer → Run (Token F × Lexer)
  unfolding digit_loop slice
  number from =
      let (radix, prefix) = radix_of from.rest in
      let digits_from = advance prefix from in
      number_token radix from digits_from
        (digit_loop radix digits_from digits_from.rest (record { is_float = false; bad = none }))
