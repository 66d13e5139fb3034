-- ===== src/Syntax/Lexer/Place.antt =====
-- Where the lexer of crates/wsharp-syntax/src/lexer.rs stands in its source.
use wsharp.Prelude.{
  ℕ, zero, suc, ◌+◌, ◌-◌, ◌^◌, ◌≤◌, ◌<◌, ◌≡◌, refl, ◌∙◌, ap, Bool, true, false, not, ◌&&◌, List, [],
  ◌∷◌, ◌++◌, arith, length, take, drop, drop-drop, length-drop,
}
use wsharp.Prelude.Run.{ok}
use wsharp.Syntax.Token.{Span, span_new}
use wsharp.Syntax.Lexer.State.{
  Problem, Diagnostic, Lexer, advance, is_continuation, len_utf8, bump, slice, report, at_boundary,
}

-- The shape of UTF-8, with so many bytes of a character still to come.
abbrev pub is_text_from : ℕ → List ℕ → Bool
is_text_from zero [] = true
is_text_from (suc k) [] = false
is_text_from zero (b ∷ bs) = not (is_continuation b) && is_text_from (len_utf8 b - 1) bs
is_text_from (suc k) (b ∷ bs) = is_continuation b && is_text_from k bs

abbrev pub is_text : List ℕ → Bool
is_text = is_text_from 0

-- A span that holds a byte at least and ends in the first `n`.
-- A span that is not empty and lies between two positions.
abbrev pub Within : ℕ → ℕ → Span → Type 0
Within low high s = (low ≤ s.start) × (s.start < s.end) × (s.end ≤ high)

abbrev pub AllWithin : ℕ → ℕ → List Diagnostic → Type 0
AllWithin low high [] = Unit
AllWithin low high (d ∷ ds) = Within low high d.span × AllWithin low high ds

AllWithin-push :
    (n : ℕ) (ds : List Diagnostic) (d : Diagnostic)
    → AllWithin 0 n ds
    → Within 0 n d.span
    → AllWithin 0 n (ds ++ d ∷ [])
AllWithin-push n [] d all h = (h, tt)
AllWithin-push n (e ∷ ds) d (here, all) h = (here, AllWithin-push n ds d all h)

pub record Fits (src : List ℕ) (k : ℕ) (l : Lexer) : Type 0 where
  pub place : drop l.pos src ≡ l.rest
  pub size : l.pos + length l.rest ≡ length src
  pub shape : is_text_from k l.rest ≡ true
  pub reported : AllWithin 0 (length src) l.diags

pub Fits-advance :
    (src : List ℕ) (k k' n : ℕ) (l : Lexer)
    → Fits src k l
    → n ≤ length l.rest
    → is_text_from k' (drop n l.rest) ≡ true
    → Fits src k' (advance n l)
Fits-advance src k k' n l f h shape = record {
  place = drop-drop l.pos n src ∙ ap (drop n) f.place;
  size = omega (arith, f.size, length-drop n l.rest h);
  shape = shape;
  reported = f.reported;
}

-- One byte on.
pub Fits-byte :
    (src : List ℕ) (k k' : ℕ) (l : Lexer) (b : ℕ) (bs : List ℕ)
    → Fits src k l
    → l.rest ≡ b ∷ bs
    → is_text_from k' bs ≡ true
    → Fits src k' (record l { pos = l.pos + 1; rest = bs })
Fits-byte src k k' l b bs f e shape = record {
  place = drop-drop l.pos 1 src ∙ ap (drop 1) (f.place ∙ e);
  size = (let size = rw e at f.size in omega (arith, size));
  shape = shape;
  reported = f.reported;
}

-- The one character, whole.
drop-shape :
    (k : ℕ) (xs : List ℕ)
    → is_text_from k xs ≡ true
    → (k ≤ length xs) × (is_text (drop k xs) ≡ true)
drop-shape zero xs e = (omega arith, e)
drop-shape (suc k) [] e = absurd (cc)
drop-shape (suc k) (b ∷ bs) e =
    let (n, later) = drop-shape k bs (ground arith) in (omega (arith, n), later)

module _ (src : List ℕ) (l : Lexer) (b : ℕ) (bs : List ℕ) (f : Fits src 0 l)
    (e : l.rest ≡ b ∷ bs) where
  shape_here : (is_continuation b ≡ false) × (is_text_from (len_utf8 b - 1) bs ≡ true)
  shape_here = let s : is_text (b ∷ bs) ≡ true = rw e at f.shape in ground arith

  pub Fits-ascii : b < 0x80 → Fits src 0 (advance 1 l)
  Fits-ascii h =
      Fits-advance src 0 0 1 l f (rw e (omega arith)) (rw e (let s = shape_here in ground arith))

  -- A `bump` is over a whole character.
  pub bump_total :
      (bump l ≡ ok (advance (len_utf8 b) l))
      × (Fits src 0 (advance (len_utf8 b) l))
      × (1 ≤ len_utf8 b)
  unfolding bump
  bump_total =
      let (lead, later) = shape_here in
      let (n, rest) = drop-shape (len_utf8 b - 1) bs later in
      let positive : 1 ≤ len_utf8 b = ground arith in
      let back : len_utf8 b ≡ suc (len_utf8 b - 1) = omega (arith, positive) in
      (
        rw (e, lead) refl,
        Fits-advance src 0 0 (len_utf8 b) l f (rw e (omega (arith, n, positive)))
            (rw (e, back) rest),
        positive,
      )

-- A position that fits is a boundary of characters.
text-at_boundary : (xs : List ℕ) → is_text xs ≡ true → at_boundary xs ≡ true
text-at_boundary [] e = refl
text-at_boundary (b ∷ bs) e = ground arith

pub Fits-at_boundary : (src : List ℕ) (l : Lexer) → Fits src 0 l → at_boundary l.rest ≡ true
Fits-at_boundary src l f = text-at_boundary l.rest f.shape

pub slice_total :
    (src : List ℕ) (from l : Lexer)
    → Fits src 0 from
    → Fits src 0 l
    → slice from l ≡ ok (take (l.pos - from.pos) from.rest)
unfolding slice
slice_total src from l f g = rw (Fits-at_boundary src from f, Fits-at_boundary src l g) refl

pub span_new_small :
    (a b : ℕ) → a < 2 ^ 32 → b < 2 ^ 32 → span_new a b ≡ record { start = a; end = b }
span_new_small a b h k = ground arith

pub Fits-report :
    (src : List ℕ) (k a b : ℕ) (p : Problem) (l : Lexer)
    → length src < 2 ^ 32
    → Fits src k l
    → a < b
    → b ≤ length src
    → Fits src k (report (span_new a b) p l)
Fits-report src k a b p l small f h n = record {
  place = f.place;
  size = f.size;
  shape = f.shape;
  reported = AllWithin-push (length src) l.diags _ f.reported (ground arith);
}
