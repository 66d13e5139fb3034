-- ===== src/Runtime/Transfer/Bytes.antt =====
-- Words of eight bytes in a list of bytes, the lowest first.
use wsharp.Prelude.{
  ℕ, zero, suc, ◌+◌, ◌*◌, ◌/◌, ◌%◌, ◌^◌, ◌≤◌, ◌<◌, ◌≡◌, ◌≢◌, ◌⊎◌, inl, inr, refl, sym, ◌∙◌, Option,
  none, some, List, arith, length, get_elem?, set, length-set, get_elem?-set_self, get_elem?-set_ne,
}

abbrev pub byte : Option ℕ → ℕ
byte none = 0
byte (some b) = b

-- `from_le_bytes` of `n` bytes.
unfoldable pub word_at : List ℕ → ℕ → ℕ → ℕ
word_at bs at zero = 0
word_at bs at (suc n) = byte (get_elem? bs at) + 2 ^ 8 * word_at bs (at + 1) n

-- `to_le_bytes`, over `n` bytes.
unfoldable pub put_word : List ℕ → ℕ → ℕ → ℕ → List ℕ
put_word bs at zero v = bs
put_word bs at (suc n) v = put_word (set bs at (v % 2 ^ 8)) (at + 1) n (v / 2 ^ 8)

pub length-put_word : (n at v : ℕ) (bs : List ℕ) → length (put_word bs at n v) ≡ length bs
unfolding put_word
length-put_word zero at v bs = refl
length-put_word (suc n) at v bs =
    length-put_word n (at + 1) (v / 2 ^ 8) (set bs at (v % 2 ^ 8)) ∙ length-set bs at (v % 2 ^ 8)

-- The bytes outside the word stay.
pub get_elem?-put_word :
    (n at v i : ℕ) (bs : List ℕ)
    → (i < at) ⊎ (at + n ≤ i)
    → get_elem? (put_word bs at n v) i ≡ get_elem? bs i
unfolding put_word
get_elem?-put_word zero at v i bs h = refl
get_elem?-put_word (suc n) at v i bs h =
    let apart : at ≢ i = omega (arith, h) in
    get_elem?-put_word n (at + 1) (v / 2 ^ 8) i (set bs at (v % 2 ^ 8)) (later h)
    ∙ get_elem?-set_ne bs (v % 2 ^ 8) apart
  where
    later : (i < at) ⊎ (at + suc n ≤ i) → (i < at + 1) ⊎ (at + 1 + n ≤ i)
    later (inl k) = inl (omega (arith, k))
    later (inr k) = inr (omega (arith, k))

-- A word is its bytes.
pub word_at_ext :
    (n at : ℕ) (xs ys : List ℕ)
    → ((i : ℕ) → at ≤ i → i < at + n → get_elem? xs i ≡ get_elem? ys i)
    → word_at xs at n ≡ word_at ys at n
unfolding word_at
word_at_ext zero at xs ys h = refl
word_at_ext (suc n) at xs ys h =
    let later = word_at_ext n (at + 1) xs ys (λ i a b. h i (omega (arith, a)) (omega (arith, b))) in
    rw (h at (omega arith) (omega arith), later) refl

-- A value of at most `n` bytes.
abbrev IsShort : ℕ → ℕ → Type 0
IsShort zero v = v ≡ 0
IsShort (suc n) v = IsShort n (v / 2 ^ 8)

word_at-put_short :
    (n at v : ℕ) (bs : List ℕ)
    → at + n ≤ length bs
    → IsShort n v
    → word_at (put_word bs at n v) at n ≡ v
unfolding word_at put_word
word_at-put_short zero at v bs h short = sym short
word_at-put_short (suc n) at v bs h short =
    let bs' = set bs at (v % 2 ^ 8) in
    let size : at + 1 + n ≤ length bs' = omega (arith, h, length-set bs at (v % 2 ^ 8)) in
    let later = word_at-put_short n (at + 1) (v / 2 ^ 8) bs' size short in
    let here =
      get_elem?-put_word n (at + 1) (v / 2 ^ 8) at bs' (inl (omega arith))
      ∙ get_elem?-set_self bs at (v % 2 ^ 8) (omega (arith, h)) in
    rw (here, later) (omega arith)

-- What is written is read.
pub word_at-put_word :
    (at v : ℕ) (bs : List ℕ)
    → at + 8 ≤ length bs
    → v < 2 ^ 64
    → word_at (put_word bs at 8 v) at 8 ≡ v
word_at-put_word at v bs h small = word_at-put_short 8 at v bs h (omega (arith, small))
