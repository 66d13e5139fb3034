-- ===== src/Runtime/Header.antt =====
-- The heap object header, crates/wsharp-runtime/src/header.rs. A meta word is a number below 2^64:
-- `x & MASK` of a field is `x / 2 ^ shift % 2 ^ bits`, and writing a field takes the old value of the
-- field out and puts the new one in. A flag is given by the number of its bit. Each function is its
-- effect on the word: the loop of a compare-exchange ends with the write of the value computed from
-- the word that it replaced.
pub mod Fields
pub mod Counts
pub mod Marks
mod Tests
use wsharp.Prelude.{
  ℕ, ◌+◌, ◌-◌, ◌*◌, ◌/◌, ◌%◌, ◌^◌, min, Bool, true, false, ◌==◌, leb, if◌then◌else◌,
}

abbrev pub header_size : ℕ
header_size = 16

abbrev pub align : ℕ
align = 16

abbrev pub rc_max : ℕ
rc_max = 2 ^ 23 - 1

abbrev pub forwarded : ℕ
forwarded = 2 ^ 63

-- `(flags << 32) & FLAG_MASK` keeps the low eight bits of the flags.
unfoldable pub meta_word : ℕ → ℕ → ℕ
meta_word type_id flags = type_id + flags % 2 ^ 8 * 2 ^ 32

unfoldable pub type_id_of_meta : ℕ → ℕ
type_id_of_meta meta = meta % 2 ^ 32

unfoldable pub flags_of_meta : ℕ → ℕ
flags_of_meta meta = meta / 2 ^ 32 % 2 ^ 8

unfoldable pub rc_of_meta : ℕ → ℕ
rc_of_meta meta = meta / 2 ^ 40 % 2 ^ 23

-- On a `u32`: `div_ceil`, and a product that wraps.
unfoldable pub align_up : ℕ → ℕ
align_up size = (size + 15) / 16 * 16 % 2 ^ 32

-- `FLAG_IMMORTAL`, `FLAG_MARKED`, `FLAG_LOGGED` and `FLAG_DEAD`.
pub data Flag : Type 0 where
  immortal marked logged dead : Flag

-- `flag << FLAG_SHIFT`.
abbrev pub bit_of : Flag → ℕ
bit_of immortal = 2 ^ 32
bit_of marked = 2 ^ 33
bit_of logged = 2 ^ 34
bit_of dead = 2 ^ 35

unfoldable pub test_flag : ℕ → Flag → Bool
test_flag meta flag = (meta / bit_of flag % 2) == 1

-- The new word, and whether this call set the flag.
unfoldable pub set_flag : ℕ → Flag → ℕ × Bool
unfolding test_flag
set_flag meta flag = if test_flag meta flag then (meta, false) else (meta + bit_of flag, true)

unfoldable pub clear_flag : ℕ → Flag → ℕ
unfolding test_flag
clear_flag meta flag = if test_flag meta flag then meta - bit_of flag else meta

-- The new word and the new count, for an `f` whose results are at most `rc_max`.
unfoldable pub rc_update : (ℕ → ℕ) → ℕ → ℕ × ℕ
unfolding rc_of_meta
rc_update f meta =
    let next = f (rc_of_meta meta) in (meta - rc_of_meta meta * 2 ^ 40 + next * 2 ^ 40, next)

-- `saturating_add` on a `u32`.
unfoldable pub rc_inc : ℕ → ℕ × ℕ
unfolding rc_update
rc_inc meta = rc_update (λ rc. min (min (rc + 1) (2 ^ 32 - 1)) rc_max) meta

unfoldable pub rc_dec : ℕ → ℕ × ℕ
unfolding rc_update
rc_dec meta = rc_update (λ rc. if rc == rc_max then rc_max else rc - 1) meta

-- The parity of a worker is 0 or the bit of `marked`.
abbrev pub marked_bit : ℕ
marked_bit = bit_of marked

unfoldable pub flip_mark_parity : ℕ → ℕ
flip_mark_parity parity = if parity == marked_bit then 0 else marked_bit

unfoldable pub is_marked : ℕ → ℕ → Bool
is_marked parity meta = (meta / marked_bit % 2 * marked_bit) == parity

-- The new word, and whether this call marked the object.
unfoldable pub claim_mark : ℕ → ℕ → ℕ × Bool
unfolding is_marked
claim_mark parity meta =
    if is_marked parity meta
    then (meta, false)
    else (meta - meta / marked_bit % 2 * marked_bit + parity, true)

unfoldable pub is_forwarded_meta : ℕ → Bool
is_forwarded_meta meta = (meta / forwarded % 2) == 1

-- `FORWARDED | to`.
unfoldable pub forwarding_meta : ℕ → ℕ
forwarding_meta to = forwarded + to % forwarded

-- `meta & !FORWARDED`.
unfoldable pub forwarding_target : ℕ → ℕ
forwarding_target meta = meta % forwarded

-- `Ok` to the caller that moves the object, and the winner's address to any other.
pub data Moved : Type 0 where
  won : Moved
  lost : ℕ → Moved

unfoldable pub try_forward : ℕ → ℕ → ℕ × Moved
unfolding is_forwarded_meta forwarding_meta forwarding_target
try_forward meta to =
    if is_forwarded_meta meta
    then (meta, lost (forwarding_target meta))
    else (forwarding_meta to, won)

unfoldable pub follow_forwarding : ℕ → ℕ → ℕ
unfolding is_forwarded_meta forwarding_target
follow_forwarding meta ptr = if is_forwarded_meta meta then forwarding_target meta else ptr
