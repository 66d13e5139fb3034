-- ===== src/Runtime/Heap/Fresh.antt =====
-- For `Space::new` of crates/wsharp-runtime/src/heap.rs.
use wsharp.Prelude.{
  ℕ, zero, suc, ◌+◌, ◌*◌, ◌≤◌, ◌≡◌, refl, sym, ◌∙◌, Bool, true, false, some, List, [], ◌∷◌, arith,
  if◌then◌else◌, length, get_elem?, replicate, length-replicate,
}
use wsharp.Runtime.Heap.{SpaceMeta, space_new, space_blocks, lines_per_block}
use wsharp.Runtime.Heap.Lines.{busy, busy_at}
use wsharp.Runtime.Heap.Lines.Objects.{Object, touches, touching, Exact}

get_elem?-replicate : (n i c v : ℕ) → get_elem? (replicate n v) i ≡ some c → c ≡ v
get_elem?-replicate zero i c v e = absurd (cc)
get_elem?-replicate (suc n) zero c v e = ground arith
get_elem?-replicate (suc n) (suc i) c v e = get_elem?-replicate n i c v e

busy_at-replicate : (n i : ℕ) → busy_at (get_elem? (replicate n 0) i) ≡ 0
busy_at-replicate zero i = refl
busy_at-replicate (suc n) zero = refl
busy_at-replicate (suc n) (suc i) = busy_at-replicate n i

busy-replicate : (n from k : ℕ) → busy (replicate n 0) from k ≡ 0
unfolding busy
busy-replicate n from zero = refl
busy-replicate n from (suc k) =
    omega (arith, busy_at-replicate n from, busy-replicate n (from + 1) k)

pub zeros-Exact :
    (base blocks : ℕ) (m : SpaceMeta)
    → m.base ≡ base
    → m.line_objects ≡ replicate (blocks * lines_per_block) 0
    → m.live_lines ≡ replicate blocks 0
    → Exact base blocks [] m
zeros-Exact base blocks m b lines live = record {
  same_base = b;
  all_blocks = rw live (length-replicate blocks 0);
  all_lines = rw lines (length-replicate (blocks * lines_per_block) 0);
  objects = tt;
  bounded = λ line. omega arith;
  counts = λ line c e. get_elem?-replicate (blocks * lines_per_block) line c 0 (rw lines at e);
  lives = λ block n e.
      get_elem?-replicate blocks block n 0 (rw live at e)
      ∙ sym (
          rw lines
            (busy-replicate (blocks * lines_per_block) (block * lines_per_block) lines_per_block));
}

-- A new space is exact for no objects.
pub space_new-Exact : (raw : ℕ) → Exact (space_new raw).base space_blocks [] (space_new raw)
unfolding space_new
space_new-Exact raw = zeros-Exact _ space_blocks (space_new raw) refl refl refl

at_most_one : (b : Bool) (k n : ℕ) → k ≤ n → (if b then suc k else k) ≤ suc n
at_most_one true k n h = omega (arith, h)
at_most_one false k n h = omega (arith, h)

-- A line has no more objects than there are.
pub touching_le_length :
    (base line : ℕ) (objs : List Object) → touching base line objs ≤ length objs
touching_le_length base line [] = omega arith
touching_le_length base line (o ∷ os) =
    at_most_one (touches base line o) (touching base line os) (length os)
      (touching_le_length base line os)
