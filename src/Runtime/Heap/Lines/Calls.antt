-- ===== src/Runtime/Heap/Lines/Calls.antt =====
-- For `occupy` and `vacate` of crates/wsharp-runtime/src/heap.rs, in any order.
use wsharp.Prelude.{
  ℕ, suc, ◌+◌, ◌-◌, ◌*◌, ◌%◌, ◌^◌, ◌≤◌, ◌<◌, ◌≡◌, refl, subst, sym, ◌∙◌, ap, Bool, true, false, inl,
  inr, Option, some, List, ◌∷◌, arith, ◌==◌, ==→≡, if◌then◌else◌, get_elem?, set, get_elem?-lt,
  get_elem?-set_self, get_elem?-set_ne, length-set, lt-length, Bool-cases,
}
use wsharp.Prelude.Run.{Run, ok, then_run}
use wsharp.Runtime.Heap.{SpaceMeta, occupy, vacate, lines_per_block}
use wsharp.Runtime.Heap.Lines.{inside_lem, busy, busy_le}
use wsharp.Runtime.Heap.Lines.Loops.{AllCounts, occupy_loop_total, pred, vacate_loop_total}
use wsharp.Runtime.Heap.Lines.Objects.{
  Object, block_of, first_line, line_count, IsObject, AllObjects, touches, touching, Exact,
  object-InBlock, Changed-Exact,
}

same_some : (a b : ℕ) (o : Option ℕ) → o ≡ some a → o ≡ some b → a ≡ b
same_some a b o e f = let both : some a ≡ some b = sym e ∙ f in ground arith

-- A count of lines that is written with no wrap, and the others that stay.
live_set :
    (live : List ℕ) (block v w up down : ℕ)
    → get_elem? live block ≡ some v
    → w + up ≡ v + down
    → (a b : ℕ) → get_elem? live block ≡ some a
    → get_elem? (set live block w) block ≡ some b
    → b + up ≡ a + down
live_set live block v w up down old h a b e f =
    let same : v ≡ a = same_some v a _ old e in
    let new = get_elem?-set_self live block w (lt-length live block v old) in
    let value : w ≡ b = same_some w b _ new f in omega (arith, same, value, h)

live_same :
    (live : List ℕ) (block up down : ℕ)
    → up ≡ down
    → (a b : ℕ) → get_elem? live block ≡ some a
    → get_elem? live block ≡ some b
    → b + up ≡ a + down
live_same live block up down h a b e f =
    let same : a ≡ b = same_some a b _ e f in omega (arith, same, h)

module _ (blocks : ℕ) (m : SpaceMeta) where
  -- A line that the object touches has room for it.
  added_small :
      (objs : List Object) (o : Object) (i c : ℕ)
      → first_line m.base o ≤ i
      → i < first_line m.base o + line_count m.base o
      → touching m.base i (o ∷ objs) < 256
      → c ≡ touching m.base i objs
      → c < 255
  added_small objs o i c a b room e =
      let t = inside_lem (first_line m.base o) (line_count m.base o) i a b in
      let r : suc (touching m.base i objs) < 256 = rw t at room in omega (arith, r, e)

  live_at :
      (objs : List Object) (o : Object)
      → Exact m.base blocks objs m
      → IsObject m.base blocks o
      → (v : ℕ) × (get_elem? m.live_lines (block_of m.base o) ≡ some v)
        × (v ≡ busy m.line_objects (block_of m.base o * lines_per_block) lines_per_block)
  live_at objs o x h =
      let (v, old) =
        get_elem?-lt m.live_lines (block_of m.base o) (omega (arith, h.in_space, x.all_blocks)) in
      (v, old, x.lives (block_of m.base o) v old)

  occupy_total :
      (objs : List Object) (o : Object)
      → Exact m.base blocks objs m
      → IsObject m.base blocks o
      → ((line : ℕ) → touching m.base line (o ∷ objs) < 256)
      → (m' : SpaceMeta) × (occupy m o.0 o.1 ≡ ok m') × Exact m.base blocks (o ∷ objs) m'
  unfolding occupy
  occupy_total objs o x h room =
      let at = object-InBlock m.base blocks o h in
      let small : AllCounts (λ c. c < 255) m.line_objects (first_line m.base o)
          (line_count m.base o) =
        λ i c a b e. added_small objs o i c a b (room i) (x.counts i c e) in
      let (lines', k, runs, changed) =
        occupy_loop_total (line_count m.base o) (first_line m.base o) 0 m.line_objects
          (omega (arith, at.in_lines, x.all_lines)) small (omega (arith, at.starts, at.ends)) in
      let (v, old, before) = live_at objs o x h in
      let near = changed.near (block_of m.base o * lines_per_block) at.starts at.ends in
      let most = busy_le lines' (block_of m.base o * lines_per_block) lines_per_block in
      let exact = Changed-Exact m.base blocks m objs (o ∷ objs) o suc 0 k lines' in
      elim (Bool-cases (k == 0)) [
        | inl none_new ↦
            let same : 0 ≡ k = ground arith in
            (
              _,
              rw (runs, none_new) refl,
              exact m.live_lines x h changed (h, x.objects) room (λ line. refl) x.all_blocks
                  (λ b apart. refl) (live_same m.live_lines (block_of m.base o) 0 k same),
            )
        | inr new ↦
            let sum : (v + k) % 2 ^ 16 ≡ v + k = omega (arith, near, before, most) in
            (
              _,
              rw (runs, new, old, sum) refl,
              exact (set m.live_lines (block_of m.base o) (v + k)) x h changed (h, x.objects) room
                  (λ line. refl)
                  (length-set m.live_lines (block_of m.base o) (v + k) ∙ x.all_blocks)
                  (λ b apart. get_elem?-set_ne m.live_lines (v + k) (λ e. apart (sym e)))
                  (live_set m.live_lines (block_of m.base o) v (v + k) 0 k old (omega arith)),
            )
      ]

touching-swapped :
    (p o : Bool) (n k : ℕ)
    → n ≡ (if o then suc k else k)
    → (if p then suc n else n)
      ≡ (if o then suc (if p then suc k else k) else if p then suc k else k)
touching-swapped true true n k e = ap suc e
touching-swapped true false n k e = ap suc e
touching-swapped false true n k e = e
touching-swapped false false n k e = e

touching_le : (o : Bool) (n k : ℕ) → n ≡ (if o then suc k else k) → n < 256 → k < 256
touching_le true n k e h = omega (arith, e, h)
touching_le false n k e h = omega (arith, e, h)

touching-left : (o : Bool) (n k : ℕ) → n ≡ (if o then suc k else k) → (if o then pred n else n) ≡ k
touching-left true n k e = omega (arith, e)
touching-left false n k e = e

-- One of the objects, and the others.
pub data Removes : Object → List Object → List Object → Type 0 where
  here : (o : Object) (os : List Object) → Removes o (o ∷ os) os
  there : (o p : Object) (os rest : List Object) → Removes o os rest → Removes o (p ∷ os) (p ∷ rest)

module _ (base blocks : ℕ) where
  touching-removed :
      (line : ℕ) (o : Object) (objs rest : List Object)
      → Removes o objs rest
      → touching base line objs
        ≡ (if touches base line o then suc (touching base line rest) else touching base line rest)
  touching-removed line o _ _ (here _ os) = refl
  touching-removed line o _ _ (there _ p os rest r) =
      touching-swapped (touches base line p) (touches base line o) _ _
        (touching-removed line o os rest r)

  AllObjects-removed :
      (o : Object) (objs rest : List Object)
      → Removes o objs rest
      → AllObjects base blocks objs
      → IsObject base blocks o × AllObjects base blocks rest
  AllObjects-removed o _ _ (here _ os) all = all
  AllObjects-removed o _ _ (there _ p os rest r) (h, all) =
      let (is_object, later) = AllObjects-removed o os rest r all in (is_object, (h, later))

module _ (blocks : ℕ) (m : SpaceMeta) where
  vacate_total :
      (objs rest : List Object) (o : Object)
      → Exact m.base blocks objs m
      → Removes o objs rest
      → (k : ℕ) × (m' : SpaceMeta) × (vacate m o.0 o.1 ≡ ok (k, m')) × Exact m.base blocks rest m'
  unfolding vacate
  vacate_total objs rest o x r =
      let (h, all) = AllObjects-removed m.base blocks o objs rest r x.objects in
      let at = object-InBlock m.base blocks o h in
      let removed = λ (line : ℕ). touching-removed m.base blocks line o objs rest r in
      let small : AllCounts (λ c. (1 ≤ c) × (c < 256)) m.line_objects (first_line m.base o)
          (line_count m.base o) =
        λ i c a b e.
          let t = inside_lem (first_line m.base o) (line_count m.base o) i a b in
          let count = rw t at (removed i) in
          (omega (arith, count, x.counts i c e), omega (arith, x.bounded i, x.counts i c e)) in
      let (lines', k, runs, changed) =
        vacate_loop_total (line_count m.base o) (first_line m.base o) 0 m.line_objects
          (omega (arith, at.in_lines, x.all_lines)) small (omega (arith, at.starts, at.ends)) in
      let (v, old, before) = live_at blocks m objs o x h in
      let near = changed.near (block_of m.base o * lines_per_block) at.starts at.ends in
      let most = busy_le m.line_objects (block_of m.base o * lines_per_block) lines_per_block in
      let fewer = λ (line : ℕ).
        touching_le (touches m.base line o) (touching m.base line objs) (touching m.base line rest)
          (removed line) (x.bounded line) in
      let left = λ (line : ℕ).
        touching-left (touches m.base line o) (touching m.base line objs)
          (touching m.base line rest) (removed line) in
      let exact = Changed-Exact m.base blocks m objs rest o pred k 0 lines' in
      elim (Bool-cases (k == 0)) [
        | inl none_left ↦
            let same : k ≡ 0 = ==→≡ k 0 none_left in
            (
              k,
              _,
              rw (runs, none_left) refl,
              exact m.live_lines x h changed all fewer left x.all_blocks (λ b apart. refl)
                  (live_same m.live_lines (block_of m.base o) k 0 same),
            )
        | inr some_left ↦
            let sum : (v + 2 ^ 16 - k) % 2 ^ 16 ≡ v - k = omega (arith, near, before, most) in
            let back : v - k + k ≡ v + 0 = omega (arith, near, before) in
            (
              k,
              _,
              rw (runs, some_left, old, sum) refl,
              exact (set m.live_lines (block_of m.base o) (v - k)) x h changed all fewer left
                  (length-set m.live_lines (block_of m.base o) (v - k) ∙ x.all_blocks)
                  (λ b apart. get_elem?-set_ne m.live_lines (v - k) (λ e. apart (sym e)))
                  (live_set m.live_lines (block_of m.base o) v (v - k) k 0 old back),
            )
      ]

-- Calls of `occupy` and `vacate`, typed by the objects before and after: an object is occupied inside a block while
-- no line gets 256 objects, and one that is there is vacated.
pub data Calls (base blocks : ℕ) : List Object → List Object → Type 0 where
  done : (objs : List Object) → Calls base blocks objs objs
  occupies :
      {objs out : List Object} (o : Object)
      → IsObject base blocks o
      → ((line : ℕ) → touching base line (o ∷ objs) < 256)
      → Calls base blocks (o ∷ objs) out
      → Calls base blocks objs out
  vacates :
      {objs rest out : List Object} (o : Object)
      → Removes o objs rest
      → Calls base blocks rest out
      → Calls base blocks objs out

unfoldable pub run_calls :
    {base blocks : ℕ} {objs out : List Object}
    → Calls base blocks objs out
    → SpaceMeta
    → Run SpaceMeta
unfolding occupy vacate
run_calls (done objs) m = ok m
run_calls (occupies o h room later) m = then_run (occupy m o.0 o.1) (run_calls later)
run_calls (vacates o r later) m = then_run (vacate m o.0 o.1) (λ (freed, m'). run_calls later m')

module _ (base blocks : ℕ) where
  pub occupy-Exact :
      (m : SpaceMeta) (objs : List Object) (o : Object)
      → Exact base blocks objs m
      → IsObject base blocks o
      → ((line : ℕ) → touching base line (o ∷ objs) < 256)
      → (m' : SpaceMeta) × (occupy m o.0 o.1 ≡ ok m') × Exact base blocks (o ∷ objs) m'
  occupy-Exact m objs o x =
      subst
        (λ b.
          Exact b blocks objs m
          → IsObject b blocks o
          → ((line : ℕ) → touching b line (o ∷ objs) < 256)
          → (m' : SpaceMeta) × (occupy m o.0 o.1 ≡ ok m') × Exact b blocks (o ∷ objs) m')
        x.same_base (occupy_total blocks m objs o) x

  vacate-Exact :
      (m : SpaceMeta) (objs rest : List Object) (o : Object)
      → Exact base blocks objs m
      → Removes o objs rest
      → (k : ℕ) × (m' : SpaceMeta) × (vacate m o.0 o.1 ≡ ok (k, m')) × Exact base blocks rest m'
  vacate-Exact m objs rest o x =
      subst
        (λ b.
          Exact b blocks objs m
          → Removes o objs rest
          → (k : ℕ) × (m' : SpaceMeta) × (vacate m o.0 o.1 ≡ ok (k, m')) × Exact b blocks rest m')
        x.same_base (vacate_total blocks m objs rest o) x

  -- From side metadata that is exact, any calls of `occupy`, for objects inside a block that give no line 256 objects,
  -- and of `vacate`, for objects that are there, return with no index out of range, and the metadata is exact again:
  -- each line counts the objects on it, each block its lines with an object.
  pub run_calls-Exact :
      (objs out : List Object) (m : SpaceMeta) (calls : Calls base blocks objs out)
      → Exact base blocks objs m
      → (m' : SpaceMeta) × (run_calls calls m ≡ ok m') × Exact base blocks out m'
  unfolding run_calls
  run_calls-Exact objs _ m (done _) x = (m, refl, x)
  run_calls-Exact objs out m (occupies o h room later) x =
      let (m', runs, y) = occupy-Exact m objs o x h room in
      let (m2, runs', z) = run_calls-Exact (o ∷ objs) out m' later y in (m2, rw runs runs', z)
  run_calls-Exact objs out m (vacates {rest = rest} o r later) x =
      let (k, m', runs, y) = vacate-Exact m objs rest o x r in
      let (m2, runs', z) = run_calls-Exact rest out m' later y in (m2, rw runs runs', z)
