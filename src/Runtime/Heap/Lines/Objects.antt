-- ===== src/Runtime/Heap/Lines/Objects.antt =====
-- Objects on the lines of a space of the heap, crates/wsharp-runtime/src/heap.rs.
use wsharp.Prelude.{
  ℕ, suc, ◌+◌, ◌-◌, ◌*◌, ◌/◌, ◌≤◌, ◌<◌, ◌≡◌, ◌≢◌, ◌⊎◌, refl, sym, ◌∙◌, ap, Bool, inl, inr, some,
  List, [], ◌∷◌, arith, ◌==◌, ==→≡, ==→≢, ltb, ltb→lt, if◌then◌else◌, length, get_elem?,
  get_elem?-lt, lt-length, Bool-cases,
}
use wsharp.Runtime.Heap.{SpaceMeta, block_bytes, line_bytes, lines_per_block}
use wsharp.Runtime.Heap.Lines.{busy, inside, Changed}

-- An address and a size.
abbrev pub Object : Type 0
Object = ℕ × ℕ

-- The block, the first line and the number of lines of an object, in a space at `base`.
abbrev pub block_of : ℕ → Object → ℕ
block_of base (addr, size) = (addr - base) / block_bytes

abbrev pub first_line : ℕ → Object → ℕ
first_line base (addr, size) = (addr - base) / line_bytes

abbrev pub line_count : ℕ → Object → ℕ
line_count base (addr, size) =
    suc ((addr + size - 1 - base) / line_bytes) - (addr - base) / line_bytes

-- Inside one of the `blocks` blocks.
pub record IsObject (base blocks : ℕ) (o : Object) : Type 0 where
  pub at_base : base ≤ o.0
  pub some_byte : 1 ≤ o.1
  pub one_block : (o.0 + o.1 - 1 - base) / block_bytes ≡ block_of base o
  pub in_space : block_of base o < blocks

abbrev pub AllObjects : ℕ → ℕ → List Object → Type 0
AllObjects base blocks [] = Unit
AllObjects base blocks (o ∷ os) = IsObject base blocks o × AllObjects base blocks os

abbrev pub touches : ℕ → ℕ → Object → Bool
touches base line o = inside (first_line base o) (line_count base o) line

-- How many objects touch a line.
abbrev pub touching : ℕ → ℕ → List Object → ℕ
touching base line [] = 0
touching base line (o ∷ os) =
    let rest = touching base line os in if touches base line o then suc rest else rest

-- The side metadata is exact for these objects: each line has the number of the objects on it, each block the
-- number of its lines that have one.
pub record Exact (base blocks : ℕ) (objs : List Object) (m : SpaceMeta) : Type 0 where
  pub same_base : m.base ≡ base
  pub all_blocks : length m.live_lines ≡ blocks
  pub all_lines : length m.line_objects ≡ blocks * lines_per_block
  pub objects : AllObjects base blocks objs
  pub bounded : (line : ℕ) → touching base line objs < 256
  pub counts : (line c : ℕ) → get_elem? m.line_objects line ≡ some c → c ≡ touching base line objs
  pub lives :
      (block n : ℕ)
      → get_elem? m.live_lines block ≡ some n
      → n ≡ busy m.line_objects (block * lines_per_block) lines_per_block

-- The lines of an object are in its block.
pub record InBlock (base blocks : ℕ) (o : Object) : Type 0 where
  pub some_line : 1 ≤ line_count base o
  pub starts : block_of base o * lines_per_block ≤ first_line base o
  pub ends :
      first_line base o + line_count base o ≤ block_of base o * lines_per_block + lines_per_block
  pub in_lines : first_line base o + line_count base o ≤ blocks * lines_per_block

line_in_block :
    (x b : ℕ)
    → x / block_bytes ≡ b
    → (b * lines_per_block ≤ x / line_bytes)
      × (x / line_bytes < b * lines_per_block + lines_per_block)
line_in_block x b e = (omega (arith, e), omega (arith, e))

pub line_le : (x y : ℕ) → x ≤ y → x / line_bytes ≤ y / line_bytes
line_le x y h = omega (arith, h)

pub object-InBlock : (base blocks : ℕ) (o : Object) → IsObject base blocks o → InBlock base blocks o
object-InBlock base blocks (addr, size) o =
    let (a, b) = line_in_block (addr - base) ((addr - base) / block_bytes) refl in
    let (c, d) = line_in_block (addr + size - 1 - base) ((addr - base) / block_bytes) o.one_block in
    let le : (addr - base) / line_bytes ≤ (addr + size - 1 - base) / line_bytes =
      line_le (addr - base) (addr + size - 1 - base) (omega (arith, o.some_byte)) in
    record {
      some_line = omega (arith, le);
      starts = a;
      ends = omega (arith, le, d);
      in_lines = omega (arith, le, d, o.in_space);
    }

-- Other blocks keep their lines.
far_block :
    (block b first n : ℕ)
    → block * lines_per_block ≤ first
    → first + n ≤ block * lines_per_block + lines_per_block
    → b ≢ block
    → (first + n ≤ b * lines_per_block) ⊎ (b * lines_per_block + lines_per_block ≤ first)
far_block block b first n h k apart = elim (Bool-cases (ltb b block)) [
  | inl before ↦ let lt = ltb→lt b block before in inr (omega (arith, h, lt))
  | inr after ↦ let gt : block < b = ground arith in inl (omega (arith, k, gt))
]

-- The lines of `o` have changed by `step`, and the count of its block with them.
pub Changed-Exact :
    (base blocks : ℕ) (m : SpaceMeta) (objs objs' : List Object) (o : Object) (step : ℕ → ℕ)
    (up down : ℕ) (lines' live' : List ℕ)
    → Exact base blocks objs m
    → IsObject base blocks o
    → Changed step m.line_objects (first_line base o) (line_count base o) up down lines'
    → AllObjects base blocks objs'
    → ((line : ℕ) → touching base line objs' < 256)
    → ((line : ℕ)
        → (if touches base line o then step (touching base line objs) else touching base line objs)
          ≡ touching base line objs')
    → length live' ≡ blocks
    → ((b : ℕ) → b ≢ block_of base o → get_elem? live' b ≡ get_elem? m.live_lines b)
    → ((v v' : ℕ)
        → get_elem? m.live_lines (block_of base o) ≡ some v
        → get_elem? live' (block_of base o) ≡ some v'
        → v' + up ≡ v + down)
    → Exact base blocks objs' (record m { line_objects = lines'; live_lines = live' })
Changed-Exact base blocks m objs objs' o step up down lines' live' x h change all small counted
      width others here =
    let at = object-InBlock base blocks o h in
    record {
      same_base = x.same_base;
      all_blocks = width;
      all_lines = change.width ∙ x.all_lines;
      objects = all;
      bounded = small;
      counts = λ line c e.
          let (d, old) =
            get_elem?-lt m.line_objects line
              (omega (arith, change.width, lt-length lines' line c e)) in
          let now = sym e ∙ change.got line d old in
          let value : c ≡ (if touches base line o then step d else d) = ground arith in
          let before : d ≡ touching base line objs = x.counts line d old in
          value ∙ ap (λ n. if touches base line o then step n else n) before ∙ counted line;
      lives = λ block n e. elim (Bool-cases (block == block_of base o)) [
        | inl same ↦
            let z : block ≡ block_of base o = ==→≡ block (block_of base o) same in
            let new = ap (get_elem? live') (sym z) ∙ e in
            let (v, old) =
              get_elem?-lt m.live_lines (block_of base o)
                (omega (arith, h.in_space, x.all_blocks)) in
            let before = x.lives (block_of base o) v old in
            let near = change.near (block_of base o * lines_per_block) at.starts at.ends in
            let sum = here v n old new in
            let value : n ≡ busy lines' (block_of base o * lines_per_block) lines_per_block =
              omega (arith, before, near, sum) in
            value ∙ ap (λ b. busy lines' (b * lines_per_block) lines_per_block) (sym z)
        | inr other ↦
            let apart : block ≢ block_of base o = ==→≢ block (block_of base o) other in
            let far = far_block (block_of base o) block _ _ at.starts at.ends apart in
            x.lives block n (sym (others block apart) ∙ e)
            ∙ sym (change.far (block * lines_per_block) far)
      ];
    }
