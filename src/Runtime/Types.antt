-- ===== src/Runtime/Types.antt =====
-- The registry of types, crates/wsharp-runtime/src/types.rs. A map is a list of its keys and values, and a name
-- the list of its bytes. An object is given by its `aux` word. The sums and products are of `u32`s.
pub mod Published
pub mod Visits
mod Tests
use wsharp.Prelude.{
  ℕ, zero, suc, ◌+◌, ◌*◌, ◌%◌, ◌^◌, max, Bool, true, false, not, ◌||◌, Option, none, some, List, [],
  ◌∷◌, ◌++◌, ◌==◌, if◌then◌else◌, get_elem?, set, replicate, map, codes,
}
use wsharp.Prelude.Run.{Run, ok, panic, then_run}
use wsharp.Runtime.Header.{header_size, align_up, type_id_of_meta}

pub record TypeLayout : Type 0 where
  pub name : List ℕ
  pub size : ℕ
  pub ptr_offsets : List ℕ
  pub elem_stride : ℕ
  pub elem_ptr_offsets : List ℕ

abbrev pub fixed : List ℕ → ℕ → List ℕ → TypeLayout
fixed name size ptr_offsets = record {
  name = name;
  size = size;
  ptr_offsets = ptr_offsets;
  elem_stride = 0;
  elem_ptr_offsets = [];
}

abbrev pub elements : List ℕ → ℕ → List ℕ → TypeLayout
elements name elem_stride elem_ptr_offsets = record {
  name = name;
  size = 0;
  ptr_offsets = [];
  elem_stride = elem_stride;
  elem_ptr_offsets = elem_ptr_offsets;
}

-- `TypeInfo`: the same fields, borrowed.
abbrev pub TypeInfo : Type 0
TypeInfo = TypeLayout

abbrev pub has_variable_size : TypeInfo → Bool
has_variable_size i = i.size == 0

abbrev pub is_nil : List ℕ → Bool
is_nil [] = true
is_nil (x ∷ xs) = false

unfoldable pub has_references : TypeInfo → Bool
has_references i = not (is_nil i.ptr_offsets) || not (is_nil i.elem_ptr_offsets)

-- `REGISTRY` and `PUBLISHED`, null before the first `publish`.
pub record Registry : Type 0 where
  pub layouts : List (ℕ × TypeLayout)
  pub published : Option (List (Option TypeInfo))

-- `HashMap::insert` and `HashMap::get`.
abbrev pub insert_layout : ℕ → TypeLayout → List (ℕ × TypeLayout) → List (ℕ × TypeLayout)
insert_layout id layout [] = (id, layout) ∷ []
insert_layout id layout ((k, v) ∷ rest) =
    let later = insert_layout id layout rest in
    if k == id then (id, layout) ∷ rest else (k, v) ∷ later

abbrev pub get_layout : ℕ → List (ℕ × TypeLayout) → Option TypeLayout
get_layout id [] = none
get_layout id ((k, v) ∷ rest) = let later = get_layout id rest in if k == id then some v else later

unfoldable pub layout_of : ℕ → Registry → Option TypeLayout
layout_of id r = get_layout id r.layouts

abbrev pub name_in : Option TypeLayout → Option (List ℕ)
name_in none = none
name_in (some l) = some l.name

unfoldable pub type_name : ℕ → Registry → Option (List ℕ)
type_name id r = name_in (get_layout id r.layouts)

unfoldable pub register_type : ℕ → TypeLayout → Registry → Registry
register_type id layout r = record r { layouts = insert_layout id layout r.layouts }

abbrev pub type_id_str : ℕ
type_id_str = 1

abbrev pub str_layout : TypeLayout
str_layout = elements (codes "str") 1 []

-- `keys().copied().max().unwrap_or(0)`.
abbrev pub top : List (ℕ × TypeLayout) → ℕ
top [] = 0
top ((k, v) ∷ rest) = max k (top rest)

-- The loop that fills the table: an index past its end is a panic.
abbrev pub checked :
    Option (Option TypeInfo) → List (Option TypeInfo) → Run (List (Option TypeInfo))
checked none table = panic
checked (some old) table = ok table

unfoldable pub fill : List (ℕ × TypeLayout) → List (Option TypeInfo) → Run (List (Option TypeInfo))
fill [] table = ok table
fill ((k, v) ∷ rest) table =
    then_run (checked (get_elem? table k) (set table k (some v))) (fill rest)

unfoldable pub publish : Registry → Run Registry
unfolding fill register_type
publish r =
    let r' = register_type type_id_str str_layout r in
    then_run (fill r'.layouts (replicate (suc (top r'.layouts)) none))
      (λ table. ok (record r' { published = some table }))

abbrev pub flatten : Option (Option TypeInfo) → Option TypeInfo
flatten none = none
flatten (some o) = o

abbrev pub info_in : ℕ → Option (List (Option TypeInfo)) → Option TypeInfo
info_in id none = none
info_in id (some table) = flatten (get_elem? table id)

unfoldable pub info : ℕ → Registry → Option TypeInfo
info id r = info_in id r.published

-- `object_size_as`, of an object with the `aux` word.
abbrev pub size_by : ℕ → Option TypeInfo → Option ℕ
size_by aux none = none
size_by aux (some i) =
    if has_variable_size i
    then some (align_up ((header_size + aux % 2 ^ 32 * i.elem_stride) % 2 ^ 32))
    else some i.size

unfoldable pub object_size_as : ℕ → ℕ → Registry → Option ℕ
unfolding info align_up
object_size_as aux id r = size_by aux (info id r)

-- `object_size`, of an object with these two words.
unfoldable pub object_size : ℕ → ℕ → Registry → Option ℕ
unfolding object_size_as type_id_of_meta
object_size meta aux r = object_size_as aux (type_id_of_meta meta) r

-- The offsets in elements `i`, `i + 1`, …, of which there are `n`.
abbrev pub element_offsets : TypeInfo → ℕ → ℕ → List ℕ
element_offsets type i zero = []
element_offsets type i (suc n) =
    map (λ offset. ((header_size + i * type.elem_stride) % 2 ^ 32 + offset) % 2 ^ 32)
      type.elem_ptr_offsets
    ++ element_offsets type (i + 1) n

-- The offsets that `visit` is called with, in their order.
unfoldable pub for_each_ptr_offset : ℕ → TypeInfo → List ℕ
for_each_ptr_offset aux type =
    if type.elem_stride == 0 || is_nil type.elem_ptr_offsets
    then type.ptr_offsets
    else type.ptr_offsets ++ element_offsets type 0 (aux % 2 ^ 32)
