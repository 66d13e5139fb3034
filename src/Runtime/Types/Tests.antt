-- ===== src/Runtime/Types/Tests.antt =====
-- Runs of the registry of types.
use wsharp.Prelude.{ℕ, ◌≡◌, refl, none, some, [], ◌∷◌, arith, ◌==◌, if◌then◌else◌, codes}
use wsharp.Prelude.Run.{ok}
use wsharp.Runtime.Header.{header_size}
use wsharp.Runtime.Types.{
  TypeLayout, Registry, fixed, elements, layout_of, type_id_str, str_layout, publish, info,
  object_size_as, for_each_ptr_offset,
}
use wsharp.Runtime.Types.Published.{IsMap, publish-info}
use wsharp.Runtime.Types.Visits.{AllWithin, IsLayout, of_elements, for_each_ptr_offset-AllWithin}

-- A pair of a number and a reference, and an array of such pairs.
abbrev pair : TypeLayout
pair = fixed (codes "Pair") 32 (24 ∷ [])

abbrev pairs : TypeLayout
pairs = elements (codes "[]Pair") 16 (8 ∷ [])

abbrev two_types : Registry
two_types = record { layouts = (5, pair) ∷ (3, pairs) ∷ []; published = none }

offsets_run : for_each_ptr_offset 3 pairs ≡ 24 ∷ 40 ∷ 56 ∷ []
unfolding for_each_ptr_offset
offsets_run = refl

publish-info_example :
    (s : Registry) × (publish two_types ≡ ok s)
    × IsMap s.layouts
    × ((id : ℕ)
        → info id s ≡ (if type_id_str == id then some str_layout else layout_of id two_types))
publish-info_example = publish-info two_types (refl, (refl, tt))

abbrev published : Registry
published = record { layouts = []; published = some (none ∷ none ∷ some pairs ∷ []) }

published_info : info 2 published ≡ some pairs
unfolding info
published_info = refl

pairs-IsLayout : IsLayout pairs
pairs-IsLayout = of_elements refl refl (omega arith, omega arith, tt)

for_each_ptr_offset-AllWithin_example :
    (n : ℕ) × (object_size_as 3 2 published ≡ some n)
    × AllWithin header_size n (for_each_ptr_offset 3 pairs)
for_each_ptr_offset-AllWithin_example =
    for_each_ptr_offset-AllWithin published 2 3 pairs published_info pairs-IsLayout (omega arith)
      (omega arith)
