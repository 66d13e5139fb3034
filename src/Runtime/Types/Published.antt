-- ===== src/Runtime/Types/Published.antt =====
-- For `register_type`, `publish` and `info` of crates/wsharp-runtime/src/types.rs.
use wsharp.Prelude.{
  ℕ, zero, suc, ◌<◌, ◌≡◌, refl, sym, ◌∙◌, ap, Bool, true, false, inl, inr, Option, none, some, List,
  [], ◌∷◌, arith, ◌==◌, ==→≡, ==→≢, if◌then◌else◌, length, get_elem?, set, get_elem?-lt,
  get_elem?-set_self, get_elem?-set_ne, length-set, replicate, length-replicate, Bool-cases,
}
use wsharp.Prelude.Run.{ok}
use wsharp.Runtime.Types.{
  TypeLayout, TypeInfo, Registry, insert_layout, get_layout, layout_of, type_id_str, str_layout,
  top, fill, publish, flatten, info,
}

-- No key twice.
abbrev pub IsMap : List (ℕ × TypeLayout) → Type 0
IsMap [] = Unit
IsMap ((k, v) ∷ rest) = (get_layout k rest ≡ none) × IsMap rest

module _ {ℓ} {A : Type ℓ} where
  replaced :
      (a b : Bool)
      → b ≡ a
      → (x y z : A) → (if a then x else z) ≡ (if a then x else if b then y else z)
  replaced true b e x y z = refl
  replaced false true e x y z = absurd (cc)
  replaced false false e x y z = refl

  kept :
      (a b : Bool)
      → ¬ ((a ≡ true) × (b ≡ true))
      → (x y z : A) → (if b then y else if a then x else z) ≡ (if a then x else if b then y else z)
  kept true true h x y z = absurd (h (refl, refl))
  kept true false h x y z = refl
  kept false b h x y z = refl

not_both : (j k id : ℕ) → (j == k) ≡ false → ¬ (((k == id) ≡ true) × ((j == id) ≡ true))
not_both j k id h (a, b) = ground arith

get-insert :
    (id k : ℕ) (v : TypeLayout) (xs : List (ℕ × TypeLayout))
    → get_layout id (insert_layout k v xs) ≡ (if k == id then some v else get_layout id xs)
get-insert id k v [] = refl
get-insert id k v ((j, w) ∷ rest) = elim (Bool-cases (j == k)) [
  | inl same ↦
      let e : j ≡ k = ==→≡ j k same in
      rw same
        (replaced (k == id) (j == id) (ap (λ n. n == id) e) (some v) (some w) (get_layout id rest))
  | inr other ↦
      let apart = not_both j k id other in
      rw (other, get-insert id k v rest)
        (kept (k == id) (j == id) apart (some v) (some w) (get_layout id rest))
]

insert-IsMap :
    (k : ℕ) (v : TypeLayout) (xs : List (ℕ × TypeLayout)) → IsMap xs → IsMap (insert_layout k v xs)
insert-IsMap k v [] h = (refl, tt)
insert-IsMap k v ((j, w) ∷ rest) (h, later) = elim (Bool-cases (j == k)) [
  | inl same ↦ rw same (let e : j ≡ k = ==→≡ j k same in rw e at h, later)
  | inr other ↦
      let miss : (k == j) ≡ false = ground arith in
      let absent : get_layout j (insert_layout k v rest) ≡ none =
        get-insert j k v rest ∙ rw miss h in
      rw other (absent, insert-IsMap k v rest later)
]

abbrev or_else : Option TypeInfo → Option TypeInfo → Option TypeInfo
or_else none o = o
or_else (some x) o = some x

-- The table is filled with what the list says.
fill_total :
    (xs : List (ℕ × TypeLayout)) (table : List (Option TypeInfo))
    → IsMap xs
    → top xs < length table
    → (t : List (Option TypeInfo)) × (fill xs table ≡ ok t)
      × ((id : ℕ)
          → flatten (get_elem? t id) ≡ or_else (get_layout id xs) (flatten (get_elem? table id)))
unfolding fill
fill_total [] table h n = (table, refl, λ id. refl)
fill_total ((k, v) ∷ rest) table (absent, h) n =
    let k_in : k < length table = omega (arith, n) in
    let (old, at) = get_elem?-lt table k k_in in
    let (t, runs, holds) =
      fill_total rest (set table k (some v)) h (omega (arith, n, length-set table k (some v))) in
    (
      t,
      rw at runs,
      λ id. elim (Bool-cases (k == id)) [
        | inl same ↦
            let e : k ≡ id = ==→≡ k id same in
            let none_later : get_layout id rest ≡ none =
              ap (λ i. get_layout i rest) (sym e) ∙ absent in
            let new =
              ap (get_elem? (set table k (some v))) (sym e)
              ∙ get_elem?-set_self table k (some v) k_in in
            rw same (rw (none_later, new) at (holds id))
        | inr other ↦
            rw other (rw (get_elem?-set_ne table (some v) (==→≢ k id other)) at (holds id))
      ],
    )

flatten-replicate : (n id : ℕ) → flatten (get_elem? (replicate n none) id) ≡ none
flatten-replicate zero id = refl
flatten-replicate (suc n) zero = refl
flatten-replicate (suc n) (suc id) = flatten-replicate n id

or_else-none : (o : Option TypeInfo) → or_else o none ≡ o
or_else-none none = refl
or_else-none (some x) = refl

-- On a registry that has no type id twice, `publish` returns, with no index out of range, and from then on `info`
-- answers for each type id what was registered for it last: the layout of strings for the id of strings, and for
-- each other id what `layout_of` answered before. No id is twice in the registry after it.
pub publish-info :
    (r : Registry)
    → IsMap r.layouts
    → (s : Registry) × (publish r ≡ ok s)
      × IsMap s.layouts
      × ((id : ℕ) → info id s ≡ (if type_id_str == id then some str_layout else layout_of id r))
unfolding publish info layout_of
publish-info r h =
    let all = insert_layout type_id_str str_layout r.layouts in
    let is_map = insert-IsMap type_id_str str_layout r.layouts h in
    let width = length-replicate {A = Option TypeInfo} (suc (top all)) none in
    let (t, runs, holds) =
      fill_total all (replicate (suc (top all)) none) is_map (omega (arith, width)) in
    (
      record { layouts = all; published = some t },
      rw runs refl,
      is_map,
      λ id.
          holds id
          ∙ ap (or_else (get_layout id all)) (flatten-replicate (suc (top all)) id)
          ∙ or_else-none (get_layout id all)
          ∙ get-insert id type_id_str str_layout r.layouts,
    )
