-- ===== src/Sema/ErrorSets/Interned.antt =====
-- Interned sets of errors, for `err_set` of crates/wsharp-sema/src/ty.rs.
use wsharp.Prelude.{
  ℕ, same_list, same_list→≡, same_list_refl, ◌≡◌, refl, sym, ◌∙◌, ap, ◌⊎◌, inl, inr, true, false,
  none, some, List, [], ◌∷◌, ◌++◌, arith, length, get_elem?, get_elem?-push_last,
  get_elem?-push_old, lt-length, Bool-cases, Option-cases, if◌then◌else◌,
}
use wsharp.Sema.Ty.{con, nil, error_set}
use wsharp.Sema.Store.{TypeStore, new}
use wsharp.Sema.Schemes.{contains}
use wsharp.Sema.ErrorSets.{sort_unstable, dedup, id_of, interned, err_set, err_set_members}
use wsharp.Sema.ErrorSets.Canonical.{contains-canonical, canonical}

-- An id that the map has for a key is that of the set that the key is.
abbrev pub IsInterned : TypeStore → Type 0
IsInterned s =
    (key : List ℕ) (id : ℕ) → id_of key s.err_set_ids ≡ some id → get_elem? s.err_sets id ≡ some key

pub new-IsInterned : IsInterned new
new-IsInterned key id e = absurd (cc)

-- What `err_set` leaves: the id of its own key, and every id that there was.
record Added (key : List ℕ) (s t : TypeStore) (id : ℕ) : Type 0 where
  fits : IsInterned t
  own : id_of key t.err_set_ids ≡ some id
  kept : (k : List ℕ) (i : ℕ) → id_of k s.err_set_ids ≡ some i → id_of k t.err_set_ids ≡ some i

Added-interned :
    (key : List ℕ) (s : TypeStore)
    → IsInterned s
    → let r = interned key s (id_of key s.err_set_ids) in Added key s r.1 r.0
Added-interned key s v = elim (Option-cases (id_of key s.err_set_ids)) [
  | inr (id, e) ↦ rw e (record { fits = v; own = e; kept = λ k i p. p })
  | inl e ↦ rw e (record {
    fits = λ k i p. fits e k i (Bool-cases (same_list key k)) p;
    own = rw (same_list_refl key) refl;
    kept = λ k i p. kept e k i p (Bool-cases (same_list key k));
  })
]
  where
    fits :
        id_of key s.err_set_ids ≡ none
        → (k : List ℕ) (i : ℕ) → (same_list key k ≡ true) ⊎ (same_list key k ≡ false)
        → (if same_list key k then some (length s.err_sets) else id_of k s.err_set_ids) ≡ some i
        → get_elem? (s.err_sets ++ key ∷ []) i ≡ some k
    fits e k i (inl hit) p =
        let same = same_list→≡ key k hit in
        let at : length s.err_sets ≡ i = ground arith in
        rw (← at, ← same) (get_elem?-push_last s.err_sets key)
    fits e k i (inr miss) p =
        let old : get_elem? s.err_sets i ≡ some k = v k i (ground arith) in
        get_elem?-push_old s.err_sets key i (lt-length s.err_sets i k old) ∙ old

    kept :
        id_of key s.err_set_ids ≡ none
        → (k : List ℕ) (i : ℕ) → id_of k s.err_set_ids ≡ some i
        → (same_list key k ≡ true) ⊎ (same_list key k ≡ false)
        → (if same_list key k then some (length s.err_sets) else id_of k s.err_set_ids) ≡ some i
    kept e k i p (inl hit) = let same = same_list→≡ key k hit in absurd (cc)
    kept e k i p (inr miss) = rw miss p

interned-own :
    (key : List ℕ) (id : ℕ) (t : TypeStore)
    → id_of key t.err_set_ids ≡ some id
    → (interned key t (id_of key t.err_set_ids)).0 ≡ id
interned-own key id t e = rw e refl

same_id : (i j : ℕ) → con (error_set i) nil ≡ con (error_set j) nil → i ≡ j
same_id i j e = ground arith

module _ (s : TypeStore) (v : IsInterned s) (es : List ℕ) where
  -- On a store whose map of sets fits, `err_set` gives a set with the members asked for, and its map
  -- fits again.
  pub err_set_members-err_set :
      let t = (err_set es s).1 in
      (id : ℕ) × ((err_set es s).0 ≡ con (error_set id) nil)
      × ((x : ℕ) → contains x (err_set_members id t) ≡ contains x es)
      × IsInterned t
  unfolding err_set err_set_members
  err_set_members-err_set =
      let key = dedup (sort_unstable es) in
      let a = Added-interned key s v in
      let id = (interned key s (id_of key s.err_set_ids)).0 in
      let at = a.fits key id a.own in (id, refl, λ x. rw at (contains-canonical x es), a.fits)

  -- On a store whose map of sets fits, two sets asked for one after the other are the same type if
  -- they have the same members, whatever the order and the repetitions.
  pub err_set-same :
      (fs : List ℕ)
      → ((x : ℕ) → contains x es ≡ contains x fs)
      → (err_set fs (err_set es s).1).0 ≡ (err_set es s).0
  unfolding err_set
  err_set-same fs same =
      let a = Added-interned (dedup (sort_unstable es)) s v in
      let key = canonical es fs same in
      ap (λ id. con (error_set id) nil) (interned-own _ _ (err_set es s).1 (rw (← key) a.own))

  -- On a store whose map of sets fits, two sets asked for one after the other that are the same type
  -- have the same members.
  pub err_set-apart :
      (fs : List ℕ)
      → (err_set fs (err_set es s).1).0 ≡ (err_set es s).0
      → (x : ℕ) → contains x es ≡ contains x fs
  unfolding err_set
  err_set-apart fs e x =
      let a = Added-interned (dedup (sort_unstable es)) s v in
      let b = Added-interned (dedup (sort_unstable fs)) (err_set es s).1 a.fits in
      let first = b.fits _ _ (b.kept _ _ a.own) in
      let second = b.fits _ _ b.own in
      let same = same_id _ _ e in
      let key : dedup (sort_unstable es) ≡ dedup (sort_unstable fs) = cc in
      sym (contains-canonical x es) ∙ ap (contains x) key ∙ contains-canonical x fs
