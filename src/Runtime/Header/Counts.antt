-- ===== src/Runtime/Header/Counts.antt =====
-- For the reference counts of crates/wsharp-runtime/src/header.rs.
use wsharp.Prelude.{
  ℕ, suc, ◌+◌, ◌-◌, ◌*◌, ◌/◌, ◌%◌, ◌^◌, ◌≤◌, ◌<◌, ◌≡◌, refl, min, arith, ◌==◌, if◌then◌else◌, List,
  [], ◌∷◌, ap, ◌∙◌, sym, subst,
}
use wsharp.Runtime.Header.{
  rc_of_meta, rc_max, rc_update, rc_inc, rc_dec, type_id_of_meta, flags_of_meta, is_forwarded_meta,
}
use wsharp.Runtime.Header.Fields.{SameButCount}

-- What a count does in one step: both stop at their end, and neither leaves the maximum.
abbrev pub counted_up : ℕ → ℕ
counted_up n = if n == rc_max then rc_max else n + 1

abbrev pub counted_down : ℕ → ℕ
counted_down n = if n == rc_max then rc_max else n - 1

-- An update writes its count and leaves the rest of the word alone.
rc_update_lem :
    (f : ℕ → ℕ) (meta : ℕ)
    → meta < 2 ^ 64
    → f (rc_of_meta meta) ≤ rc_max
    → (rc_of_meta (rc_update f meta).0 ≡ f (rc_of_meta meta))
      × ((rc_update f meta).0 < 2 ^ 64)
      × SameButCount (rc_update f meta).0 meta
unfolding rc_update rc_of_meta type_id_of_meta flags_of_meta is_forwarded_meta
rc_update_lem f meta h k =
    (omega arith, omega arith, (omega arith, omega arith, ap (λ n. (n % 2) == 1) top))
  where
    top : (meta - rc_of_meta meta * 2 ^ 40 + f (rc_of_meta meta) * 2 ^ 40) / 2 ^ 63 ≡ meta / 2 ^ 63
    top = omega arith

rc_of_meta-bound : (meta : ℕ) → rc_of_meta meta ≤ rc_max
unfolding rc_of_meta
rc_of_meta-bound meta = omega arith

SameButCount-trans : (m n k : ℕ) → SameButCount m n → SameButCount n k → SameButCount m k
SameButCount-trans m n k (t, f, b) (t', f', b') = (t ∙ t', f ∙ f', b ∙ b')

-- The accesses of the threads to one count, in the order of their exchanges.
pub data Access : Type 0 where
  inc dec : Access

unfoldable pub access : Access → ℕ → ℕ
unfolding rc_inc rc_dec
access inc meta = (rc_inc meta).0
access dec meta = (rc_dec meta).0

unfoldable pub accesses : List Access → ℕ → ℕ
unfolding access
accesses [] meta = meta
accesses (a ∷ rest) meta = accesses rest (access a meta)

abbrev pub counted : Access → ℕ → ℕ
counted inc n = counted_up n
counted dec n = counted_down n

-- One access changes the count by one, unless it is at its end, and nothing else.
access_lem :
    (a : Access) (meta : ℕ)
    → meta < 2 ^ 64
    → (rc_of_meta (access a meta) ≡ counted a (rc_of_meta meta))
      × (access a meta < 2 ^ 64)
      × SameButCount (access a meta) meta
unfolding access rc_inc rc_dec
access_lem inc meta h =
    let n = rc_of_meta-bound meta in
    let next : min (min (rc_of_meta meta + 1) (2 ^ 32 - 1)) rc_max ≡ counted_up (rc_of_meta meta) =
      ground arith in
    let (c, small, same) =
      rc_update_lem (λ rc. min (min (rc + 1) (2 ^ 32 - 1)) rc_max) meta h (omega arith) in
    (c ∙ next, small, same)
access_lem dec meta h =
    let n = rc_of_meta-bound meta in
    rc_update_lem (λ rc. if rc == rc_max then rc_max else rc - 1) meta h (ground arith)

-- A count at the maximum stays there, and the other fields of the word stay as they are, whatever
-- increments and decrements follow.
pub accesses-stuck :
    (xs : List Access) (meta : ℕ)
    → meta < 2 ^ 64
    → rc_of_meta meta ≡ rc_max
    → (rc_of_meta (accesses xs meta) ≡ rc_max) × SameButCount (accesses xs meta) meta
unfolding accesses
accesses-stuck [] meta h e = (e, (refl, refl, refl))
accesses-stuck (a ∷ xs) meta h e =
    let (c, small, same) = access_lem a meta h in
    let (c', same') = accesses-stuck xs (access a meta) small (c ∙ stays a) in
    (c', SameButCount-trans _ _ _ same' same)
  where
    stays : (a : Access) → counted a (rc_of_meta meta) ≡ rc_max
    stays inc = rw e refl
    stays dec = rw e refl

-- From a count of `n`, no decrement finds 0 and no increment reaches the maximum.
abbrev pub StaysBetween : List Access → ℕ → Type 0
StaysBetween [] n = n < rc_max
StaysBetween (inc ∷ xs) n = (n < rc_max) × StaysBetween xs (n + 1)
StaysBetween (dec ∷ xs) n = (1 ≤ n) × (n < rc_max) × StaysBetween xs (n - 1)

abbrev pub incs : List Access → ℕ
incs [] = 0
incs (inc ∷ xs) = suc (incs xs)
incs (dec ∷ xs) = incs xs

abbrev pub decs : List Access → ℕ
decs [] = 0
decs (inc ∷ xs) = decs xs
decs (dec ∷ xs) = suc (decs xs)

-- While no decrement finds 0 and no increment reaches the maximum, the count is exact in every order
-- of the accesses: what it was, the increments added and the decrements taken. The other fields of
-- the word stay as they are.
pub accesses-exact :
    (xs : List Access) (meta : ℕ)
    → meta < 2 ^ 64
    → StaysBetween xs (rc_of_meta meta)
    → (rc_of_meta (accesses xs meta) + decs xs ≡ rc_of_meta meta + incs xs)
      × SameButCount (accesses xs meta) meta
unfolding accesses
accesses-exact [] meta h w = (refl, (refl, refl, refl))
accesses-exact (inc ∷ xs) meta h (lt, w) =
    let (c, small, same) = access_lem inc meta h in
    let now : rc_of_meta (access inc meta) ≡ rc_of_meta meta + 1 = c ∙ ground arith in
    let (c', same') =
      accesses-exact xs (access inc meta) small (subst (StaysBetween xs) (sym now) w) in
    (omega arith, SameButCount-trans _ _ _ same' same)
accesses-exact (dec ∷ xs) meta h (some_left, lt, w) =
    let (c, small, same) = access_lem dec meta h in
    let now : rc_of_meta (access dec meta) ≡ rc_of_meta meta - 1 = c ∙ ground arith in
    let (c', same') =
      accesses-exact xs (access dec meta) small (subst (StaysBetween xs) (sym now) w) in
    (omega arith, SameButCount-trans _ _ _ same' same)
