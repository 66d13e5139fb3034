-- ===== src/Sema/Schemes/Collect.antt =====
-- For `generalize` of crates/wsharp-sema/src/ty.rs, and the walk that collects variables.
use wsharp.Prelude.{
  ℕ, zero, suc, ◌≡◌, refl, ◌∙◌, ap, Bool, true, false, ◌&&◌, ◌||◌, some, List, [], ◌∷◌, ◌++◌, arith,
  get_elem?, ltb, ◌==◌, fun_ext, Bool-cases, ==→≡, inl, inr,
}
use wsharp.Sema.Ty.{Ty, Args, var, con, nil, cons, has_var, has_var_args}
use wsharp.Sema.Store.{TypeStore, ok, level_at, level_of_lem}
use wsharp.Sema.Unify.Meaning.{deep, deep-con, deep_args, deep_args-cons, deep_args_mono}
use wsharp.Sema.Unify.Resolve.{resolve_total, IsRoot}
use wsharp.Sema.Schemes.{
  contains, push_new, collect_args, collect_root, collect_generalizable, generalize,
}
use wsharp.Sema.Schemes.Replace.{Walked, Walked-refl, Walked-trans, Returns, open_root}

-- What is collected from a meaning, in order, for the variables that are wanted.
unfoldable mutual
  pub gather : (ℕ → Bool) → Ty → List ℕ → List ℕ
  gather wanted (var v) out = push_new (wanted v) v out
  gather wanted (con c ts) out = gather_args wanted ts out

  pub gather_args : (ℕ → Bool) → Args → List ℕ → List ℕ
  gather_args wanted nil out = out
  gather_args wanted (cons a ts) out = gather_args wanted ts (gather wanted a out)

-- A variable of a level further in than the store's.
abbrev pub is_inner : TypeStore → ℕ → Bool
is_inner s v = ltb s.level (level_at (get_elem? s.slots v))

Walked-is_inner : {s t : TypeStore} → Walked s t → is_inner t ≡ is_inner s
Walked-is_inner {s} {t} w = fun_ext (λ v. cc (w.levels v, w.level))

-- The claim for types of depth `h`.
abbrev Collects : ℕ → Type 0
Collects h =
    (s : TypeStore) (t u : Ty) (out : List ℕ)
    → deep s.slots h t ≡ some u
    → Returns s h (gather (is_inner s) u out) (λ f. collect_generalizable f t out s)

collect_args_total :
    (h : ℕ)
    → Collects h
    → (ts us : Args) (s : TypeStore) (out : List ℕ) → deep_args (deep s.slots h) ts ≡ some us
    → Returns s h
        (gather_args (is_inner s) us out)
        (λ f. collect_args (collect_generalizable f) ts out s)
unfolding gather
collect_args_total h rec nil us s out e =
    let same : us ≡ nil = ground arith in
    rw same (record { store = s; runs = λ f lt. refl; walked = Walked-refl s })
collect_args_total h rec (cons a ts) us s out e =
    let (b, bs, same, ea, es) = deep_args-cons (deep s.slots h) a ts us e in
    let first = rec s a b out ea in
    let later =
      deep_args_mono (deep s.slots h) (deep first.store.slots h) (first.walked.keeps.means h) ts bs
        es in
    let rest = collect_args_total h rec ts bs first.store (gather (is_inner s) b out) later in
    let wanted = Walked-is_inner first.walked in
    rw same (record {
      store = rest.store;
      runs = λ f lt. rw (first.runs f lt) (
          rest.runs f lt
          ∙ ap (λ w. ok (gather_args w bs (gather (is_inner s) b out), rest.store)) wanted);
      walked = Walked-trans first.walked rest.walked;
    })

collect_root_total :
    (h : ℕ)
    → Collects h
    → (root u : Ty) (s : TypeStore) (out : List ℕ) → IsRoot s.slots root
    → deep s.slots (suc h) root ≡ some u
    → Returns s h
        (gather (is_inner s) u out)
        (λ f. collect_root (collect_generalizable f) out root s)
unfolding gather
collect_root_total h rec (var v) u s out (l, at) e =
    rw (open_root s.slots h v u (l, at) e) (record {
      store = s;
      runs = λ f lt. rw (level_of_lem v l s at, at) refl;
      walked = Walked-refl s;
    })
collect_root_total h rec (con c ts) u s out r e =
    let (us, same, es) = deep-con s.slots h c ts u e in
    let all = collect_args_total h rec ts us s out es in
    rw same (record { store = all.store; runs = all.runs; walked = all.walked })

collect_total : (h : ℕ) → Collects h
unfolding deep collect_generalizable
collect_total zero s t u out e = absurd (cc)
collect_total (suc h) s t u out e =
    let r = resolve_total (suc h) s t u e in
    let w : Walked s r.store = record { keeps = r.keeps; levels = r.levels; level = r.level } in
    let a = collect_root_total h (collect_total h) r.root u r.store out r.at_root r.means in
    record {
      store = a.store;
      runs = elim [
        | zero ↦ λ lt. absurd (omega arith)
        | suc f ↦ λ lt. rw (r.runs f (omega arith), ← Walked-is_inner w) (a.runs f (omega arith))
      ];
      walked = Walked-trans w a.walked;
    }

abbrev pub IsDistinct : List ℕ → Type 0
IsDistinct [] = Unit
IsDistinct (x ∷ xs) = (contains x xs ≡ false) × IsDistinct xs

contains-push : (x v : ℕ) (xs : List ℕ) → contains x (xs ++ v ∷ []) ≡ contains x xs || (v == x)
contains-push x v [] = ground arith
contains-push x v (y ∷ ys) = ground (arith, contains-push x v ys)

IsDistinct-push :
    (v : ℕ) (xs : List ℕ) → contains v xs ≡ false → IsDistinct xs → IsDistinct (xs ++ v ∷ [])
IsDistinct-push v [] e d = (refl, tt)
IsDistinct-push v (y ∷ ys) e (e', d) =
    let apart : (v == y) ≡ false = ground arith in
    let rest : contains v ys ≡ false = ground arith in
    (contains-push y v ys ∙ rw (e', apart) refl, IsDistinct-push v ys rest d)

push_new_lem :
    (b : Bool) (x v : ℕ) (out : List ℕ)
    → contains x (push_new b v out) ≡ contains x out || b && (v == x)
push_new_lem b x v out = ground (arith, contains-push x v out)

push_new-IsDistinct :
    (b : Bool) (v : ℕ) (out : List ℕ) → IsDistinct out → IsDistinct (push_new b v out)
push_new-IsDistinct false v out d = d
push_new-IsDistinct true v out d = elim (Bool-cases (contains v out)) [
  | inl old ↦ rw old d
  | inr new ↦ rw new (IsDistinct-push v out new d)
]

or_and : (o w a b m n : Bool) → m ≡ o || w && a → n ≡ m || w && b → n ≡ o || w && (a || b)
or_and true w a b m n e e' = ground arith
or_and false true a b m n e e' = ground arith
or_and false false a b m n e e' = ground arith

module _ (wanted : ℕ → Bool) where
  mutual
    unfolding gather has_var

    contains-gather :
        (x : ℕ) (u : Ty) (out : List ℕ)
        → contains x (gather wanted u out) ≡ contains x out || wanted x && has_var x u
    contains-gather x (var v) out = elim (Bool-cases (v == x)) [
      | inl hit ↦ let same = ==→≡ v x hit in rw (push_new_lem (wanted v) x v out, hit, same) refl
      | inr miss ↦ ground (arith, push_new_lem (wanted v) x v out)
    ]
    contains-gather x (con c ts) out = contains-gather_args x ts out

    contains-gather_args :
        (x : ℕ) (us : Args) (out : List ℕ)
        → contains x (gather_args wanted us out) ≡ contains x out || wanted x && has_var_args x us
    contains-gather_args x nil out = ground arith
    contains-gather_args x (cons a ts) out =
        or_and (contains x out) (wanted x) (has_var x a) (has_var_args x ts) _ _
          (contains-gather x a out) (contains-gather_args x ts (gather wanted a out))

  mutual
    unfolding gather

    gather-IsDistinct : (u : Ty) (out : List ℕ) → IsDistinct out → IsDistinct (gather wanted u out)
    gather-IsDistinct (var v) out d = push_new-IsDistinct (wanted v) v out d
    gather-IsDistinct (con c ts) out d = gather_args-IsDistinct ts out d

    gather_args-IsDistinct :
        (us : Args) (out : List ℕ) → IsDistinct out → IsDistinct (gather_args wanted us out)
    gather_args-IsDistinct nil out d = d
    gather_args-IsDistinct (cons a ts) out d =
        gather_args-IsDistinct ts (gather wanted a out) (gather-IsDistinct a out d)

-- With fuel above the depth of a type that the store gives a meaning, `generalize` returns the type
-- with the variables to quantify: those of its meaning whose level is further in than the store's,
-- each once. Every type keeps its meaning, every variable its level, and the level stays.
pub generalize_total :
    (h : ℕ) (s : TypeStore) (t u : Ty)
    → deep s.slots h t ≡ some u
    → (vars : List ℕ) × Returns s h (record { vars = vars; ty = t }) (λ f. generalize f t s)
      × ((v : ℕ) → contains v vars ≡ is_inner s v && has_var v u)
      × IsDistinct vars
unfolding generalize
generalize_total h s t u e =
    let c = collect_total h s t u [] e in
    (
      gather (is_inner s) u [],
      record { store = c.store; runs = λ f lt. rw (c.runs f lt) refl; walked = c.walked },
      λ v. contains-gather (is_inner s) v u [],
      gather-IsDistinct (is_inner s) u [] tt,
    )
