-- ===== src/Sema/Unify/Arguments.antt =====
-- For the loop of `unify` over two argument lists, crates/wsharp-sema/src/ty.rs: each pair meets the
-- store that the pairs before it left.
use wsharp.Prelude.{ℕ, ◌+◌, ◌≤◌, ◌<◌, ◌≡◌, refl, sym, ◌∙◌, ap, ◌⊎◌, inl, inr, some, List, arith}
use wsharp.Sema.Ty.{Ty, Args, var, nil, cons, count_args, subst_ty, subst_args, size, size_args}
use wsharp.Sema.Ty.Subst.{subst-subst, subst_args-subst_args, subst_args_id}
use wsharp.Sema.Store.{Slot, TypeStore, ok}
use wsharp.Sema.Unify.{Unified, done, mismatch, occurs, unify, unify_args}
use wsharp.Sema.Unify.Meaning.{
  deep, deep_mono, deep_args, deep_args-cons, deep_args_mono, open_count,
}
use wsharp.Sema.Unify.Outcome.{Solved, Post, Outcome, Solved-same}

abbrev pub Unifies : Ty → Ty → (ℕ → Ty) → Type 0
Unifies a b τ = subst_ty τ a ≡ subst_ty τ b

abbrev pub UnifiesArgs : Args → Args → (ℕ → Ty) → Type 0
UnifiesArgs ts us τ = subst_args τ ts ≡ subst_args τ us

-- `unify` is right on every store with at most `k` unbound variables and types of size at most `m`.
abbrev pub Right : ℕ → ℕ → Type 0
Right k m =
    (s : TypeStore) (h : ℕ) (a b a' b' : Ty)
    → open_count s.slots ≤ k
    → size a' ≤ m
    → deep s.slots h a ≡ some a'
    → deep s.slots h b ≡ some b'
    → Outcome (Unifies a' b') s (λ f. unify f a b s)

abbrev pub RightBelow : ℕ → ℕ → Type 0
RightBelow k m = (k' m' : ℕ) → (k' < k) ⊎ (k' ≤ k) × (m' ≤ m) → Right k' m'

-- One depth for all arguments.
deep_args_after :
    (slots slots' : List Slot) (θ : ℕ → Ty)
    → ((k : ℕ) (a w : Ty)
        → deep slots k a ≡ some w
        → (j : ℕ) × (deep slots' j a ≡ some (subst_ty θ w)))
    → (h : ℕ) (ts ws : Args) → deep_args (deep slots h) ts ≡ some ws
    → (j : ℕ) × (deep_args (deep slots' j) ts ≡ some (subst_args θ ws))
unfolding subst_ty
deep_args_after slots slots' θ means h nil ws e =
    let same : ws ≡ nil = ground arith in (0, rw same refl)
deep_args_after slots slots' θ means h (cons a ts) ws e =
    let (b, bs, same, ea, es) = deep_args-cons (deep slots h) a ts ws e in
    let (i, first) = means h a b ea in
    let (j, rest) = deep_args_after slots slots' θ means h ts bs es in
    (
      i + j,
      cc (
        same,
        deep_mono slots' i (i + j) a _ (omega arith) first,
        deep_args_mono (deep slots' j) (deep slots' (i + j))
            (λ t u. deep_mono slots' j (i + j) t u (omega arith)) ts _ rest,
      ),
    )

-- The answer for the head, then the one for the tails under it.
module _ (a b : Ty) (ts us : Args) (p q r : List Slot) (one : Solved p q (Unifies a b)) where
  abbrev θ : ℕ → Ty
  θ = one.answer

  tails :
      (τ : ℕ → Ty)
      → UnifiesArgs (cons a ts) (cons b us) τ
      → UnifiesArgs (subst_args θ ts) (subst_args θ us) τ
  unfolding subst_ty
  tails τ e =
      let g = one.general τ (ground arith) in
      subst_args-subst_args θ τ τ g ts ∙ (ground arith ∙ sym (subst_args-subst_args θ τ τ g us))

  Solved-cons :
      Solved q r (UnifiesArgs (subst_args θ ts) (subst_args θ us))
      → Solved p r (UnifiesArgs (cons a ts) (cons b us))
  unfolding subst_ty
  Solved-cons two = record {
    answer = both;
    means = λ k c w e.
        let (j, e') = one.means k c w e in
        let (j', e'') = two.means j c (subst_ty θ w) e' in
        (j', e'' ∙ ap some (subst-subst θ σ both (λ v. refl) w));
    unifies = cc (
      sym (subst-subst θ σ both (λ v. refl) a),
      sym (subst-subst θ σ both (λ v. refl) b),
      ap (subst_ty σ) one.unifies,
      two.unifies,
      sym (subst_args-subst_args θ σ both (λ v. refl) ts),
      sym (subst_args-subst_args θ σ both (λ v. refl) us),
    );
    general = λ τ e v.
        subst-subst σ τ τ (two.general τ (tails τ e)) (θ v) ∙ one.general τ (ground arith) v;
    progress = elim one.progress [
      | inl (id, n) ↦ elim two.progress [
        | inl (id', n') ↦ inl (λ v. ap (subst_ty σ) (id v) ∙ id' v, n' ∙ n)
        | inr lt ↦ inr (omega (arith))
      ]
      | inr lt ↦ elim two.progress [
        | inl (id', n') ↦ inr (omega arith)
        | inr lt' ↦ inr (omega arith)
      ]
    ];
  }
    where
      σ : ℕ → Ty
      σ = two.answer

      both : ℕ → Ty
      both v = subst_ty σ (θ v)

  Post-cons :
      (u : Unified)
      → Post (UnifiesArgs (subst_args θ ts) (subst_args θ us)) q u r
      → Post (UnifiesArgs (cons a ts) (cons b us)) p u r
  Post-cons done two = Solved-cons two
  Post-cons mismatch never = λ τ e. never τ (tails τ e)
  Post-cons occurs never = λ τ e. never τ (tails τ e)

-- What the tails are unified under: the same bounds if the head changed nothing, and any type sizes
-- if it bound a variable.
RightBelow-tails :
    (k m : ℕ) (p q : List Slot) (θ : ℕ → Ty) (ws : Args)
    → RightBelow k m
    → open_count p ≤ k
    → size_args ws ≤ m
    → ((v : ℕ) → θ v ≡ var v) × (open_count q ≡ open_count p) ⊎ (open_count q < open_count p)
    → (k' : ℕ) × (m' : ℕ) × RightBelow k' m'
      × (open_count q ≤ k')
      × (size_args (subst_args θ ws) ≤ m')
RightBelow-tails k m p q θ ws ih hk hm (inl (id, n)) =
    (k, m, ih, omega arith, rw (subst_args_id θ id ws) hm)
RightBelow-tails k m p q θ ws ih hk hm (inr lt) = (
  open_count q,
  size_args (subst_args θ ws),
  λ k' m' c. ih k' m' (inl (elim c [ inl h ↦ omega arith | inr (h, h') ↦ omega arith ])),
  omega arith,
  omega arith,
)

abbrev pub ArgsOutcome : TypeStore → Args → Args → Args → Args → Type 0
ArgsOutcome s ts us ts' us' = Outcome (UnifiesArgs ts' us') s (λ f. unify_args (unify f) ts us s)

-- The run goes on only if the head was unified.
Outcome-cons :
    (s : TypeStore) (a b a' b' : Ty) (ts us ts' us' : Args)
    → Outcome (Unifies a' b') s (λ f. unify f a b s)
    → ((t : TypeStore) (one : Solved s.slots t.slots (Unifies a' b'))
        → ArgsOutcome t ts us (subst_args one.answer ts') (subst_args one.answer us'))
    → ArgsOutcome s (cons a ts) (cons b us) (cons a' ts') (cons b' us')
unfolding subst_ty
Outcome-cons s a b a' b' ts us ts' us' head tail = of_result head.result head.runs head.post
  where
    of_result :
        (u : Unified)
        → ((f : ℕ) → head.fuel ≤ f → unify f a b s ≡ ok (u, head.store))
        → Post (Unifies a' b') s.slots u head.store.slots
        → ArgsOutcome s (cons a ts) (cons b us) (cons a' ts') (cons b' us')
    of_result done runs post =
        let rest = tail head.store post in
        record {
          result = rest.result;
          store = rest.store;
          fuel = head.fuel + rest.fuel;
          runs = λ f le. rw (runs f (omega arith)) (rest.runs f (omega arith));
          post =
              Post-cons a' b' ts' us' s.slots head.store.slots rest.store.slots post rest.result
                rest.post;
        }
    of_result mismatch runs post = record {
      result = mismatch;
      store = head.store;
      fuel = head.fuel;
      runs = λ f le. rw (runs f le) refl;
      post = λ τ e. post τ (ground arith);
    }
    of_result occurs runs post = record {
      result = occurs;
      store = head.store;
      fuel = head.fuel;
      runs = λ f le. rw (runs f le) refl;
      post = λ τ e. post τ (ground arith);
    }

pub args_right :
    (ts us : Args) (k m : ℕ)
    → RightBelow k m
    → (s : TypeStore) (h : ℕ) (ts' us' : Args) → open_count s.slots ≤ k
    → size_args ts' ≤ m
    → count_args ts ≡ count_args us
    → deep_args (deep s.slots h) ts ≡ some ts'
    → deep_args (deep s.slots h) us ≡ some us'
    → ArgsOutcome s ts us ts' us'
unfolding size
args_right nil nil k m ih s h ts' us' hk hm n e e' =
    let same : ts' ≡ us' = ground arith in
    record {
      result = done;
      store = s;
      fuel = 0;
      runs = λ f le. refl;
      post = Solved-same s.slots (ap (subst_args var) same);
    }
args_right nil (cons b us) k m ih s h ts' us' hk hm n e e' = absurd (omega arith)
args_right (cons a ts) nil k m ih s h ts' us' hk hm n e e' = absurd (omega arith)
args_right (cons a ts) (cons b us) k m ih s h ts' us' hk hm n e e' =
    let (a', as', same, ea, es) = deep_args-cons (deep s.slots h) a ts ts' e in
    let (b', bs', same', eb, es') = deep_args-cons (deep s.slots h) b us us' e' in
    let small : size a' + size_args as' ≤ m = rw same at hm in
    rw (same, same')
      (Outcome-cons s a b a' b' ts us as' bs'
        (ih k m (inr (omega arith, omega arith)) s h a b a' b' hk (omega arith) ea eb)
        (λ t one.
          let (k', m', ih', hk', hm') =
            RightBelow-tails k m s.slots t.slots one.answer as' ih hk (omega arith) one.progress in
          let (i, ei) = deep_args_after s.slots t.slots one.answer one.means h ts as' es in
          let (j, ej) = deep_args_after s.slots t.slots one.answer one.means h us bs' es' in
          args_right ts us k' m' ih' t (i + j) _ _ hk' hm' (omega arith)
            (deep_args_mono (deep t.slots i) (deep t.slots (i + j))
              (λ c w. deep_mono t.slots i (i + j) c w (omega arith)) ts _ ei)
            (deep_args_mono (deep t.slots j) (deep t.slots (i + j))
              (λ c w. deep_mono t.slots j (i + j) c w (omega arith)) us _ ej)))
