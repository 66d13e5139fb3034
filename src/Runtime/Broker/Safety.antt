-- ===== src/Runtime/Broker/Safety.antt =====
-- How the tables of the broker of crates/wsharp-runtime/src/broker.rs fit together.
use Prim.Native.String.{String}
use wsharp.Prelude.{
  ℕ, zero, suc, ◌≤◌, ◌≡◌, sym, ◌∙◌, ap, ◌⊎◌, inl, inr, some, List, [], ◌∷◌, ◌++◌, arith, ◌==◌, ==→≡,
  ==→≢, length, get_elem?, set, Bool-cases, lt-length, get_elem?-set_self, get_elem?-set_ne,
  get_elem?-push_old, push_cases, some_inj,
}
use wsharp.Runtime.Broker.{Topic, Consumer, Broker, committed}

-- A topic has a partition, and each group's offsets are one for each partition.
pub record IsTopic {ℓ} {W : Type ℓ} (t : Topic W) : Type 0 where
  pub some_partition : 1 ≤ length t.partitions
  pub widths :
      (g : String) (at : List ℕ) → committed g t.groups ≡ some at → length at ≡ length t.partitions

abbrev pub Fits {ℓ} : {W : Type ℓ} → List (Topic W) → Consumer → Type ℓ
Fits {W} topics c =
    (t : Topic W) × (get_elem? topics c.topic ≡ some t) × (length c.position ≡ length t.partitions)

pub record IsValid {ℓ} {W : Type ℓ} (b : Broker W) : Type ℓ where
  pub topics : (i : ℕ) (t : Topic W) → get_elem? b.topics i ≡ some t → IsTopic t
  pub consumers : (i : ℕ) (c : Consumer) → get_elem? b.consumers i ≡ some c → Fits b.topics c

module _ {ℓ} {A : Type ℓ} where
  -- A list that was written to holds old elements and the new one.
  set_cases :
      (xs : List A) (i j : ℕ) (x y : A)
      → get_elem? (set xs i x) j ≡ some y
      → (get_elem? xs j ≡ some y) ⊎ (y ≡ x)
  set_cases [] i j x y e = inl e
  set_cases (z ∷ xs) zero zero x y e = inr (ground arith)
  set_cases (z ∷ xs) zero (suc j) x y e = inl e
  set_cases (z ∷ xs) (suc i) zero x y e = inl e
  set_cases (z ∷ xs) (suc i) (suc j) x y e = set_cases xs i j x y e

module _ {ℓ} {W : Type ℓ} where
  pub Fits-push :
      (topics : List (Topic W)) (t : Topic W) (c : Consumer)
      → Fits topics c
      → Fits (topics ++ t ∷ []) c
  Fits-push topics t c (u, at, n) =
      (u, get_elem?-push_old topics t c.topic (lt-length topics c.topic u at) ∙ at, n)

  -- A topic is replaced by one of the same width.
  pub Fits-set :
      (topics : List (Topic W)) (i : ℕ) (t u : Topic W) (c : Consumer)
      → get_elem? topics i ≡ some t
      → length u.partitions ≡ length t.partitions
      → Fits topics c
      → Fits (set topics i u) c
  Fits-set topics i t u c at same (v, at', n) = elim (Bool-cases (i == c.topic)) [
    | inl hit ↦
        let e = ==→≡ i c.topic hit in
        let old : v ≡ t = some_inj _ _ (sym at' ∙ (ap (get_elem? topics) (sym e) ∙ at)) in
        (
          u,
          ap (get_elem? (set topics i u)) (sym e)
              ∙ get_elem?-set_self topics i u (lt-length topics i t at),
          n ∙ (ap (λ (w : Topic W). length w.partitions) old ∙ sym same),
        )
    | inr miss ↦ (v, get_elem?-set_ne topics u (==→≢ i c.topic miss) ∙ at', n)
  ]

  pub IsValid-push_topic :
      (b : Broker W) (t : Topic W)
      → IsValid b
      → IsTopic t
      → IsValid (record b { topics = b.topics ++ t ∷ [] })
  IsValid-push_topic b t v new = record {
    topics = λ i u e. elim (push_cases b.topics t u i e) [
      | inl old ↦ v.topics i u old
      | inr same ↦ rw same new
    ];
    consumers = λ i c e. Fits-push b.topics t c (v.consumers i c e);
  }

  pub IsValid-set_topic :
      (b : Broker W) (i : ℕ) (t u : Topic W)
      → IsValid b
      → get_elem? b.topics i ≡ some t
      → length u.partitions ≡ length t.partitions
      → IsTopic u
      → IsValid (record b { topics = set b.topics i u })
  IsValid-set_topic b i t u v at same new = record {
    topics = λ j w e. elim (set_cases b.topics i j u w e) [
      | inl old ↦ v.topics j w old
      | inr e' ↦ rw e' new
    ];
    consumers = λ j c e. Fits-set b.topics i t u c at same (v.consumers j c e);
  }

  pub IsValid-push_consumer :
      (b : Broker W) (c : Consumer)
      → IsValid b
      → Fits b.topics c
      → IsValid (record b { consumers = b.consumers ++ c ∷ [] })
  IsValid-push_consumer b c v fits = record {
    topics = v.topics;
    consumers = λ i d e. elim (push_cases b.consumers c d i e) [
      | inl old ↦ v.consumers i d old
      | inr same ↦ rw same fits
    ];
  }

  pub IsValid-set_consumer :
      (b : Broker W) (i : ℕ) (c : Consumer)
      → IsValid b
      → Fits b.topics c
      → IsValid (record b { consumers = set b.consumers i c })
  IsValid-set_consumer b i c v fits = record {
    topics = v.topics;
    consumers = λ j d e. elim (set_cases b.consumers i j c d e) [
      | inl old ↦ v.consumers j d old
      | inr same ↦ rw same fits
    ];
  }
