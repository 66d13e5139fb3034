-- ===== src/Runtime/Broker/Steps.antt =====
-- Sequences of calls of the broker of crates/wsharp-runtime/src/broker.rs.
use Prim.Native.String.{String}
use text.Mathlib.Text.{◌==◌ as str_eq}
use wsharp.Prelude.{
  ℕ, ◌+◌, ◌*◌, ◌≤◌, ◌≡◌, refl, sym, ◌∙◌, inl, inr, false, Option, none, some, List, [], ◌∷◌, ◌++◌,
  arith, ltb, length, get_elem?, set, replicate, Bool-cases, Option-cases, length-set,
  length-replicate, get_elem?-lt,
}
use wsharp.Prelude.Int.{ℤ, pos, negsuc, as_usize, or_zero}
use wsharp.Runtime.Broker.{
  Topic, Consumer, Broker, committed, insert, partition_of, find_topic, at_least_one,
  ws_broker_topic, ws_broker_publish, ws_broker_subscribe, ws_broker_poll, ws_broker_commit,
  ws_broker_seek, isize_max, size_of_vec,
}
use wsharp.Runtime.Broker.Logs.{committed-insert, partition_of-lt, first_unread_lem, IsFirst-get}
use wsharp.Runtime.Broker.Safety.{
  IsTopic, IsValid, Fits-set, IsValid-push_topic, IsValid-set_topic, IsValid-push_consumer,
  IsValid-set_consumer,
}

-- A number of partitions whose vectors take at most `isize::MAX` bytes, 24 for each.
abbrev pub Fewer : ℤ → Type 0
Fewer partitions = or_zero partitions ≤ 384_307_168_202_282_325

few_fits :
    (partitions : ℤ)
    → Fewer partitions
    → ltb isize_max (at_least_one partitions * size_of_vec) ≡ false
few_fits partitions few = ground arith

module _ {ℓ} {W : Type ℓ} where
  -- Committing offsets of the topic's width.
  pub IsTopic-insert :
      (t : Topic W) (g : String) (at : List ℕ)
      → IsTopic t
      → length at ≡ length t.partitions
      → IsTopic (record t { groups = insert g at t.groups })
  IsTopic-insert t g at v n = record {
    some_partition = v.some_partition;
    widths = λ h at' e. elim (Bool-cases (str_eq g h)) [
      | inl hit ↦ ground (arith, committed-insert g h at t.groups)
      | inr miss ↦ v.widths h at' (rw (committed-insert g h at t.groups, miss) at e)
    ];
  }

  none_yet : List W
  none_yet = []

  topic-IsValid :
      (b : Broker W) (name : String) (partitions : ℤ)
      → IsValid b
      → Fewer partitions
      → (b' : Broker W) × (at : ℤ) × (ws_broker_topic name partitions b ≡ some (b', at))
        × IsValid b'
  unfolding ws_broker_topic none_yet
  topic-IsValid b name partitions v few = elim (Option-cases (find_topic name b.topics)) [
    | inl missing ↦
        let count = at_least_one partitions in
        let small : ltb isize_max (count * size_of_vec) ≡ false = few_fits partitions few in
        let new : Topic W = record {
          name = name;
          partitions = replicate count none_yet;
          groups = [];
        } in
        (
          record b { topics = b.topics ++ new ∷ [] },
          pos (length b.topics),
          rw (missing, small) refl,
          IsValid-push_topic b new v (record {
            some_partition = omega (arith, length-replicate count none_yet);
            widths = λ g at e. absurd (cc);
          }),
        )
    | inr (at, found) ↦ (b, pos at, rw found refl, v)
  ]

  publish-IsValid :
      (b : Broker W) (topic : ℤ) (key : List ℕ) (wire : W)
      → IsValid b
      → (b' : Broker W) × (at : ℤ) × (ws_broker_publish topic key wire b ≡ some (b', at))
        × IsValid b'
  unfolding ws_broker_publish
  publish-IsValid b topic key wire v = elim (Option-cases (get_elem? b.topics (as_usize topic))) [
    | inl missing ↦ (b, negsuc 0, rw missing refl, v)
    | inr (t, found) ↦
        let i = as_usize topic in
        let at = partition_of key (length t.partitions) in
        let ok = v.topics i t found in
        let (log, here) =
          get_elem?-lt t.partitions at
            (partition_of-lt key (length t.partitions) ok.some_partition) in
        let new : Topic W = record t { partitions = set t.partitions at (log ++ wire ∷ []) } in
        let same : length new.partitions ≡ length t.partitions = length-set t.partitions at _ in
        (
          record b { topics = set b.topics i new },
          pos at,
          rw (found, here) refl,
          IsValid-set_topic b i t new v found same (record {
            some_partition = rw same ok.some_partition;
            widths = λ g at' e. ok.widths g at' e ∙ sym same;
          }),
        )
  ]

  subscribe-IsValid :
      (b : Broker W) (topic : ℤ) (group : String)
      → IsValid b
      → IsValid (ws_broker_subscribe topic group b).0
  unfolding ws_broker_subscribe
  subscribe-IsValid b topic group v = elim (Option-cases (get_elem? b.topics (as_usize topic))) [
    | inl missing ↦ rw missing v
    | inr (t, found) ↦
        let i = as_usize topic in
        let ok = v.topics i t found in
        elim (Option-cases (committed group t.groups)) [
          | inr (at, had) ↦
              rw (found, had) (IsValid-push_consumer b _ v (t, found, ok.widths group at had))
          | inl fresh ↦
              let start = replicate (length t.partitions) 0 in
              let width : length start ≡ length t.partitions =
                length-replicate (length t.partitions) 0 in
              let u : Topic W = record t { groups = insert group start t.groups } in
              let v' =
                IsValid-set_topic b i t u v found refl (IsTopic-insert t group start ok width) in
              rw (found, fresh)
                (IsValid-push_consumer (record b { topics = set b.topics i u }) _ v'
                  (Fits-set b.topics i t u (record { topic = i; group = group; position = start })
                    found refl (t, found, width)))
        ]
  ]

  poll-IsValid :
      (b : Broker W) (consumer : ℤ)
      → IsValid b
      → (b' : Broker W) × (m : Option W) × (ws_broker_poll consumer b ≡ some (m, b')) × IsValid b'
  unfolding ws_broker_poll
  poll-IsValid b consumer v = elim (Option-cases (get_elem? b.consumers (as_usize consumer))) [
    | inl missing ↦ (b, none, rw missing refl, v)
    | inr (c, found) ↦
        let (t, there, n) = v.consumers (as_usize consumer) c found in
        elim (first_unread_lem t.partitions c.position n) [
          | inl (e, all) ↦ (b, none, rw (found, there, e) refl, v)
          | inr (at, e, first) ↦
              let (log, p, el, ep, lt) = IsFirst-get t.partitions c.position at first in
              let (wire, ew) = get_elem?-lt log p lt in
              let d : Consumer = record c { position = set c.position at (p + 1) } in
              (
                record b { consumers = set b.consumers (as_usize consumer) d },
                some wire,
                rw (found, there, e, el, ep, ew) refl,
                IsValid-set_consumer b (as_usize consumer) d v
                    (t, there, length-set c.position at (p + 1) ∙ n),
              )
        ]
  ]

  commit-IsValid : (b : Broker W) (consumer : ℤ) → IsValid b → IsValid (ws_broker_commit consumer b)
  unfolding ws_broker_commit
  commit-IsValid b consumer v = elim (Option-cases (get_elem? b.consumers (as_usize consumer))) [
    | inl missing ↦ rw missing v
    | inr (c, found) ↦
        let (t, there, n) = v.consumers (as_usize consumer) c found in
        rw (found, there)
          (IsValid-set_topic b c.topic t _ v there refl
            (IsTopic-insert t c.group c.position (v.topics c.topic t there) n))
  ]

  seek-IsValid :
      (b : Broker W) (consumer partition offset : ℤ)
      → IsValid b
      → IsValid (ws_broker_seek consumer partition offset b)
  unfolding ws_broker_seek
  seek-IsValid b consumer partition offset v =
      elim (Option-cases (get_elem? b.consumers (as_usize consumer))) [
        | inl missing ↦ rw missing v
        | inr (c, found) ↦
            let (t, there, n) = v.consumers (as_usize consumer) c found in
            rw found (
              IsValid-set_consumer b (as_usize consumer) _ v
                (t, there, length-set c.position (or_zero partition) (or_zero offset) ∙ n))
      ]

-- One call from a program, of any worker: the broker's lock makes the calls a sequence.
pub data Call {ℓ} (W : Type ℓ) : Type ℓ where
  topic : String → ℤ → Call W
  publish : ℤ → List ℕ → W → Call W
  subscribe : ℤ → String → Call W
  poll commit : ℤ → Call W
  seek : ℤ → ℤ → ℤ → Call W

abbrev pub after {ℓ κ} : {A : Type ℓ} {B : Type κ} → Option A → (A → B) → Option B
after none f = none
after (some a) f = some (f a)

module _ {ℓ} {W : Type ℓ} where
  unfoldable pub call : Call W → Broker W → Option (Broker W)
  call (topic name partitions) b = after (ws_broker_topic name partitions b) (λ r. r.0)
  call (publish i key wire) b = after (ws_broker_publish i key wire b) (λ r. r.0)
  call (subscribe i group) b = some (ws_broker_subscribe i group b).0
  call (poll i) b = after (ws_broker_poll i b) (λ r. r.1)
  call (commit i) b = some (ws_broker_commit i b)
  call (seek i partition offset) b = some (ws_broker_seek i partition offset b)

  abbrev pub go_on : Option (Broker W) → (Broker W → Option (Broker W)) → Option (Broker W)
  go_on none k = none
  go_on (some b) k = k b

  unfoldable pub calls : List (Call W) → Broker W → Option (Broker W)
  calls [] b = some b
  calls (c ∷ cs) b = go_on (call c b) (calls cs)

  -- A call that asks for no more partitions than `Fewer` allows.
  abbrev pub AsksFewer : Call W → Type 0
  AsksFewer (topic name partitions) = Fewer partitions
  AsksFewer _ = Unit

  abbrev pub AllAskFewer : List (Call W) → Type 0
  AllAskFewer [] = Unit
  AllAskFewer (c ∷ cs) = AsksFewer c × AllAskFewer cs

  call-IsValid :
      (c : Call W) (b : Broker W)
      → IsValid b
      → AsksFewer c
      → (b' : Broker W) × (call c b ≡ some b') × IsValid b'
  unfolding call
  call-IsValid (topic name partitions) b v few =
      let (b', at, e, v') = topic-IsValid b name partitions v few in (b', rw e refl, v')
  call-IsValid (publish i key wire) b v few =
      let (b', at, e, v') = publish-IsValid b i key wire v in (b', rw e refl, v')
  call-IsValid (subscribe i group) b v few = (_, refl, subscribe-IsValid b i group v)
  call-IsValid (poll i) b v few = let (b', m, e, v') = poll-IsValid b i v in (b', rw e refl, v')
  call-IsValid (commit i) b v few = (_, refl, commit-IsValid b i v)
  call-IsValid (seek i partition offset) b v few = (_, refl, seek-IsValid b i partition offset v)

  -- From a broker whose tables fit, no sequence of calls panics in which each call for a topic asks for
  -- at most 384307168202282325 partitions, whose vectors take no more than `isize::MAX` bytes, and the
  -- tables fit at its end: each topic has a partition, each group and each consumer has one offset for
  -- each partition of its topic.
  pub calls-IsValid :
      (cs : List (Call W)) (b : Broker W)
      → IsValid b
      → AllAskFewer cs
      → (b' : Broker W) × (calls cs b ≡ some b') × IsValid b'
  unfolding calls
  calls-IsValid [] b v all = (b, refl, v)
  calls-IsValid (c ∷ cs) b v (few, all) =
      let (m, e, v') = call-IsValid c b v few in
      let (b', e', v'') = calls-IsValid cs m v' all in (b', rw e e', v'')

  -- The broker before any call.
  abbrev pub empty : Broker W
  empty = record { topics = []; consumers = [] }

  pub empty-IsValid : IsValid empty
  empty-IsValid = record { topics = λ i t e. absurd (cc); consumers = λ i c e. absurd (cc) }
