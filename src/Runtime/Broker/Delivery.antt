-- ===== src/Runtime/Broker/Delivery.antt =====
-- For what the broker of crates/wsharp-runtime/src/broker.rs delivers.

use text.Mathlib.TextPositions.{eq_refl}
use wsharp.Prelude.{
  ℕ, zero, suc, ◌+◌, ◌≡◌, ◌≢◌, refl, ◌∙◌, ap, ◌⊎◌, inl, inr, none, some, List, [], ◌∷◌, ◌++◌, arith,
  length, get_elem?, set, length-append, lt-length, get_elem?-lt, get_elem?-set_self,
  get_elem?-set_ne, get_elem?-push_last,
}
use wsharp.Prelude.Int.{ℤ, pos, as_usize}
use wsharp.Runtime.Broker.{
  Topic, Consumer, Broker, committed, insert, partition_of, first_unread, total, ws_broker_publish,
  ws_broker_subscribe, ws_broker_poll, ws_broker_commit, ws_broker_len,
}
use wsharp.Runtime.Broker.Logs.{
  committed-insert, partition_of-lt, first_unread_lem, AllRead, IsFirst, IsFirst-get,
}
use wsharp.Runtime.Broker.Safety.{IsValid}

module _ {ℓ} {W : Type ℓ} (b : Broker W) (k : ℤ) (c : Consumer) (t : Topic W)
    (found : get_elem? b.consumers (as_usize k) ≡ some c)
    (there : get_elem? b.topics c.topic ≡ some t) where
  -- The broker after the message at `p` of partition `at` is taken.
  abbrev pub moved : ℕ → ℕ → Broker W
  moved at p = record b {
    consumers = set b.consumers (as_usize k) (record c { position = set c.position at (p + 1) });
  }

  pub record Takes : Type ℓ where
    pub at : ℕ
    pub p : ℕ
    pub log : List W
    pub wire : W
    pub first : IsFirst t.partitions c.position at
    pub in_log : get_elem? t.partitions at ≡ some log
    pub reads_at : get_elem? c.position at ≡ some p
    pub message : get_elem? log p ≡ some wire
    pub polls : ws_broker_poll k b ≡ some (some wire, moved at p)

  takes_at :
      (at : ℕ)
      → first_unread t.partitions c.position ≡ some (some at)
      → IsFirst t.partitions c.position at
      → Takes
  unfolding ws_broker_poll
  takes_at at e first =
      let (log, p, el, ep, lt) = IsFirst-get t.partitions c.position at first in
      let (wire, ew) = get_elem?-lt log p lt in
      record {
        at = at;
        p = p;
        log = log;
        wire = wire;
        first = first;
        in_log = el;
        reads_at = ep;
        message = ew;
        polls = rw (found, there, e, el, ep, ew) refl;
      }

  -- On a broker whose tables fit, a consumer that has read every partition to its end gets nothing
  -- and nothing changes; else it gets the message at its position in the first partition that has
  -- one left, and that position alone goes one further.
  pub ws_broker_poll_lem :
      IsValid b → AllRead t.partitions c.position × (ws_broker_poll k b ≡ some (none, b)) ⊎ Takes
  unfolding ws_broker_poll
  ws_broker_poll_lem v =
      let width : length c.position ≡ length t.partitions =
        fits (v.consumers (as_usize k) c found) in
      elim (first_unread_lem t.partitions c.position width) [
        | inl (e, all) ↦ inl (all, rw (found, there, e) refl)
        | inr (at, e, first) ↦ inr (takes_at at e first)
      ]
    where
      fits :
          (u : Topic W) × (get_elem? b.topics c.topic ≡ some u)
            × (length c.position ≡ length u.partitions)
          → length c.position ≡ length t.partitions
      fits (u, e, n) =
          let same : u ≡ t = cc (e, there) in n ∙ ap (λ (w : Topic W). length w.partitions) same

-- A consumer that subscribes to a group after one of the group has committed starts where that one
-- had read to, in every partition.
pub ws_broker_subscribe-commit {ℓ} :
    {W : Type ℓ} (b : Broker W) (k : ℤ) (c : Consumer) (t : Topic W)
    → get_elem? b.consumers (as_usize k) ≡ some c
    → get_elem? b.topics c.topic ≡ some t
    → let r = ws_broker_subscribe (pos c.topic) c.group (ws_broker_commit k b) in
      (r.1 ≡ pos (length b.consumers))
      × (get_elem? r.0.consumers (length b.consumers)
          ≡ some (record { topic = c.topic; group = c.group; position = c.position }))
unfolding ws_broker_subscribe ws_broker_commit
ws_broker_subscribe-commit b k c t found there =
    let new : Topic _ = record t { groups = insert c.group c.position t.groups } in
    let now = get_elem?-set_self b.topics c.topic new (lt-length b.topics c.topic t there) in
    let had : committed c.group (insert c.group c.position t.groups) ≡ some c.position =
      rw (committed-insert c.group c.group c.position t.groups, eq_refl) refl in
    rw (found, there, now, had) (refl, get_elem?-push_last b.consumers _)

-- On a broker whose tables fit, a message for a topic goes to the end of the log of its key's
-- partition. No other log changes, no other topic changes, no consumer or committed offset moves.
ws_broker_publish-appends {ℓ} :
    {W : Type ℓ} (b : Broker W) (i : ℤ) (key : List ℕ) (wire : W) (t : Topic W)
    → IsValid b
    → get_elem? b.topics (as_usize i) ≡ some t
    → (log : List W) × (t' : Topic W) × (get_elem? t.partitions
          (partition_of key (length t.partitions))
        ≡ some log)
      × (t' ≡ record t {
        partitions = set t.partitions (partition_of key (length t.partitions)) (log ++ wire ∷ []);
      })
      × (ws_broker_publish i key wire b
          ≡ some (
            record b { topics = set b.topics (as_usize i) t' },
            pos (partition_of key (length t.partitions)),
          ))
unfolding ws_broker_publish
ws_broker_publish-appends b i key wire t v found =
    let at = partition_of key (length t.partitions) in
    let (log, here) =
      get_elem?-lt t.partitions at (
        partition_of-lt key (length t.partitions) (v.topics (as_usize i) t found).some_partition) in
    (log, _, here, refl, rw (found, here) refl)

total-push :
    {W : Type 0} (logs : List (List W)) (at : ℕ) (log : List W) (wire : W)
    → get_elem? logs at ≡ some log
    → total (set logs at (log ++ wire ∷ [])) ≡ total logs + 1
total-push [] at log wire e = absurd (cc)
total-push (l ∷ logs) zero log wire e =
    let same : l ≡ log = cc in rw same (omega (arith, length-append log (wire ∷ [])))
total-push (l ∷ logs) (suc at) log wire e = omega (arith, total-push logs at log wire e)

-- On a broker whose tables fit, a message for a topic that is there goes to the end of the log of its
-- key's partition, whose number the call returns. No other log, no other topic, no consumer and no
-- committed offset changes, and the length that `ws_broker_len` returns for the topic is one more.
pub ws_broker_publish_lem :
    {W : Type 0} (b : Broker W) (i : ℤ) (key : List ℕ) (wire : W) (t : Topic W)
    → IsValid b
    → get_elem? b.topics (as_usize i) ≡ some t
    → let at = partition_of key (length t.partitions) in
      (log : List W) × (b' : Broker W) × (get_elem? t.partitions at ≡ some log)
      × (ws_broker_publish i key wire b ≡ some (b', pos at))
      × (get_elem? b'.topics (as_usize i)
          ≡ some (record t { partitions = set t.partitions at (log ++ wire ∷ []) }))
      × ((j : ℕ) → as_usize i ≢ j → get_elem? b'.topics j ≡ get_elem? b.topics j)
      × (b'.consumers ≡ b.consumers)
      × (ws_broker_len i b' ≡ ws_broker_len i b + 1)
unfolding ws_broker_len
ws_broker_publish_lem {W} b i key wire t v found =
    let (log, t', here, same, runs) = ws_broker_publish-appends b i key wire t v found in
    let b' : Broker W = record b { topics = set b.topics (as_usize i) t' } in
    let now : get_elem? b'.topics (as_usize i) ≡ some t' =
      get_elem?-set_self b.topics (as_usize i) t' (lt-length b.topics (as_usize i) t found) in
    (
      log,
      b',
      here,
      runs,
      now ∙ ap some same,
      λ j apart. get_elem?-set_ne b.topics t' apart,
      refl,
      rw (now, found)
          (ap (λ (u : Topic W). total u.partitions) same
            ∙ total-push t.partitions (partition_of key (length t.partitions)) log wire here),
    )
