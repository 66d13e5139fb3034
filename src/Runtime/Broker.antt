-- ===== src/Runtime/Broker.antt =====
-- The message broker, crates/wsharp-runtime/src/broker.rs: each exported function is the closure that
-- it runs under the broker's lock. A message is a value that the broker never looks into; taking it
-- out of a heap and building it in another are the caller's. The outer `none` is a panic. Only the
-- allocation whose size a program chooses, the partitions of a topic, is checked for its size.
pub mod Logs
pub mod Safety
pub mod Steps
pub mod Delivery
mod Tests
use Prim.Native.Nat.{bit_xor}
use Prim.Native.String.{String}
use text.Mathlib.Text.{◌==◌ as str_eq}
use wsharp.Prelude.{
  ℕ, zero, suc, ◌+◌, ◌-◌, ◌*◌, ◌%◌, ◌^◌, max, Bool, true, false, Option, none, some, List, [], ◌∷◌,
  ◌++◌, ltb, if◌then◌else◌, length, get_elem?, set, replicate,
}
use wsharp.Prelude.Int.{ℤ, pos, negsuc, as_usize, or_zero}

module _ {ℓ} (W : Type ℓ) where
  pub record Topic : Type ℓ where
    pub name : String
    pub partitions : List (List W)
    pub groups : List (String × List ℕ)

pub record Consumer : Type 0 where
  pub topic : ℕ
  pub group : String
  pub position : List ℕ

pub record Broker {ℓ} (W : Type ℓ) : Type ℓ where
  pub topics : List (Topic W)
  pub consumers : List Consumer

-- FNV-1a, over the bytes of a key.
unfoldable pub fnv : ℕ → List ℕ → ℕ
fnv hash [] = hash
fnv hash (byte ∷ key) = fnv ((bit_xor hash byte * 0x0000_0100_0000_01b3) % 2 ^ 64) key

unfoldable pub partition_of : List ℕ → ℕ → ℕ
unfolding fnv
partition_of key partitions = fnv 0xcbf2_9ce4_8422_2325 key % max partitions 1

-- `HashMap::get` and `insert` on the committed offsets.
abbrev pub committed : String → List (String × List ℕ) → Option (List ℕ)
committed g [] = none
committed g ((k, at) ∷ rest) = if str_eq k g then some at else committed g rest

abbrev pub insert : String → List ℕ → List (String × List ℕ) → List (String × List ℕ)
insert g at [] = (g, at) ∷ []
insert g at ((k, old) ∷ rest) =
    let more = insert g at rest in if str_eq k g then (g, at) ∷ rest else (k, old) ∷ more

-- One place further, in what is found in the tail of a list.
abbrev pub shifted : Option ℕ → Option ℕ
shifted none = none
shifted (some i) = some (suc i)

-- `partitions.max(1) as usize`.
abbrev pub at_least_one : ℤ → ℕ
at_least_one n = max (or_zero n) 1

-- `isize::MAX` and the size of a `Vec`, where a pointer has 64 bits.
abbrev pub isize_max : ℕ
isize_max = 2 ^ 63 - 1

abbrev pub size_of_vec : ℕ
size_of_vec = 24

-- The search of `poll`: the first partition with a message past the position. The outer `none` is
-- an index past the end of `position`.
abbrev pub in_front : Bool → Option (Option ℕ) → Option (Option ℕ)
in_front true later = some (some 0)
in_front false none = none
in_front false (some found) = some (shifted found)

-- The message that `poll` takes, if any, and the broker after it.
abbrev pub Polled {ℓ} : Type ℓ → Type ℓ
Polled W = Option (Option W × Broker W)

module _ {ℓ} {W : Type ℓ} where
  abbrev pub find_topic : String → List (Topic W) → Option ℕ
  find_topic name [] = none
  find_topic name (t ∷ ts) =
      let later = shifted (find_topic name ts) in if str_eq t.name name then some 0 else later

  abbrev pub first_unread : List (List W) → List ℕ → Option (Option ℕ)
  first_unread [] position = some none
  first_unread (log ∷ logs) [] = none
  first_unread (log ∷ logs) (p ∷ position) =
      let later = first_unread logs position in in_front (ltb p (length log)) later

  -- `collect` panics when the vectors of the partitions would take more than `isize::MAX` bytes.
  abbrev found_topic : String → ℕ → Broker W → Option ℕ → Option (Broker W × ℤ)
  found_topic name count b (some at) = some (b, pos at)
  found_topic name count b none =
      if ltb isize_max (count * size_of_vec)
      then none
      else some (
        record b {
          topics =
              b.topics ++ record { name = name; partitions = replicate count []; groups = [] } ∷ [];
        },
        pos (length b.topics),
      )

  unfoldable pub ws_broker_topic : String → ℤ → Broker W → Option (Broker W × ℤ)
  ws_broker_topic name partitions b =
      found_topic name (at_least_one partitions) b (find_topic name b.topics)

  -- Push onto the log at `at` of topic `i`.
  abbrev pub pushed : ℕ → Topic W → ℕ → W → Broker W → Option (List W) → Option (Broker W × ℤ)
  pushed i t at wire b none = none
  pushed i t at wire b (some log) = some (
    record b {
      topics = set b.topics i (record t { partitions = set t.partitions at (log ++ wire ∷ []) });
    },
    pos at,
  )

  abbrev pub published : ℕ → List ℕ → W → Broker W → Option (Topic W) → Option (Broker W × ℤ)
  published i key wire b none = some (b, negsuc 0)
  published i key wire b (some t) =
      let at = partition_of key (length t.partitions) in
      pushed i t at wire b (get_elem? t.partitions at)

  unfoldable pub ws_broker_publish : ℤ → List ℕ → W → Broker W → Option (Broker W × ℤ)
  ws_broker_publish topic key wire b =
      published (as_usize topic) key wire b (get_elem? b.topics (as_usize topic))

  -- `entry(group).or_insert_with(|| vec![0; width]).clone()`, by what the group had.
  abbrev pub joined : ℕ → Topic W → String → Broker W → Option (List ℕ) → Broker W × ℤ
  joined i t group b (some at) = (
    record b { consumers = b.consumers ++ record { topic = i; group = group; position = at } ∷ [] },
    pos (length b.consumers),
  )
  joined i t group b none =
      let start = replicate (length t.partitions) 0 in
      (
        record b {
          topics = set b.topics i (record t { groups = insert group start t.groups });
          consumers = b.consumers ++ record { topic = i; group = group; position = start } ∷ [];
        },
        pos (length b.consumers),
      )

  abbrev pub subscribed : ℕ → String → Broker W → Option (Topic W) → Broker W × ℤ
  subscribed i group b none = (b, negsuc 0)
  subscribed i group b (some t) = joined i t group b (committed group t.groups)

  unfoldable pub ws_broker_subscribe : ℤ → String → Broker W → Broker W × ℤ
  ws_broker_subscribe topic group b =
      subscribed (as_usize topic) group b (get_elem? b.topics (as_usize topic))

  abbrev pub advanced : ℕ → Consumer → ℕ → ℕ → Broker W → Option W → Polled W
  advanced i c at p b none = none
  advanced i c at p b (some wire) = some (
    some wire,
    record b { consumers = set b.consumers i (record c { position = set c.position at (p + 1) }) },
  )

  abbrev pub taken : ℕ → Consumer → ℕ → Broker W → Option (List W) → Option ℕ → Polled W
  taken i c at b none p = none
  taken i c at b (some log) none = none
  taken i c at b (some log) (some p) = advanced i c at p b (get_elem? log p)

  abbrev pub polled_at : ℕ → Consumer → Topic W → Broker W → Option (Option ℕ) → Polled W
  polled_at i c t b none = none
  polled_at i c t b (some none) = some (none, b)
  polled_at i c t b (some (some at)) =
      taken i c at b (get_elem? t.partitions at) (get_elem? c.position at)

  abbrev pub polled_topic : ℕ → Consumer → Broker W → Option (Topic W) → Polled W
  polled_topic i c b none = some (none, b)
  polled_topic i c b (some t) = polled_at i c t b (first_unread t.partitions c.position)

  abbrev pub polled : ℕ → Broker W → Option Consumer → Polled W
  polled i b none = some (none, b)
  polled i b (some c) = polled_topic i c b (get_elem? b.topics c.topic)

  unfoldable pub ws_broker_poll : ℤ → Broker W → Polled W
  ws_broker_poll consumer b =
      polled (as_usize consumer) b (get_elem? b.consumers (as_usize consumer))

  abbrev pub commit_to : Consumer → Broker W → Option (Topic W) → Broker W
  commit_to c b none = b
  commit_to c b (some t) = record b {
    topics = set b.topics c.topic (record t { groups = insert c.group c.position t.groups });
  }

  abbrev pub commit_by : Broker W → Option Consumer → Broker W
  commit_by b none = b
  commit_by b (some c) = commit_to c b (get_elem? b.topics c.topic)

  unfoldable pub ws_broker_commit : ℤ → Broker W → Broker W
  ws_broker_commit consumer b = commit_by b (get_elem? b.consumers (as_usize consumer))

  -- `get_mut` past the end of `position` changes nothing, as `set` does.
  abbrev pub seek_by : ℕ → ℤ → ℤ → Broker W → Option Consumer → Broker W
  seek_by i partition offset b none = b
  seek_by i partition offset b (some c) = record b {
    consumers =
        set b.consumers i
          (record c { position = set c.position (or_zero partition) (or_zero offset) });
  }

  unfoldable pub ws_broker_seek : ℤ → ℤ → ℤ → Broker W → Broker W
  ws_broker_seek consumer partition offset b =
      seek_by (as_usize consumer) partition offset b (get_elem? b.consumers (as_usize consumer))

  abbrev pub total : List (List W) → ℕ
  total [] = 0
  total (log ∷ logs) = length log + total logs

  abbrev pub held : Option (Topic W) → ℕ
  held none = 0
  held (some t) = total t.partitions

  unfoldable pub ws_broker_len : ℤ → Broker W → ℕ
  ws_broker_len topic b = held (get_elem? b.topics (as_usize topic))
