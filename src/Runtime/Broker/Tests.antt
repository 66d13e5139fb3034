-- ===== src/Runtime/Broker/Tests.antt =====
-- Runs of the broker, and the theorems at these inputs.

use wsharp.Prelude.{
  ℕ, ◌≡◌, refl, none, some, List, [], ◌∷◌, ◌++◌, get_elem?, set, ◌+◌, ◌≢◌, ◌⊎◌, arith, subst,
}
use wsharp.Prelude.Int.{pos}
use wsharp.Runtime.Broker.{
  Topic, Consumer, Broker, partition_of, ws_broker_publish, ws_broker_poll, ws_broker_subscribe,
  ws_broker_commit, ws_broker_topic, ws_broker_len,
}
use wsharp.Runtime.Broker.Logs.{AllRead}
use wsharp.Runtime.Broker.Safety.{IsValid}
use wsharp.Runtime.Broker.Steps.{
  Call, topic, publish, subscribe, poll, call, calls, calls-IsValid, empty, empty-IsValid,
  AllAskFewer,
}
use wsharp.Runtime.Broker.Delivery.{
  Takes, ws_broker_poll_lem, ws_broker_subscribe-commit, ws_broker_publish_lem,
}

-- Two partitions, three messages, and one consumer that has polled once.
abbrev program : List (Call ℕ)
program =
    topic "orders" (pos 2)
    ∷ publish (pos 0) [] 10
    ∷ publish (pos 0) (1 ∷ []) 20
    ∷ publish (pos 0) [] 30
    ∷ subscribe (pos 0) "g"
    ∷ poll (pos 0)
    ∷ []

abbrev orders : Topic ℕ
orders = record {
  name = "orders";
  partitions = (20 ∷ []) ∷ (10 ∷ 30 ∷ []) ∷ [];
  groups = ("g", 0 ∷ 0 ∷ []) ∷ [];
}

abbrev reader : Consumer
reader = record { topic = 0; group = "g"; position = 1 ∷ 0 ∷ [] }

abbrev state : Broker ℕ
state = record { topics = orders ∷ []; consumers = reader ∷ [] }

program_runs : calls program empty ≡ some state
unfolding calls call ws_broker_topic ws_broker_publish ws_broker_subscribe ws_broker_poll
    partition_of
program_runs = refl

few : AllAskFewer program
few = (omega arith, (tt, (tt, (tt, (tt, (tt, tt))))))

-- A topic of 2^60 partitions: the call panics.
topic_runs : ws_broker_topic {W = ℕ} "many" (pos (1_152_921_504_606_846_976)) empty ≡ none
unfolding ws_broker_topic
topic_runs = refl

calls-IsValid_example : (b' : Broker ℕ) × (calls program empty ≡ some b') × IsValid b'
calls-IsValid_example = calls-IsValid program empty empty-IsValid few

state-IsValid : IsValid state
state-IsValid =
    let (b', e, v) = calls-IsValid_runs in
    let same : b' ≡ state = cc (e, program_runs) in subst (λ b. IsValid b) same v
  where
    calls-IsValid_runs : (b' : Broker ℕ) × (calls program empty ≡ some b') × IsValid b'
    calls-IsValid_runs = calls-IsValid program empty empty-IsValid few

ws_broker_poll_lem_example :
    AllRead orders.partitions reader.position × (ws_broker_poll (pos 0) state ≡ some (none, state))
    ⊎ Takes state (pos 0) reader orders refl refl
ws_broker_poll_lem_example = ws_broker_poll_lem state (pos 0) reader orders refl refl state-IsValid

ws_broker_subscribe-commit_example :
    let r = ws_broker_subscribe (pos 0) "g" (ws_broker_commit (pos 0) state) in
    (r.1 ≡ pos 1) × (get_elem? r.0.consumers 1 ≡ some reader)
ws_broker_subscribe-commit_example =
    ws_broker_subscribe-commit state (pos 0) reader orders refl refl

publish_runs :
    ws_broker_publish (pos 0) [] 40 state
    ≡ some (
      record state {
        topics = record orders { partitions = (20 ∷ []) ∷ (10 ∷ 30 ∷ 40 ∷ []) ∷ [] } ∷ [];
      },
      pos 1,
    )
unfolding ws_broker_publish partition_of
publish_runs = refl

ws_broker_publish_lem_example :
    (log : List ℕ) × (b' : Broker ℕ) × (get_elem? orders.partitions (partition_of (1 ∷ []) 2)
      ≡ some log)
    × (ws_broker_publish (pos 0) (1 ∷ []) 50 state ≡ some (b', pos (partition_of (1 ∷ []) 2)))
    × (get_elem? b'.topics 0
        ≡ some (record orders {
          partitions = set orders.partitions (partition_of (1 ∷ []) 2) (log ++ 50 ∷ []);
        }))
    × ((j : ℕ) → 0 ≢ j → get_elem? b'.topics j ≡ get_elem? state.topics j)
    × (b'.consumers ≡ state.consumers)
    × (ws_broker_len (pos 0) b' ≡ ws_broker_len (pos 0) state + 1)
ws_broker_publish_lem_example =
    ws_broker_publish_lem state (pos 0) (1 ∷ []) 50 orders state-IsValid refl
