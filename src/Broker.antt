-- ===== src/Broker.antt =====
-- The broker of unyport/backend/sse/broker.go: the ring of the last snapshots and the clients of
-- the event stream. Its mutex makes each operation one step. A snapshot comes with its scales.
pub mod Ring
pub mod Versions
pub mod Reboots
pub mod Scales
use unyport.Common.{
  ℕ, suc, ◌+◌, ◌-◌, ◌%◌, Bool, true, false, Option, none, some, List, [], ◌∷◌, ◌++◌, map, ltb,
  nat_eq, length, if◌then◌else◌,
}

abbrev pub ring_size : ℕ
ring_size = 60

-- The capacity of a client's channel.
abbrev pub channel_size : ℕ
channel_size = 4

-- A client's channel, by its identity, with the snapshots that wait in it.
pub record Client {ℓ} (A : Type ℓ) : Type ℓ where
  pub id : ℕ
  pub queue : List A

pub record Broker {ℓ} (A : Type ℓ) : Type ℓ where
  pub ring : ℕ → A
  pub head : ℕ
  pub count : ℕ
  pub clients : List (Client A)

module _ {ℓ} {A : Type ℓ} where
  -- NewBroker; `zero_snapshot` is what the array holds at first.
  unfoldable pub new_broker : A → Broker A
  new_broker zero_snapshot = record { ring = λ i. zero_snapshot; head = 0; count = 0; clients = [] }

  unfoldable pub write : ℕ → A → (ℕ → A) → ℕ → A
  write k a ring i = if nat_eq i k then a else ring i

  -- The send that does not block: a full channel drops the snapshot.
  unfoldable pub offer : A → Client A → Client A
  offer a c =
      if ltb (length c.queue) channel_size then record c { queue = c.queue ++ (a ∷ []) } else c

  -- One round of loop, under the mutex.
  unfoldable pub publish : A → Broker A → Broker A
  publish snap b = record {
    ring = write b.head snap b.ring;
    head = (b.head + 1) % ring_size;
    count = if ltb b.count ring_size then b.count + 1 else b.count;
    clients = map (offer snap) b.clients;
  }

  -- The snapshot `i` places before the last one. Go adds ringSize at the end, to the same effect.
  unfoldable pub slot : Broker A → ℕ → A
  slot b i = b.ring ((b.head + ring_size - 1 - i) % ring_size)

  -- What a new client is sent at once, if there is a snapshot.
  unfoldable pub last_snapshot : Broker A → Option A
  unfolding slot
  last_snapshot b = if ltb 0 b.count then some (slot b 0) else none

  -- subscribe
  unfoldable pub subscribe : ℕ → Broker A → Broker A
  subscribe id b = record b { clients = record { id = id; queue = [] } ∷ b.clients }

  abbrev without : ℕ → List (Client A) → List (Client A)
  without id [] = []
  without id (c ∷ cs) = let rest = without id cs in if nat_eq c.id id then rest else c ∷ rest

  -- unsubscribe
  unfoldable pub unsubscribe : ℕ → Broker A → Broker A
  unsubscribe id b = record b { clients = without id b.clients }
