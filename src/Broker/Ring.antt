-- ===== src/Broker/Ring.antt =====
-- The ring holds the last sixty snapshots.
use unyport.Common.{
  ℕ, zero, suc, ◌+◌, ◌-◌, ◌%◌, ◌<◌, ◌≡◌, ◌≢◌, refl, arith, Option, none, some, List, [], ◌∷◌, ltb,
  nat_eq, length, length-append, ◌≤◌, inl, inr, Bool-cases, All, map, if◌then◌else◌,
}
use unyport.Broker.{
  Client, offer, without, channel_size, Broker, new_broker, publish, slot, last_snapshot, subscribe,
  unsubscribe, write, ring_size,
}

pub data Event {ℓ} (A : Type ℓ) : Type ℓ where
  published : A → Event A
  subscribed unsubscribed : ℕ → Event A

newest_index : (h : ℕ) → h < 60 → ((h + 1) % 60 + 60 - 1 - 0) % 60 ≡ h
newest_index h small = omega arith

older_index :
    (h j : ℕ) → h < 60 → suc j < 60 → ((h + 1) % 60 + 60 - 1 - suc j) % 60 ≡ (h + 60 - 1 - j) % 60
older_index h j small below = omega arith

other_index : (h j : ℕ) → h < 60 → suc j < 60 → (h + 60 - 1 - j) % 60 ≢ h
other_index h j small below e = omega arith

module _ {ℓ} {A : Type ℓ} where
  unfoldable pub step : Broker A → Event A → Broker A
  step b (published a) = publish a b
  step b (subscribed id) = subscribe id b
  step b (unsubscribed id) = unsubscribe id b

  -- The broker after a sequence of events.
  unfoldable pub run : Broker A → List (Event A) → Broker A
  unfolding step
  run b [] = b
  run b (e ∷ rest) = run (step b e) rest

  -- The snapshots that a sequence of events publishes, the newest first, before older ones.
  unfoldable pub history : List A → List (Event A) → List A
  history old [] = old
  history old (published a ∷ rest) = history (a ∷ old) rest
  history old (subscribed id ∷ rest) = history old rest
  history old (unsubscribed id ∷ rest) = history old rest

  unfoldable pub get : ℕ → List A → Option A
  get i [] = none
  get zero (a ∷ as_) = some a
  get (suc i) (a ∷ as_) = get i as_

  -- The broker stands for a history: its ring has the last sixty snapshots of it.
  pub record Holds (b : Broker A) (old : List A) : Type ℓ where
    pub head_small : b.head < ring_size
    pub counted : b.count ≡ (if ltb (length old) ring_size then length old else ring_size)
    pub kept : (i : ℕ) (a : A) → i < ring_size → get i old ≡ some a → slot b i ≡ a
    pub bounded : All (λ c. length c.queue ≤ channel_size) b.clients

  slot-publish :
      (b : Broker A) (snap : A) (old : List A) (i : ℕ) (a : A)
      → Holds b old
      → i < ring_size
      → get i (snap ∷ old) ≡ some a
      → slot (publish snap b) i ≡ a
  unfolding slot publish write get
  slot-publish b snap old zero a h small e = ground (arith, newest_index b.head h.head_small, e)
  slot-publish b snap old (suc j) a h small e = ground (
    arith,
    older_index b.head j h.head_small small,
    other_index b.head j h.head_small small,
    h.kept j a (omega arith) e,
  )

  offer-bounded :
      (snap : A) (cs : List (Client A))
      → All (λ c. length c.queue ≤ channel_size) cs
      → All (λ c. length c.queue ≤ channel_size) (map (offer snap) cs)
  unfolding offer
  offer-bounded snap [] h = tt
  offer-bounded snap (c ∷ cs) (small, h) =
      (ground (arith, small, length-append c.queue (snap ∷ [])), offer-bounded snap cs h)

  without-bounded :
      (id : ℕ) (cs : List (Client A))
      → All (λ c. length c.queue ≤ channel_size) cs
      → All (λ c. length c.queue ≤ channel_size) (without id cs)
  without-bounded id [] h = tt
  without-bounded id (c ∷ cs) (small, h) = elim (Bool-cases (nat_eq c.id id)) [
    | inl gone ↦ rw gone (without-bounded id cs h)
    | inr there ↦ rw there (small, without-bounded id cs h)
  ]

  publish-Holds :
      (b : Broker A) (snap : A) (old : List A) → Holds b old → Holds (publish snap b) (snap ∷ old)
  unfolding publish
  publish-Holds b snap old h = record {
    head_small = omega arith;
    counted = ground (arith, h.counted);
    kept = λ i a small e. slot-publish b snap old i a h small e;
    bounded = offer-bounded snap b.clients h.bounded;
  }

  run-Holds_from :
      (b : Broker A) (old : List A) (events : List (Event A))
      → Holds b old
      → Holds (run b events) (history old events)
  unfolding run step history subscribe unsubscribe slot
  run-Holds_from b old [] h = h
  run-Holds_from b old (published a ∷ rest) h =
      run-Holds_from (publish a b) (a ∷ old) rest (publish-Holds b a old h)
  run-Holds_from b old (subscribed id ∷ rest) h = run-Holds_from (subscribe id b) old rest (record {
    head_small = h.head_small;
    counted = h.counted;
    kept = h.kept;
    bounded = (omega arith, h.bounded);
  })
  run-Holds_from b old (unsubscribed id ∷ rest) h =
      run-Holds_from (unsubscribe id b) old rest (record {
        head_small = h.head_small;
        counted = h.counted;
        kept = h.kept;
        bounded = without-bounded id b.clients h.bounded;
      })

  -- From a new broker, after any sequence of rounds, subscriptions and departures, the ring of
  -- sixty places has the last sixty snapshots, each at its place before the newest, the count is
  -- theirs, and no client has more than four snapshots waiting.
  pub run-Holds :
      (zero_snapshot : A) (events : List (Event A))
      → Holds (run (new_broker zero_snapshot) events) (history [] events)
  unfolding new_broker get
  run-Holds zero_snapshot events = run-Holds_from (new_broker zero_snapshot) [] events (record {
    head_small = omega arith;
    counted = refl;
    kept = λ i a small e. absurd (ground (arith, e));
    bounded = tt;
  })

  first-get : (b : Broker A) (old : List A) → Holds b old → last_snapshot b ≡ get 0 old
  unfolding last_snapshot get
  first-get b [] h = ground (arith, h.counted)
  first-get b (a ∷ older) h = ground (arith, h.counted, h.kept 0 a (omega arith) refl)

  -- What a new client is sent at once is the snapshot published last, and nothing if there is
  -- none, whatever has happened since the broker was new.
  pub last_snapshot-run :
      (zero_snapshot : A) (events : List (Event A))
      → last_snapshot (run (new_broker zero_snapshot) events) ≡ get 0 (history [] events)
  last_snapshot-run zero_snapshot events =
      first-get (run (new_broker zero_snapshot) events) (history [] events)
        (run-Holds zero_snapshot events)
