-- ===== src/Examples/Streams.antt =====
-- The theorems on the broker at concrete inputs: numbers as snapshots, and snapshots with the
-- usage of the processor in hundredths.
use unyport.Common.{
  ℕ, ◌+◌, ◌-◌, ◌*◌, ◌/◌, ◌<◌, ◌≤◌, ◌≡◌, refl, arith, true, List, [], ◌∷◌, ltb, if◌then◌else◌,
}
use unyport.Broker.{Broker, new_broker, publish, slot}
use unyport.Broker.Ring.{Event, published, subscribed, unsubscribed, run, history, Holds, run-Holds}
use unyport.Broker.Scales.{Reals, Snapshot, compute_oscillo_scales}
use unyport.Broker.Scales.Laws.{compute_oscillo_scales-contains, compute_oscillo_scales-skips}

abbrev events : List (Event ℕ)
events = published 7 ∷ subscribed 1 ∷ published 8 ∷ subscribed 2 ∷ published 9 ∷ unsubscribed 1 ∷ []

run-Holds_example : Holds (run (new_broker 0) events) (history [] events)
run-Holds_example = run-Holds 0 events

-- Numbers in hundredths.
abbrev cents : Reals ℕ
cents = record {
  hundredths = λ n. n;
  plus = λ a b. a + b;
  minus = λ a b. a - b;
  times = λ a b. a * b / 100;
  less = ltb;
}

abbrev taken_at : ℕ → ℕ → Snapshot ℕ
taken_at mhz used = record {
  taken = true;
  cpu_usage = 4200;
  cpu_freq_avg = mhz;
  cpu_y_min = 0;
  cpu_y_max = 0;
  cpu_freq_y_min = 0;
  cpu_freq_y_max = 0;
  mem_y_min = 0;
  mem_y_max = 0;
  mem_total = 8000;
  mem_used = used;
}

-- A broker with two snapshots, at the places 0 and 1 of the ring.
abbrev two_taken : Broker (Snapshot ℕ)
two_taken = record {
  ring = λ i. if ltb i 1 then taken_at 1200 900 else taken_at 3000 2500;
  head = 2;
  count = 2;
  clients = [];
}

abbrev next : Snapshot ℕ
next = taken_at 2000 2000

memory_small : (j : ℕ) → (slot two_taken j).mem_used < 9223372036854775808
unfolding slot
memory_small j = ground arith

compute_oscillo_scales-contains_example :
    ((compute_oscillo_scales cents two_taken next 15).cpu_freq_y_min
      ≤ (slot two_taken 1).cpu_freq_avg)
    × ((slot two_taken 1).cpu_freq_avg
        ≤ (compute_oscillo_scales cents two_taken next 15).cpu_freq_y_max)
    × ((compute_oscillo_scales cents two_taken next 15).mem_y_min ≤ (slot two_taken 1).mem_used)
    × ((slot two_taken 1).mem_used ≤ (compute_oscillo_scales cents two_taken next 15).mem_y_max)
unfolding slot
compute_oscillo_scales-contains_example =
    compute_oscillo_scales-contains cents two_taken next 15 1 (omega arith) (omega arith)
      (omega arith) refl (omega arith) memory_small (omega arith) (omega arith)

compute_oscillo_scales-skips_example :
    compute_oscillo_scales cents (publish (taken_at 100 7000) two_taken) next 15
    ≡ compute_oscillo_scales cents (publish (taken_at 5000 10) two_taken) next 15
compute_oscillo_scales-skips_example =
    compute_oscillo_scales-skips cents two_taken (taken_at 100 7000) (taken_at 5000 10) next 15
      (omega arith) (omega arith)
