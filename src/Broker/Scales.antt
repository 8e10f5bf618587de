-- ===== src/Broker/Scales.antt =====
-- The scales of the curves, computeOscilloScales of unyport/backend/sse/broker.go, and the round of
-- loop that stores a snapshot with them. The arithmetic of float64 is a parameter. A frequency in
-- MHz is a number from 0 on, too small for its sums to overflow; the sum of uint64 wraps around.
pub mod Laws
use unyport.Common.{ℕ, zero, suc, ◌+◌, ◌-◌, ◌/◌, ◌%◌, Bool, ◌&&◌, ltb, if◌then◌else◌}
use unyport.Broker.{Broker, slot, publish}

-- The numbers of type float64: constants in hundredths, and the operators.
pub record Reals (F : Type 0) : Type 0 where
  pub hundredths : ℕ → F
  pub plus : F → F → F
  pub minus : F → F → F
  pub times : F → F → F
  pub less : F → F → Bool

-- The part of a Snapshot that the scales are made of; `taken` says that its time is not zero.
pub record Snapshot (F : Type 0) : Type 0 where
  pub taken : Bool
  pub cpu_usage : F
  pub cpu_freq_avg : ℕ
  pub cpu_y_min : F
  pub cpu_y_max : F
  pub cpu_freq_y_min : ℕ
  pub cpu_freq_y_max : ℕ
  pub mem_y_min : ℕ
  pub mem_y_max : ℕ
  pub mem_total : ℕ
  pub mem_used : ℕ

-- The variables cpuMin to memMax.
pub record Extremes (F : Type 0) : Type 0 where
  pub cpu_min : F
  pub cpu_max : F
  pub freq_min : ℕ
  pub freq_max : ℕ
  pub mem_min : ℕ
  pub mem_max : ℕ

abbrev pub window_snaps : ℕ
window_snaps = 15

abbrev pub at_least_one : ℕ → ℕ
at_least_one n = if ltb n 1 then 1 else n

-- A twentieth of a span, and 1 at least.
abbrev pub margin : ℕ → ℕ
margin span = at_least_one (at_least_one span / 20)

-- How often the body of the loop runs: n - 1 times, for the n snapshots of the window.
abbrev pub rounds : ℕ → ℕ → ℕ
rounds count window = (if ltb window count then window else count) - 1

module _ {F : Type 0} where
  unfoldable pub own_extremes : Snapshot F → Extremes F
  own_extremes s = record {
    cpu_min = s.cpu_usage;
    cpu_max = s.cpu_usage;
    freq_min = s.cpu_freq_avg;
    freq_max = s.cpu_freq_avg;
    mem_min = s.mem_used;
    mem_max = s.mem_used;
  }

  -- The axes of frequency and memory around the extremes.
  unfoldable pub freq_scale : Extremes F → Snapshot F → Snapshot F
  freq_scale e snap =
      let around = margin (e.freq_max - e.freq_min) in
      record snap {
        cpu_freq_y_min = if ltb e.freq_min around then 0 else e.freq_min - around;
        cpu_freq_y_max = e.freq_max + around;
      }

  unfoldable pub mem_scale : Extremes F → Snapshot F → Snapshot F
  mem_scale e snap =
      let around = margin (e.mem_max - e.mem_min) in
      let top = (e.mem_max + around) % 18446744073709551616 in
      record snap {
        mem_y_min = if ltb around e.mem_min then e.mem_min - around else 0;
        mem_y_max = if ltb snap.mem_total top then snap.mem_total else top;
      }

module _ {F : Type 0} (fl : Reals F) where
  -- The body of the loop.
  unfoldable pub widen : Snapshot F → Extremes F → Extremes F
  widen s e =
      if s.taken
      then record {
        cpu_min = if fl.less s.cpu_usage e.cpu_min then s.cpu_usage else e.cpu_min;
        cpu_max = if fl.less e.cpu_max s.cpu_usage then s.cpu_usage else e.cpu_max;
        freq_min =
            if ltb 0 s.cpu_freq_avg && ltb s.cpu_freq_avg e.freq_min
            then s.cpu_freq_avg
            else e.freq_min;
        freq_max =
            if ltb 0 s.cpu_freq_avg && ltb e.freq_max s.cpu_freq_avg
            then s.cpu_freq_avg
            else e.freq_max;
        mem_min = if ltb s.mem_used e.mem_min then s.mem_used else e.mem_min;
        mem_max = if ltb e.mem_max s.mem_used then s.mem_used else e.mem_max;
      }
      else e

  -- The loop from the index `i` on, for `k` snapshots of the ring.
  unfoldable pub scan : Broker (Snapshot F) → ℕ → ℕ → Extremes F → Extremes F
  unfolding widen
  scan b i zero e = e
  scan b i (suc k) e = scan b (suc i) k (widen (slot b i) e)

  unfoldable pub at_least : F → F → F
  at_least least a = if fl.less a least then least else a

  unfoldable pub cpu_scale : Extremes F → Snapshot F → Snapshot F
  unfolding at_least
  cpu_scale e snap =
      let span = at_least (fl.hundredths 50) (fl.minus e.cpu_max e.cpu_min) in
      let around = at_least (fl.hundredths 10) (fl.times span (fl.hundredths 5)) in
      let top = fl.plus e.cpu_max around in
      record snap {
        cpu_y_min = at_least (fl.hundredths 0) (fl.minus e.cpu_min around);
        cpu_y_max = if fl.less (fl.hundredths 10000) top then fl.hundredths 10000 else top;
      }

  -- The extremes over the window of the ring.
  unfoldable pub window_extremes : Broker (Snapshot F) → Snapshot F → ℕ → Extremes F
  unfolding scan own_extremes
  window_extremes b snap window = scan b 1 (rounds b.count window) (own_extremes snap)

  unfoldable pub compute_oscillo_scales : Broker (Snapshot F) → Snapshot F → ℕ → Snapshot F
  unfolding window_extremes cpu_scale freq_scale mem_scale
  compute_oscillo_scales b snap window =
      let e = window_extremes b snap window in mem_scale e (freq_scale e (cpu_scale e snap))

  -- One round of loop under the mutex.
  unfoldable pub publish_scaled : Snapshot F → Broker (Snapshot F) → Broker (Snapshot F)
  unfolding compute_oscillo_scales
  publish_scaled snap b = publish (compute_oscillo_scales b snap window_snaps) b
