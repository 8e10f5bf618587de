-- ===== src/Broker/Scales/Laws.antt =====
-- The axes of computeOscilloScales in unyport/backend/sse/broker.go, and the snapshots they read.
use unyport.Common.{
  ℕ, zero, suc, ◌+◌, ◌-◌, ◌%◌, ◌≤◌, ◌<◌, ◌≡◌, ap, ◌≢◌, refl, arith, true, inl, inr, Bool-cases,
  nat_eq,
}
use unyport.Broker.{Broker, slot, publish, write}
use unyport.Broker.Scales.{
  Reals, Snapshot, Extremes, own_extremes, widen, scan, window_extremes, freq_scale, mem_scale,
  cpu_scale, compute_oscillo_scales, rounds,
}

module _ {F : Type 0} where
  -- The second extremes are those of the first or beyond them.
  record Wider (e e' : Extremes F) : Type 0 where
    freq_low : e'.freq_min ≤ e.freq_min
    freq_high : e.freq_max ≤ e'.freq_max
    mem_low : e'.mem_min ≤ e.mem_min
    mem_high : e.mem_max ≤ e'.mem_max

  beyond_both : {e e' e'' : Extremes F} → Wider e e' → Wider e' e'' → Wider e e''
  beyond_both w w' = record {
    freq_low = omega (arith, w.freq_low, w'.freq_low);
    freq_high = omega (arith, w.freq_high, w'.freq_high);
    mem_low = omega (arith, w.mem_low, w'.mem_low);
    mem_high = omega (arith, w.mem_high, w'.mem_high);
  }

elsewhere : (h j : ℕ) → h < 60 → 0 < j → j < 60 → ((h + 1) % 60 + 60 - 1 - j) % 60 ≢ h
elsewhere h j small low high e = omega arith

module _ {F : Type 0} (fl : Reals F) where
  widen-Wider : (s : Snapshot F) (e : Extremes F) → Wider e (widen fl s e)
  unfolding widen
  widen-Wider s e = record {
    freq_low = ground arith;
    freq_high = ground arith;
    mem_low = ground arith;
    mem_high = ground arith;
  }

  widen-Covers :
      (s : Snapshot F) (e : Extremes F)
      → s.taken ≡ true
      → 0 < s.cpu_freq_avg
      → Wider (own_extremes s) (widen fl s e)
  unfolding widen own_extremes
  widen-Covers s e t f = record {
    freq_low = ground arith;
    freq_high = ground arith;
    mem_low = ground arith;
    mem_high = ground arith;
  }

  scan-Wider : (b : Broker (Snapshot F)) (i k : ℕ) (e : Extremes F) → Wider e (scan fl b i k e)
  unfolding scan
  scan-Wider b i zero e = record {
    freq_low = omega arith;
    freq_high = omega arith;
    mem_low = omega arith;
    mem_high = omega arith;
  }
  scan-Wider b i (suc k) e =
      beyond_both (widen-Wider (slot b i) e) (scan-Wider b (suc i) k (widen fl (slot b i) e))

  scan-Covers :
      (b : Broker (Snapshot F)) (i k j : ℕ) (e : Extremes F)
      → i ≤ j
      → j < i + k
      → (slot b j).taken ≡ true
      → 0 < (slot b j).cpu_freq_avg
      → Wider (own_extremes (slot b j)) (scan fl b i k e)
  unfolding scan
  scan-Covers b i zero j e low high t f = absurd (omega arith)
  scan-Covers b i (suc k) j e low high t f = elim (Bool-cases (nat_eq i j)) [
    | inl here ↦
        let same : i ≡ j = ground (arith, here) in
        beyond_both (rw same (widen-Covers (slot b j) e t f))
          (scan-Wider b (suc i) k (widen fl (slot b i) e))
    | inr later ↦
        scan-Covers b (suc i) k j (widen fl (slot b i) e) (ground (arith, later)) (omega arith) t f
  ]

  -- No more memory is seen than the snapshots have.
  scan-bounded :
      (b : Broker (Snapshot F)) (limit i k : ℕ) (e : Extremes F)
      → ((j : ℕ) → (slot b j).mem_used < limit)
      → e.mem_max < limit
      → (scan fl b i k e).mem_max < limit
  unfolding scan widen
  scan-bounded b limit i zero e h here = here
  scan-bounded b limit i (suc k) e h here =
      scan-bounded b limit (suc i) k (widen fl (slot b i) e) h (ground (arith, h i))

  -- The extremes of the window contain those of the snapshot itself.
  window-Own :
      (b : Broker (Snapshot F)) (snap : Snapshot F) (window : ℕ)
      → Wider (own_extremes snap) (window_extremes fl b snap window)
  unfolding window_extremes
  window-Own b snap window = scan-Wider b 1 (rounds b.count window) (own_extremes snap)

  window-Covers :
      (b : Broker (Snapshot F)) (snap : Snapshot F) (window i : ℕ)
      → 0 < i
      → i < window
      → i < b.count
      → (slot b i).taken ≡ true
      → 0 < (slot b i).cpu_freq_avg
      → Wider (own_extremes (slot b i)) (window_extremes fl b snap window)
  unfolding window_extremes
  window-Covers b snap window i low near stored t f =
      scan-Covers b 1 (rounds b.count window) i (own_extremes snap) (omega arith) (ground arith) t f

  window-bounded :
      (b : Broker (Snapshot F)) (snap : Snapshot F) (window limit : ℕ)
      → ((j : ℕ) → (slot b j).mem_used < limit)
      → snap.mem_used < limit
      → (window_extremes fl b snap window).mem_max < limit
  unfolding window_extremes own_extremes
  window-bounded b snap window limit h own =
      scan-bounded b limit 1 (rounds b.count window) (own_extremes snap) h own

  -- A snapshot of the ring from the one before the newest back to the edge of the window, taken
  -- and with a frequency, lies between the ends of the axes of frequency and memory that are
  -- computed for the next one, if no memory reaches 2 ^ 63 and its own fits in the next one's total.
  pub compute_oscillo_scales-contains :
      (b : Broker (Snapshot F)) (snap : Snapshot F) (window i : ℕ)
      → 0 < i
      → i < window
      → i < b.count
      → (slot b i).taken ≡ true
      → 0 < (slot b i).cpu_freq_avg
      → ((j : ℕ) → (slot b j).mem_used < 9223372036854775808)
      → snap.mem_used < 9223372036854775808
      → (slot b i).mem_used ≤ snap.mem_total
      → ((compute_oscillo_scales fl b snap window).cpu_freq_y_min ≤ (slot b i).cpu_freq_avg)
        × ((slot b i).cpu_freq_avg ≤ (compute_oscillo_scales fl b snap window).cpu_freq_y_max)
        × ((compute_oscillo_scales fl b snap window).mem_y_min ≤ (slot b i).mem_used)
        × ((slot b i).mem_used ≤ (compute_oscillo_scales fl b snap window).mem_y_max)
  unfolding compute_oscillo_scales mem_scale freq_scale cpu_scale own_extremes
  compute_oscillo_scales-contains b snap window i low near stored t f small own fits =
      let w = window-Covers b snap window i low near stored t f in
      let bounded = window-bounded b snap window 9223372036854775808 small own in
      (
        ground (arith, w.freq_low),
        omega (arith, w.freq_high),
        ground (arith, w.mem_low),
        ground (arith, w.mem_high, bounded, fits),
      )

  scan_local :
      (b b' : Broker (Snapshot F)) (i k : ℕ) (e : Extremes F)
      → ((j : ℕ) → i ≤ j → j < i + k → slot b j ≡ slot b' j)
      → scan fl b i k e ≡ scan fl b' i k e
  unfolding scan
  scan_local b b' i zero e same = refl
  scan_local b b' i (suc k) e same = rw (same i (omega arith) (omega arith)) (
      scan_local b b' (suc i) k (widen fl (slot b' i) e)
        (λ j low high. same j (omega arith) (omega arith)))

  older_slots :
      (b : Broker (Snapshot F)) (x y : Snapshot F) (j : ℕ)
      → b.head < 60
      → 0 < j
      → j < 60
      → slot (publish x b) j ≡ slot (publish y b) j
  unfolding slot publish write
  older_slots b x y j h low high = ground (arith, elsewhere b.head j h low high)

  window_local :
      (b : Broker (Snapshot F)) (x y snap : Snapshot F) (window : ℕ)
      → b.head < 60
      → window ≤ 60
      → window_extremes fl (publish x b) snap window ≡ window_extremes fl (publish y b) snap window
  unfolding window_extremes publish
  window_local b x y snap window h narrow =
      scan_local (publish x b) (publish y b) 1 (rounds (publish x b).count window)
        (own_extremes snap) (λ j low high. older_slots b x y j h (omega arith) (ground arith))

  -- The scales of a snapshot do not depend on the one that was published just before it.
  pub compute_oscillo_scales-skips :
      (b : Broker (Snapshot F)) (x y snap : Snapshot F) (window : ℕ)
      → b.head < 60
      → window ≤ 60
      → compute_oscillo_scales fl (publish x b) snap window
        ≡ compute_oscillo_scales fl (publish y b) snap window
  unfolding compute_oscillo_scales
  compute_oscillo_scales-skips b x y snap window h narrow =
      ap (λ e. mem_scale e (freq_scale e (cpu_scale fl e snap)))
        (window_local b x y snap window h narrow)
