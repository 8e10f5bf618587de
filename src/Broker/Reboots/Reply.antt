-- ===== src/Broker/Reboots/Reply.antt =====
-- The reply of RebootsHandler is consistent.
use unyport.Common.{
  ℕ, zero, suc, ◌+◌, ◌≤◌, ◌≡◌, refl, List, [], ◌∷◌, arith, length, if◌then◌else◌, All,
}
use unyport.Common.Dict.{Dict}
use unyport.Broker.Reboots.{
  is_leap_year, RebootHeatmapCell, Calendar, larger, cell, fill, reboots_reply,
}

unfoldable pub sum_counts : List RebootHeatmapCell → ℕ
sum_counts [] = 0
sum_counts (c ∷ cs) = c.count + sum_counts cs

module _ (cal : Calendar) (year : ℕ) (counts : Dict ℕ) where
  abbrev pub AtMost : ℕ → RebootHeatmapCell → Type 0
  AtMost most c = c.count ≤ most

  fill_consistent :
      (n i total most : ℕ)
      → (length (fill cal year counts n i total most).0 ≡ n)
        × ((fill cal year counts n i total most).1
            ≡ total + sum_counts (fill cal year counts n i total most).0)
        × (most ≤ (fill cal year counts n i total most).2)
        × All
            (AtMost (fill cal year counts n i total most).2)
            (fill cal year counts n i total most).0
  unfolding fill sum_counts
  fill_consistent zero i total most = (refl, omega arith, omega arith, tt)
  fill_consistent (suc n) i total most =
      let c = cell cal year counts i in
      let (long, summed, grown, bounded) =
        fill_consistent n (i + 1) (total + c.count) (larger most c.count) in
      (
        omega (arith, long),
        omega (arith, summed),
        ground (arith, grown),
        (ground (arith, grown), bounded),
      )

  -- The reply has a cell for every day of the year; the total is the sum of the cells' counts and
  -- no cell has more than the maximum.
  pub reboots_reply_consistent :
      (length (reboots_reply cal year counts).days ≡ (if is_leap_year year then 366 else 365))
      × ((reboots_reply cal year counts).total_reboots
          ≡ sum_counts (reboots_reply cal year counts).days)
      × All
          (AtMost (reboots_reply cal year counts).max_per_day)
          (reboots_reply cal year counts).days
  unfolding reboots_reply
  reboots_reply_consistent =
      let (long, summed, _, bounded) =
        fill_consistent (if is_leap_year year then 366 else 365) 0 0 0 in
      (long, omega (arith, summed), bounded)
