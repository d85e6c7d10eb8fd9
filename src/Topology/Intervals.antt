-- ===== src/Topology/Intervals.antt =====
-- core/services/topology_service.py, `_is_range_covered_by_intervals`. An address is its number, an
-- interval its first and its last address.
pub mod Covered
use arodonata.Common.{
  ℕ, ◌+◌, Bool, true, false, ◌&&◌, ◌||◌, List, [], ◌∷◌, if◌then◌else◌, ltb, leb, ◌==◌, min, max,
}
use arodonata.Common.Sorting.{sort_with}

abbrev pub Interval : Type 0
Interval = ℕ × ℕ

-- The generator: the intervals that meet the query, cut to it.
pub clip : ℕ → ℕ → List Interval → List Interval
clip q_lo q_hi [] = []
clip q_lo q_hi ((lo, hi) ∷ intervals) =
    let rest = clip q_lo q_hi intervals in
    if leb q_lo hi && leb lo q_hi then (max q_lo lo, min q_hi hi) ∷ rest else rest

-- The order of tuples.
pub stays_below : Interval → Interval → Bool
stays_below (lo, hi) (lo', hi') = ltb lo lo' || lo == lo' && leb hi hi'

-- The loop over `clipped[1:]`.
pub extend : ℕ → ℕ → List Interval → Bool
extend q_hi curr_end [] = leb q_hi curr_end
extend q_hi curr_end ((lo, hi) ∷ rest) =
    let next = max curr_end hi in
    let further = extend q_hi next rest in
    if ltb (curr_end + 1) lo then false else if leb q_hi next then true else further

pub covered_by : ℕ → ℕ → List Interval → Bool
unfolding extend
covered_by q_lo q_hi [] = false
covered_by q_lo q_hi ((lo, hi) ∷ rest) = if ltb q_lo lo then false else extend q_hi hi rest

unfoldable pub is_range_covered : ℕ → ℕ → List Interval → Bool
unfolding covered_by clip stays_below sort_with
is_range_covered q_lo q_hi intervals =
    covered_by q_lo q_hi (sort_with stays_below (clip q_lo q_hi intervals))
