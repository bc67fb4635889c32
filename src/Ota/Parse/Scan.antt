-- ===== src/Ota/Parse/Scan.antt =====
-- The search for a frame header.
use zephyr_stm32h.Common.{
  ℕ, zero, suc, ◌+◌, ◌≤◌, ◌<◌, ◌≡◌, true, false, List, arith, Bool-cases, inl, inr,
}
use zephyr_stm32h.Ota.Parse.{is_header, scan}

module _ (buf : List ℕ) (len : ℕ) where
  pub le-scan : (fuel pos : ℕ) → pos ≤ scan fuel buf len pos
  unfolding scan
  le-scan zero pos = omega arith
  le-scan (suc fuel) pos = ground (arith, le-scan fuel (pos + 1))

  -- No header stands before the place where the search ends.
  pub scan_skips : (fuel pos i : ℕ) → pos ≤ i → i < scan fuel buf len pos → is_header buf i ≡ false
  unfolding scan
  scan_skips zero pos i lo hi = absurd (omega arith)
  scan_skips (suc fuel) pos i lo hi = elim (Bool-cases (is_header buf pos)) [
    | inl found ↦ ground arith
    | inr other ↦ ground (arith, scan_skips fuel (pos + 1) i)
  ]

  -- With enough fuel the search ends at a header or behind the last place that is tried.
  pub scan_stops :
      (fuel pos : ℕ)
      → len < fuel + pos + 18
      → scan fuel buf len pos + 18 ≤ len
      → is_header buf (scan fuel buf len pos) ≡ true
  unfolding scan
  scan_stops zero pos hf h = absurd (omega arith)
  scan_stops (suc fuel) pos hf h = elim (Bool-cases (is_header buf pos)) [
    | inl found ↦ ground arith
    | inr other ↦ ground (arith, scan_stops fuel (pos + 1))
  ]

  -- The search ends at the first header.
  pub scan_first :
      (fuel pos i : ℕ)
      → pos ≤ i
      → i < fuel + pos
      → i + 18 ≤ len
      → is_header buf i ≡ true
      → ((j : ℕ) → pos ≤ j → j < i → is_header buf j ≡ false)
      → scan fuel buf len pos ≡ i
  unfolding scan
  scan_first zero pos i lo hf hl here before = absurd (omega arith)
  scan_first (suc fuel) pos i lo hf hl here before =
      ground (arith, before pos, scan_first fuel (pos + 1) i)
