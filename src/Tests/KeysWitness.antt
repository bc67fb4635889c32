-- ===== src/Tests/KeysWitness.antt =====
-- The theorem on the keys at a concrete input, where the second callback cannot be added.
use zephyr_stm32h.Common.{pos, negsuc}
use zephyr_stm32h.Keys.{key1, is_ready, add_callback, Results}

abbrev toy_results : Results
toy_results (is_ready k) = pos 1
toy_results (add_callback key1) = negsuc 21
toy_results _ = pos 0
