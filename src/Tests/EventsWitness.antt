-- ===== src/Tests/EventsWitness.antt =====
-- The theorem on the events at a concrete input, with an event object in memory.
use zephyr_stm32h.Common.{
  ℕ, ◌≤◌, ◌≡◌, refl, Bool, true, false, arith, ◌==◌, if◌then◌else◌, ==_iff, ==_refl,
}
use zephyr_stm32h.Events.{
  EventApi, EventLaws, bit_sensor_a, bit_sensor_b, busy, Board, count_bit, count_set, posts_bit,
  starts_wait, wakes, FusionStep,
}
use zephyr_stm32h.Events.Rounds.{EventRun, here, next, fusion_uses_both}

abbrev toy_event : EventApi (ℕ → Bool)
toy_event = record {
  k_event_post = λ e b c. if c == b then true else e c;
  start_wait = λ e c. false;
  is_set = λ e b. e b;
}

toy_event_laws : EventLaws toy_event
toy_event_laws = record {
  post_sets = λ e b. ground (arith, ==_refl b);
  post_others = λ e b c h. ground (arith, h, ==_iff c b);
  wait_clears = λ e b. refl;
}

abbrev idle : Board (ℕ → Bool)
idle = record { event = λ b. false; waiter = busy; posts = λ b. 0; received = λ b. 0 }

abbrev both_posted : ℕ → Bool
both_posted = toy_event.k_event_post (toy_event.k_event_post (λ b. false) bit_sensor_a) bit_sensor_b

-- After one round.
abbrev fused : Board (ℕ → Bool)
fused = record {
  event = both_posted;
  waiter = busy;
  posts = count_bit (count_bit (λ b. 0) bit_sensor_a) bit_sensor_b;
  received = count_set toy_event both_posted bit_sensor_a bit_sensor_b (λ b. 0);
}

fusion_run : EventRun (FusionStep toy_event) idle fused
fusion_run =
    next
      (next (next (next here (starts_wait refl)) (posts_bit bit_sensor_a)) (posts_bit bit_sensor_b))
      (wakes refl refl)

fusion_uses_both_example :
    (fused.received bit_sensor_a ≡ fused.received bit_sensor_b)
    × ((b : ℕ) → fused.received b ≤ fused.posts b)
fusion_uses_both_example = fusion_uses_both toy_event_laws idle fused refl (λ b. refl) fusion_run
