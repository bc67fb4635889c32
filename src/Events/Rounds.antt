-- ===== src/Events/Rounds.antt =====
-- Each round of a waiter uses posts of its own.
use zephyr_stm32h.Common.{
  ℕ, ◌+◌, ◌≤◌, ◌≡◌, refl, sym, subst, inl, inr, Bool, true, false, true≢false, ◌&&◌, ◌||◌, arith,
  ◌==◌, ==_iff, Bool-cases,
}
use zephyr_stm32h.Events.{
  EventApi, EventLaws, bit_sensor_a, bit_sensor_b, WaiterPc, busy, waits, Board, EventStep,
  posts_bit, starts_wait, wakes, ConsumerStep, FusionStep,
}

pub data EventRun {E : Type 0} (Step : Board E → Board E → Type 0) (s : Board E)
    : Board E → Type 0 where
  here : EventRun Step s s
  next : {t u : Board E} → EventRun Step s t → Step t u → EventRun Step s u

-- A bit that is set while the waiter waits was posted since.
abbrev pub fresh : WaiterPc → Bool → ℕ
fresh waits true = 1
fresh _ _ = 0

-- No bit was received more often than posted, and the set ones were posted once more.
abbrev pub EventOk : {E : Type 0} → EventApi E → Board E → Type 0
EventOk api s = (b : ℕ) → s.received b + fresh s.waiter (api.is_set s.event b) ≤ s.posts b

fresh_le : (w : WaiterPc) (a : Bool) → fresh w a ≤ 1
fresh_le waits true = omega arith
fresh_le waits false = omega arith
fresh_le busy a = omega arith

module _ {E : Type 0} {api : EventApi E} (laws : EventLaws api) {ready : Bool → Bool → Bool}
    {x y : ℕ} where
  EventStep-EventOk : {s t : Board E} → EventStep api ready x y s t → EventOk api s → EventOk api t
  EventStep-EventOk {s} (posts_bit b) h c = elim (Bool-cases (c == b)) [
    | inl e ↦
        rw e (omega (arith, h c, fresh_le s.waiter (api.is_set (api.k_event_post s.event b) c)))
    | inr e ↦
        rw (e, laws.post_others s.event b c (λ p. absurd (ground (arith, e, p, ==_iff c b))))
          (omega (arith, h c))
  ]
  EventStep-EventOk {s} (starts_wait e) h c = rw (laws.wait_clears s.event c) (omega (arith, h c))
  EventStep-EventOk {s} (wakes e r) h c =
      let old : s.received c + fresh waits (api.is_set s.event c) ≤ s.posts c =
        subst (λ w. s.received c + fresh w (api.is_set s.event c) ≤ s.posts c) e (h c) in
      elim (Bool-cases (api.is_set s.event c)) [
        | inr off ↦ ground (arith, old, off)
        | inl on ↦
            let one : fresh waits (api.is_set s.event c) ≡ 1 = rw on refl in
            elim (Bool-cases (c == x || c == y)) [
              | inl due ↦ rw (due, on) (omega (arith, old, one))
              | inr other ↦ rw other (omega (arith, old, one))
            ]
      ]

  EventRun-EventOk :
      {s t : Board E} → EventOk api s → EventRun (EventStep api ready x y) s t → EventOk api t
  EventRun-EventOk h here = h
  EventRun-EventOk h (next r st) = EventStep-EventOk st (EventRun-EventOk h r)

both_set : (a b : Bool) → (a && b) ≡ true → (a ≡ true) × (b ≡ true)
both_set true b h = (refl, h)
both_set false b h = absurd (true≢false (sym h))

module _ {E : Type 0} {api : EventApi E} where
  FusionStep-paired :
      {s t : Board E}
      → FusionStep api s t
      → s.received bit_sensor_a ≡ s.received bit_sensor_b
      → t.received bit_sensor_a ≡ t.received bit_sensor_b
  FusionStep-paired (posts_bit b) h = h
  FusionStep-paired (starts_wait e) h = h
  FusionStep-paired {s} (wakes e r) h =
      let (a, b) = both_set (api.is_set s.event bit_sensor_a) (api.is_set s.event bit_sensor_b) r in
      rw (a, b) (omega (arith, h))

  EventRun-paired :
      {s t : Board E}
      → s.received bit_sensor_a ≡ s.received bit_sensor_b
      → EventRun (FusionStep api) s t
      → t.received bit_sensor_a ≡ t.received bit_sensor_b
  EventRun-paired h here = h
  EventRun-paired h (next r st) = FusionStep-paired st (EventRun-paired h r)

  -- From the fusion in front of its wait, with nothing received, whatever the interleaving of the posts and
  -- the waits: each round of the fusion has received both sensors' bits, and no bit was received in more
  -- rounds than it was posted, so no post serves two rounds.
  pub fusion_uses_both :
      EventLaws api
      → (s t : Board E) → s.waiter ≡ busy
      → ((b : ℕ) → s.received b ≡ 0)
      → EventRun (FusionStep api) s t
      → (t.received bit_sensor_a ≡ t.received bit_sensor_b) × ((b : ℕ) → t.received b ≤ t.posts b)
  fusion_uses_both laws s t w z r =
      let start : EventOk api s = λ b.
        subst (λ p. s.received b + fresh p (api.is_set s.event b) ≤ s.posts b) (sym w)
          (omega (arith, z b)) in
      let ok = EventRun-EventOk laws start r in
      (EventRun-paired (omega (arith, z bit_sensor_a, z bit_sensor_b)) r, λ b. omega (arith, ok b))

  -- From the consumer in front of its wait, with nothing received, whatever the interleaving: no bit was
  -- received more often than it was posted.
  pub consumer_uses_posts :
      EventLaws api
      → (s t : Board E) → s.waiter ≡ busy
      → ((b : ℕ) → s.received b ≡ 0)
      → EventRun (ConsumerStep api) s t
      → (b : ℕ) → t.received b ≤ t.posts b
  consumer_uses_posts laws s t w z r b =
      let start : EventOk api s = λ b.
        subst (λ p. s.received b + fresh p (api.is_set s.event b) ≤ s.posts b) (sym w)
          (omega (arith, z b)) in
      omega (arith, EventRun-EventOk laws start r b)
