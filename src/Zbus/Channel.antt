-- ===== src/Zbus/Channel.antt =====
-- The channel only ever holds what the validator accepts.
use zephyr_stm32h.Common.{
  ℕ, ◌+◌, ◌≤◌, ◌≡◌, sym, subst, ◌↔◌, ◌⊎◌, inl, inr, true, List, [], ◌∷◌, ◌++◌, arith, Bool-cases,
  All, pos,
}
use zephyr_stm32h.Zbus.{
  SensorMsg, sensor_validator, ZbusApi, ZbusLaws, reading, Bus, BusStep, publishes,
  fails_to_publish, receives,
}

pub data BusRun {Z : Type 0} (api : ZbusApi Z) (s : Bus Z) : Bus Z → Type 0 where
  here : BusRun api s s
  next : {t u : Bus Z} → BusRun api s t → BusStep api t u → BusRun api s u

-- The channel's initial value.
abbrev pub zeros : SensorMsg
zeros = record { temperature = pos 0; humidity = pos 0 }

-- The initial value, or a reading of one of the first 40 rounds, of which there have been `count`.
abbrev pub IsEarly : ℕ → SensorMsg → Type 0
IsEarly count m = (m ≡ zeros) ⊎ ((k : ℕ) × (1 ≤ k) × (k ≤ 40) × (k ≤ count) × (m ≡ reading k))

-- The validator accepts the readings of the first 40 rounds and no others.
validator_iff : (k : ℕ) → (sensor_validator (reading k) ≡ true) ↔ (k ≤ 40)
validator_iff k = ground arith

All-snoc :
    {A : Type 0} (P : A → Type 0) (xs : List A) (x : A) → All P xs → P x → All P (xs ++ x ∷ [])
All-snoc P [] x h hx = (hx, tt)
All-snoc P (y ∷ xs) x h hx = (h.0, All-snoc P xs x h.1 hx)

All-map :
    {A : Type 0} (P Q : A → Type 0) (xs : List A) → ((x : A) → P x → Q x) → All P xs → All Q xs
All-map P Q [] f h = tt
All-map P Q (x ∷ xs) f h = (f x h.0, All-map P Q xs f h.1)

later : (count : ℕ) (m : SensorMsg) → IsEarly count m → IsEarly (count + 1) m
later count m (inl z) = inl z
later count m (inr (k, a, b, c, e)) = inr (k, a, b, omega arith, e)

record BusOk {Z : Type 0} (message : Z → SensorMsg) (s : Bus Z) : Type 0 where
  chan : IsEarly s.count (message s.sensor_chan)
  early : All (λ (k : ℕ). k ≤ 40) s.published
  seen : All (IsEarly s.count) s.received

module _ {Z : Type 0} {api : ZbusApi Z} {message : Z → SensorMsg}
    (laws : ZbusLaws api message sensor_validator) where
  zbus_chan_pub-IsEarly :
      (s : Bus Z)
      → IsEarly s.count (message s.sensor_chan)
      → IsEarly (s.count + 1) (message (api.zbus_chan_pub s.sensor_chan (reading (s.count + 1))).1)
  zbus_chan_pub-IsEarly s h =
      let m = reading (s.count + 1) in
      elim (Bool-cases (sensor_validator m)) [
        | inr bad ↦
            subst (IsEarly (s.count + 1)) (sym (laws.pub_invalid s.sensor_chan m bad).1)
              (later s.count _ h)
        | inl good ↦ elim (laws.pub_stores s.sensor_chan m) [
          | inl e ↦
              inr (s.count + 1, omega arith, (validator_iff (s.count + 1)).0 good, omega arith, e)
          | inr e ↦ subst (IsEarly (s.count + 1)) (sym e) (later s.count _ h)
        ]
      ]

  accepted_early :
      (s : Bus Z)
      → (api.zbus_chan_pub s.sensor_chan (reading (s.count + 1))).0 ≡ pos 0
      → s.count + 1 ≤ 40
  accepted_early s ok = elim (Bool-cases (sensor_validator (reading (s.count + 1)))) [
    | inl good ↦ (validator_iff (s.count + 1)).0 good
    | inr bad ↦ absurd ((laws.pub_invalid s.sensor_chan (reading (s.count + 1)) bad).0 ok)
  ]

  BusStep-BusOk : {s t : Bus Z} → BusStep api s t → BusOk message s → BusOk message t
  BusStep-BusOk {s} (publishes small ok) h = record {
    chan = zbus_chan_pub-IsEarly s h.chan;
    early = All-snoc (λ (k : ℕ). k ≤ 40) s.published (s.count + 1) h.early (accepted_early s ok);
    seen = All-map (IsEarly s.count) (IsEarly (s.count + 1)) s.received (later s.count) h.seen;
  }
  BusStep-BusOk {s} (fails_to_publish small bad) h = record {
    chan = zbus_chan_pub-IsEarly s h.chan;
    early = h.early;
    seen = All-map (IsEarly s.count) (IsEarly (s.count + 1)) s.received (later s.count) h.seen;
  }
  BusStep-BusOk {s} (receives ok) h = record {
    chan = h.chan;
    early = h.early;
    seen =
        All-snoc (IsEarly s.count) s.received _ h.seen
          (subst (IsEarly s.count) (sym (laws.read_message s.sensor_chan ok)) h.chan);
  }

  BusRun-BusOk : {s t : Bus Z} → BusOk message s → BusRun api s t → BusOk message t
  BusRun-BusOk h here = h
  BusRun-BusOk h (next r st) = BusStep-BusOk st (BusRun-BusOk h r)

  -- From a channel that holds its initial value, whatever the interleaving and whichever calls fail: only
  -- rounds 1 to 40 of the publisher are accepted, and the channel, as each message that the subscriber
  -- prints, is the initial value or the reading of one of these rounds that has taken place.
  pub channel_holds_valid :
      (s t : Bus Z)
      → message s.sensor_chan ≡ zeros
      → s.published ≡ []
      → s.received ≡ []
      → BusRun api s t
      → IsEarly t.count (message t.sensor_chan)
        × All (IsEarly t.count) t.received
        × All (λ (k : ℕ). k ≤ 40) t.published
  channel_holds_valid s t m p r run =
      let start : BusOk message s = record {
        chan = inl m;
        early = subst (All (λ (k : ℕ). k ≤ 40)) (sym p) tt;
        seen = subst (All (IsEarly s.count)) (sym r) tt;
      } in
      let ok = BusRun-BusOk start run in (ok.chan, ok.seen, ok.early)
