-- ===== src/Tests/ZbusWitness.antt =====
-- The theorem on the channel at a concrete input, with a channel in memory.
use zephyr_stm32h.Common.{
  ℕ, ◌≤◌, refl, ap, ◌≢◌, inl, inr, true≢false, [], ◌∷◌, arith, if◌then◌else◌, Bool-cases, All,
  is_err, ℤ, pos, negsuc,
}
use zephyr_stm32h.Zbus.{
  SensorMsg, sensor_validator, ZbusApi, ZbusLaws, reading, Bus, publishes, fails_to_publish,
  receives,
}
use zephyr_stm32h.Zbus.Channel.{BusRun, here, next, zeros, IsEarly, channel_holds_valid}

abbrev toy_pub : SensorMsg → SensorMsg → ℤ × SensorMsg
toy_pub z m = if sensor_validator m then (pos 0, m) else (negsuc 34, z)

abbrev toy_zbus : ZbusApi SensorMsg
toy_zbus = record { zbus_chan_pub = toy_pub; zbus_chan_read = λ z. (pos 0, z) }

nonzero : negsuc 34 ≢ pos 0
nonzero e = absurd (true≢false (ap is_err e))

toy_zbus_laws : ZbusLaws toy_zbus (λ z. z) sensor_validator
toy_zbus_laws = record {
  pub_invalid = λ z m bad. rw bad (nonzero, refl);
  pub_stores = λ z m. elim (Bool-cases (sensor_validator m)) [
    | inl good ↦ inl (rw good refl)
    | inr bad ↦ inr (rw bad refl)
  ];
  read_message = λ z e. refl;
}

-- In front of the last round that the validator accepts.
abbrev bus : Bus SensorMsg
bus = record { sensor_chan = zeros; count = 39; published = []; received = [] }

abbrev bus_end : Bus SensorMsg
bus_end = record {
  sensor_chan = reading 40;
  count = 41;
  published = 40 ∷ [];
  received = reading 40 ∷ [];
}

bus_run : BusRun toy_zbus bus bus_end
bus_run =
    next (next (next here (publishes (omega arith) refl)) (fails_to_publish (omega arith) nonzero))
      (receives refl)

channel_holds_valid_example :
    IsEarly 41 (reading 40)
    × All (IsEarly 41) bus_end.received
    × All (λ (k : ℕ). k ≤ 40) bus_end.published
channel_holds_valid_example = channel_holds_valid toy_zbus_laws bus bus_end refl refl refl bus_run
