-- ===== src/Zbus.antt =====
-- The channel of app40_zbus/src/main.c and its threads, over Zephyr's bus as a parameter.
pub mod Main
pub mod Channel
use zephyr_stm32h.Common.{
  ℕ, zero, suc, ◌+◌, ◌-◌, ◌*◌, ◌/◌, ◌%◌, ◌^◌, ◌≤◌, ◌<◌, ◌≡◌, refl, sym, ap, subst, ◌∙◌, ◌≢◌, ◌↔◌,
  ◌⊎◌, inl, inr, Bool, true, false, true≢false, not, ◌&&◌, ◌||◌, Option, none, some, List, [], ◌∷◌,
  ◌++◌, append-nil, append_assoc, arith, ltb, leb, ◌==◌, if◌then◌else◌, lt→ltb, le→ltb, le→leb,
  lt→leb, ==_iff, ==_refl, Bool-cases, if_rule, length, get_or, set, take, drop, replicate, All,
  length-append, length-take, length-drop, length-replicate, length-set, take-append-drop,
  take-append_left, take-append_right, drop-append_right, take_all, get_or-append_left,
  get_or-append_right, get_or-take, get_or-drop, u8, u16, u32, is_negative, is_err, le16, le32,
  bytes16, bytes32, ℤ, pos, negsuc,
}

pub record SensorMsg : Type 0 where
  pub temperature : ℤ
  pub humidity : ℤ

-- `<` of two numbers of type `int`.
abbrev pub int_ltb : ℤ → ℤ → Bool
int_ltb (pos m) (pos n) = ltb m n
int_ltb (pos m) (negsuc n) = false
int_ltb (negsuc m) (pos n) = true
int_ltb (negsuc m) (negsuc n) = ltb n m

abbrev pub sensor_validator : SensorMsg → Bool
sensor_validator m =
    if int_ltb m.temperature (negsuc 49) || int_ltb (pos 150) m.temperature
    then false
    else if int_ltb m.humidity (pos 0) || int_ltb (pos 100) m.humidity
    then false
    else true

-- `zbus_chan_pub` and `zbus_chan_read`, with what they return.
pub record ZbusApi (Z : Type 0) : Type 0 where
  pub zbus_chan_pub : Z → SensorMsg → ℤ × Z
  pub zbus_chan_read : Z → ℤ × SensorMsg

-- `message z` is what the channel holds. A publication stores its message or fails; one that the validator
-- refuses fails and stores nothing. One that fails while the observers are notified has stored its message.
pub record ZbusLaws {Z : Type 0} (api : ZbusApi Z) (message : Z → SensorMsg)
    (validator : SensorMsg → Bool) : Type 0 where
  pub pub_invalid :
      (z : Z) (m : SensorMsg)
      → validator m ≡ false
      → ((api.zbus_chan_pub z m).0 ≢ pos 0) × (message (api.zbus_chan_pub z m).1 ≡ message z)
  pub pub_stores :
      (z : Z) (m : SensorMsg)
      → (message (api.zbus_chan_pub z m).1 ≡ m) ⊎ (message (api.zbus_chan_pub z m).1 ≡ message z)
  pub read_message :
      (z : Z) → (api.zbus_chan_read z).0 ≡ pos 0 → (api.zbus_chan_read z).1 ≡ message z

-- What the publisher makes of its counter.
abbrev pub reading : ℕ → SensorMsg
reading count = record { temperature = pos (25 + count * 3); humidity = pos (60 + count) }

-- `count` is the publisher's local; `published` are its values for the publications that returned 0, and
-- `received` what the subscriber has printed.
pub record Bus (Z : Type 0) : Type 0 where
  pub sensor_chan : Z
  pub count : ℕ
  pub published : List ℕ
  pub received : List SensorMsg

-- A round of `publisher_func` or of `subscriber_func`. The temperature is an `int`, and stays one.
pub data BusStep {Z : Type 0} (api : ZbusApi Z) (s : Bus Z) : Bus Z → Type 0 where
  publishes :
      25 + (s.count + 1) * 3 < 2 ^ 31
      → (api.zbus_chan_pub s.sensor_chan (reading (s.count + 1))).0 ≡ pos 0
      → BusStep api s (record s {
        sensor_chan = (api.zbus_chan_pub s.sensor_chan (reading (s.count + 1))).1;
        count = s.count + 1;
        published = s.published ++ (s.count + 1) ∷ [];
      })
  fails_to_publish :
      25 + (s.count + 1) * 3 < 2 ^ 31
      → (api.zbus_chan_pub s.sensor_chan (reading (s.count + 1))).0 ≢ pos 0
      → BusStep api s (record s {
        sensor_chan = (api.zbus_chan_pub s.sensor_chan (reading (s.count + 1))).1;
        count = s.count + 1;
      })
  receives :
      (api.zbus_chan_read s.sensor_chan).0 ≡ pos 0
      → BusStep api s
          (record s { received = s.received ++ (api.zbus_chan_read s.sensor_chan).1 ∷ [] })
