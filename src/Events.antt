-- ===== src/Events.antt =====
-- The threads of app33_event/src/main.c, over Zephyr's event object as a parameter.
pub mod Main
pub mod Rounds
use zephyr_stm32h.Common.{
  ℕ, zero, suc, ◌+◌, ◌-◌, ◌*◌, ◌/◌, ◌%◌, ◌^◌, ◌≤◌, ◌<◌, ◌≡◌, refl, sym, ap, subst, ◌∙◌, ◌≢◌, ◌↔◌,
  ◌⊎◌, inl, inr, Bool, true, false, true≢false, not, ◌&&◌, ◌||◌, Option, none, some, List, [], ◌∷◌,
  ◌++◌, append-nil, append_assoc, arith, ltb, leb, ◌==◌, if◌then◌else◌, lt→ltb, le→ltb, le→leb,
  lt→leb, ==_iff, ==_refl, Bool-cases, if_rule, length, get_or, set, take, drop, replicate, All,
  length-append, length-take, length-drop, length-replicate, length-set, take-append-drop,
  take-append_left, take-append_right, drop-append_right, take_all, get_or-append_left,
  get_or-append_right, get_or-take, get_or-drop, u8, u16, u32, is_negative, is_err, le16, le32,
  bytes16, bytes32,
}

-- `k_event_post` of a bit, the start of a wait with `reset`, and whether a bit is set.
pub record EventApi (E : Type 0) : Type 0 where
  pub k_event_post : E → ℕ → E
  pub start_wait : E → E
  pub is_set : E → ℕ → Bool

-- A post sets its bit. A wait with `reset` first clears all bits; it returns while the bits it waits for are
-- set, and then leaves them as they are.
pub record EventLaws {E : Type 0} (api : EventApi E) : Type 0 where
  pub post_sets : (e : E) (b : ℕ) → api.is_set (api.k_event_post e b) b ≡ true
  pub post_others : (e : E) (b c : ℕ) → b ≢ c → api.is_set (api.k_event_post e b) c ≡ api.is_set e c
  pub wait_clears : (e : E) (b : ℕ) → api.is_set (api.start_wait e) b ≡ false

-- EVENT_BIT_READY, EVENT_BIT_DATA, EVENT_BIT_SENSOR_A and EVENT_BIT_SENSOR_B by their numbers.
abbrev pub bit_ready : ℕ
bit_ready = 0

abbrev pub bit_data : ℕ
bit_data = 1

abbrev pub bit_sensor_a : ℕ
bit_sensor_a = 2

abbrev pub bit_sensor_b : ℕ
bit_sensor_b = 3

-- Where `consumer_func` or `fusion_func` stands: in front of the wait, or in it.
pub data WaiterPc : Type 0 where
  busy waits : WaiterPc

-- `posts` counts the posts of a bit, and `received` the waits that have returned it.
pub record Board (E : Type 0) : Type 0 where
  pub event : E
  pub waiter : WaiterPc
  pub posts : ℕ → ℕ
  pub received : ℕ → ℕ

-- One more for this bit.
abbrev pub count_bit : (ℕ → ℕ) → ℕ → ℕ → ℕ
count_bit n b c = (if c == b then 1 else 0) + n c

-- One more for each of two bits that is set.
abbrev pub count_set : {E : Type 0} → EventApi E → E → ℕ → ℕ → (ℕ → ℕ) → ℕ → ℕ
count_set api e x y n c = (if (c == x || c == y) && api.is_set e c then 1 else 0) + n c

-- The waiter waits for any (`k_event_wait`) or all (`k_event_wait_all`) of the bits `x` and `y`.
pub data EventStep {E : Type 0} (api : EventApi E) (ready : Bool → Bool → Bool) (x y : ℕ)
    (s : Board E) : Board E → Type 0 where
  posts_bit :
      (b : ℕ)
      → EventStep api ready x y s
          (record s { event = api.k_event_post s.event b; posts = count_bit s.posts b })
  starts_wait :
      s.waiter ≡ busy
      → EventStep api ready x y s (record s { event = api.start_wait s.event; waiter = waits })
  wakes :
      s.waiter ≡ waits
      → ready (api.is_set s.event x) (api.is_set s.event y) ≡ true
      → EventStep api ready x y s
          (record s { waiter = busy; received = count_set api s.event x y s.received })

-- `producer_func` and `consumer_func`.
abbrev pub ConsumerStep : {E : Type 0} → EventApi E → Board E → Board E → Type 0
ConsumerStep api = EventStep api (λ a b. a || b) bit_ready bit_data

-- `sensor_a_func`, `sensor_b_func` and `fusion_func`.
abbrev pub FusionStep : {E : Type 0} → EventApi E → Board E → Board E → Type 0
FusionStep api = EventStep api (λ a b. a && b) bit_sensor_a bit_sensor_b
