-- ===== src/Leds.antt =====
-- The blinking LEDs of app01_led/src/main.c, over the GPIO calls as a parameter.
pub mod Blink
use zephyr_stm32h.Common.{
  ℕ, zero, suc, ◌+◌, ◌-◌, ◌*◌, ◌/◌, ◌%◌, ◌^◌, ◌≤◌, ◌<◌, ◌≡◌, refl, sym, ap, subst, ◌∙◌, ◌≢◌, ◌↔◌,
  ◌⊎◌, inl, inr, Bool, true, false, true≢false, not, ◌&&◌, ◌||◌, Option, none, some, List, [], ◌∷◌,
  ◌++◌, append-nil, append_assoc, arith, ltb, leb, ◌==◌, if◌then◌else◌, lt→ltb, le→ltb, le→leb,
  lt→leb, ==_iff, ==_refl, Bool-cases, if_rule, length, get_or, set, take, drop, replicate, All,
  length-append, length-take, length-drop, length-replicate, length-set, take-append-drop,
  take-append_left, take-append_right, drop-append_right, take_all, get_or-append_left,
  get_or-append_right, get_or-take, get_or-drop, u8, u16, u32, is_negative, is_err, le16, le32,
  bytes16, bytes32, ℤ, pos, negsuc,
}

-- A pin of a port: `struct gpio_dt_spec`.
pub record GpioSpec : Type 0 where
  pub port : ℕ
  pub pin : ℕ

-- `gpio_is_ready_dt`, `gpio_pin_configure_dt` and `gpio_pin_set_raw` of a pin of a port.
pub record GpioApi (G : Type 0) : Type 0 where
  pub gpio_is_ready_dt : G → GpioSpec → Bool
  pub gpio_pin_configure_dt : G → GpioSpec → ℤ × G
  pub gpio_pin_set_raw : G → ℕ → ℕ → ℕ → G

-- `level g port pin` is the level of a pin, which the last `gpio_pin_set_raw` of this pin sets.
pub record GpioLaws {G : Type 0} (api : GpioApi G) (level : G → ℕ → ℕ → ℕ) : Type 0 where
  pub set_pin : (g : G) (port pin v : ℕ) → level (api.gpio_pin_set_raw g port pin v) port pin ≡ v
  pub set_other_pin :
      (g : G) (port port' pin pin' v : ℕ)
      → pin ≢ pin'
      → level (api.gpio_pin_set_raw g port pin v) port' pin' ≡ level g port' pin'
  pub set_other_port :
      (g : G) (port port' pin pin' v : ℕ)
      → port ≢ port'
      → level (api.gpio_pin_set_raw g port pin v) port' pin' ≡ level g port' pin'

-- `main` up to its loop: what it returns, or the configured pins.
abbrev pub setup : {G : Type 0} → GpioApi G → GpioSpec → GpioSpec → G → ℤ ⊎ G
setup api led0 led1 g =
    let (ret, g') = api.gpio_pin_configure_dt g led0 in
    let (ret', g'') = api.gpio_pin_configure_dt g' led1 in
    if not (api.gpio_is_ready_dt g led0)
    then inl (negsuc 0)
    else if is_negative ret
    then inl ret
    else if not (api.gpio_is_ready_dt g' led1)
    then inl (negsuc 0)
    else if is_negative ret'
    then inl ret'
    else inr g''

-- The first half of a round of the loop, which names the port of `led0` twice.
abbrev pub first_half : {G : Type 0} → GpioApi G → GpioSpec → GpioSpec → G → G
first_half api led0 led1 g =
    api.gpio_pin_set_raw (api.gpio_pin_set_raw g led0.port led0.pin 0) led0.port led1.pin 1

abbrev pub second_half : {G : Type 0} → GpioApi G → GpioSpec → GpioSpec → G → G
second_half api led0 led1 g =
    api.gpio_pin_set_raw (api.gpio_pin_set_raw g led0.port led0.pin 1) led1.port led1.pin 0

-- `n` rounds of the loop.
unfoldable pub rounds : {G : Type 0} → GpioApi G → GpioSpec → GpioSpec → ℕ → G → G
rounds api led0 led1 zero g = g
rounds api led0 led1 (suc n) g =
    rounds api led0 led1 n (second_half api led0 led1 (first_half api led0 led1 g))
