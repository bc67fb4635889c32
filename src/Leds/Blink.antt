-- ===== src/Leds/Blink.antt =====
-- The LEDs take turns if they are pins of one port.
use zephyr_stm32h.Common.{ℕ, zero, suc, ◌≡◌, sym, ap, ◌∙◌, ◌≢◌}
use zephyr_stm32h.Leds.{GpioSpec, GpioApi, GpioLaws, first_half, second_half, rounds}

-- An LED shines at the level 0.
abbrev pub Shine : {G : Type 0} → (G → ℕ → ℕ → ℕ) → GpioSpec → GpioSpec → ℕ → ℕ → G → Type 0
Shine level led0 led1 a b g = (level g led0.port led0.pin ≡ a) × (level g led1.port led1.pin ≡ b)

module _ {G : Type 0} {api : GpioApi G} {level : G → ℕ → ℕ → ℕ} (laws : GpioLaws api level)
    (led0 led1 : GpioSpec) where
  first_half-Shine :
      (g : G)
      → led0.port ≡ led1.port
      → led0.pin ≢ led1.pin
      → Shine level led0 led1 0 1 (first_half api led0 led1 g)
  first_half-Shine g same apart =
      let g' = api.gpio_pin_set_raw g led0.port led0.pin 0 in
      (
        laws.set_other_pin g' led0.port led0.port led1.pin led0.pin 1 (λ e. apart (sym e))
            ∙ laws.set_pin g led0.port led0.pin 0,
        ap (λ (p : ℕ). level (api.gpio_pin_set_raw g' led0.port led1.pin 1) p led1.pin) (sym same)
            ∙ laws.set_pin g' led0.port led1.pin 1,
      )

  second_half-Shine :
      (g : G) → led0.pin ≢ led1.pin → Shine level led0 led1 1 0 (second_half api led0 led1 g)
  second_half-Shine g apart =
      let g' = api.gpio_pin_set_raw g led0.port led0.pin 1 in
      (
        laws.set_other_pin g' led1.port led0.port led1.pin led0.pin 0 (λ e. apart (sym e))
            ∙ laws.set_pin g led0.port led0.pin 1,
        laws.set_pin g' led1.port led1.pin 0,
      )

  rounds-Shine :
      (n : ℕ) (g : G)
      → led0.pin ≢ led1.pin
      → Shine level led0 led1 1 0 g
      → Shine level led0 led1 1 0 (rounds api led0 led1 n g)
  unfolding rounds
  rounds-Shine zero g apart h = h
  rounds-Shine (suc n) g apart h =
      rounds-Shine n _ apart (second_half-Shine (first_half api led0 led1 g) apart)

  -- If the LEDs are two pins of one port, then after any number of rounds and half of the next one only
  -- LED 0 shines, and after the other half only LED 1.
  pub leds_alternate :
      (n : ℕ) (g : G)
      → led0.port ≡ led1.port
      → led0.pin ≢ led1.pin
      → Shine level led0 led1 0 1 (first_half api led0 led1 (rounds api led0 led1 n g))
        × Shine level led0 led1 1 0
            (second_half api led0 led1 (first_half api led0 led1 (rounds api led0 led1 n g)))
  leds_alternate n g same apart = (
    first_half-Shine (rounds api led0 led1 n g) same apart,
    second_half-Shine (first_half api led0 led1 (rounds api led0 led1 n g)) apart,
  )

  -- If the ports and the pins differ, LED 1, once it shines, still shines after the first half of a round.
  pub never_off :
      (g : G)
      → led0.port ≢ led1.port
      → led0.pin ≢ led1.pin
      → Shine level led0 led1 0 (level g led1.port led1.pin) (first_half api led0 led1 g)
  never_off g ports pins =
      let g' = api.gpio_pin_set_raw g led0.port led0.pin 0 in
      (
        laws.set_other_pin g' led0.port led0.port led1.pin led0.pin 1 (λ e. pins (sym e))
            ∙ laws.set_pin g led0.port led0.pin 0,
        laws.set_other_port g' led0.port led1.port led1.pin led1.pin 1 ports
            ∙ laws.set_other_port g led0.port led1.port led0.pin led1.pin 0 ports,
      )
