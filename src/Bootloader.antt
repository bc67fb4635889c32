-- ===== src/Bootloader.antt =====
-- app95_bootloader/src/main.c, whose text is that of app01_led/src/main.c: what the bootloader starts.
use zephyr_stm32h.Common.{ℕ, ◌⊎◌, inl, inr, ℤ}
use zephyr_stm32h.Leds.{GpioSpec, GpioApi, setup, rounds}

-- After the setup, `n` rounds of the loop.
abbrev blink : {G : Type 0} → GpioApi G → GpioSpec → GpioSpec → ℕ → ℤ ⊎ G → ℤ ⊎ G
blink api led0 led1 n (inl ret) = inl ret
blink api led0 led1 n (inr g) = inr (rounds api led0 led1 n g)

abbrev pub main : {G : Type 0} → GpioApi G → GpioSpec → GpioSpec → ℕ → G → ℤ ⊎ G
main api led0 led1 n g = blink api led0 led1 n (setup api led0 led1 g)
