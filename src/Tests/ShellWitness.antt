-- ===== src/Tests/ShellWitness.antt =====
-- The theorem on the shell's commands at a concrete input, with pins in memory.
use zephyr_stm32h.Common.{
  ℕ, ◌-◌, refl, true, List, [], ◌∷◌, arith, ◌==◌, if◌then◌else◌, ==_iff, ==_refl, ℤ, pos,
}
use zephyr_stm32h.Shell.{
  GpioApi, GpioLaws, Leds, cmd_led_status, main, ShellCmd, led_on, led_off, led_status, reboot,
  power_on, run_cmds,
}
use zephyr_stm32h.Shell.Status.{Shows, led_status_true}

abbrev toy_set : (ℕ → ℕ) → ℕ → ℕ → ℕ → ℕ
toy_set g p v q = if q == p then v else g q

abbrev toy_gpio : GpioApi (ℕ → ℕ)
toy_gpio = record {
  gpio_is_ready_dt = λ g p. true;
  gpio_pin_configure_dt = λ g p. (pos 0, g);
  gpio_pin_set_raw = λ g p v. (pos 0, toy_set g p v);
  sys_reboot = λ g. g;
}

toy_gpio_laws : GpioLaws toy_gpio (λ g p. g p)
toy_gpio_laws = record {
  set_pin = λ g p v _. ground (arith, ==_refl p);
  set_others = λ g p q v h. ground (arith, h, ==_iff q p);
}

-- One digit.
abbrev toy_atoi : List ℕ → ℤ
toy_atoi [] = pos 0
toy_atoi (c ∷ cs) = pos (c - 48)

-- The pins before the start.
abbrev pins : ℕ → ℕ
pins p = 0

-- The name of a command, and "1".
abbrev with_one : List (List ℕ)
with_one = (111 ∷ 110 ∷ []) ∷ (49 ∷ []) ∷ []

abbrev commands : List ShellCmd
commands = led_on with_one ∷ led_off ((111 ∷ []) ∷ []) ∷ led_status ∷ reboot ∷ led_on with_one ∷ []

-- The state after the commands.
abbrev after : Leds (ℕ → ℕ)
after = run_cmds toy_gpio toy_atoi commands (main toy_gpio (power_on pins)).1

led_status_true_example :
    Shows (cmd_led_status after).1.0 (after.gpio 0)
    × Shows (cmd_led_status after).1.1 (after.gpio 1)
led_status_true_example =
    led_status_true toy_gpio_laws (λ g p v. refl) toy_atoi (λ g. refl) pins commands
