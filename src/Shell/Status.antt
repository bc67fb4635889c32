-- ===== src/Shell/Status.antt =====
-- What `led status` prints is what the LEDs show.
use zephyr_stm32h.Common.{
  refl, ℕ, ◌≡◌, ap, ◌∙◌, inl, inr, Bool, true, false, true≢false, not, ◌||◌, List, [], ◌∷◌, arith,
  ltb, if◌then◌else◌, Bool-cases, length, is_negative, ℤ, pos,
}
use zephyr_stm32h.Shell.{
  GpioApi, GpioLaws, Leds, Argv, first_arg, is_led, switch_led, cmd_led_status, main, ShellCmd,
  led_on, led_off, led_status, info, reboot, power_on, run_cmds,
}

-- Each LED shines at the level 0, and else the level is 1.
abbrev pub Shows : Bool → ℕ → Type 0
Shows state level = level ≡ (if state then 0 else 1)

module _ {G : Type 0} {api : GpioApi G} {level : G → ℕ → ℕ} (laws : GpioLaws api level)
    (works : (g : G) (p v : ℕ) → (api.gpio_pin_set_raw g p v).0 ≡ pos 0) (atoi : List ℕ → ℤ) where
  abbrev pub StatusOk : Leds G → Type 0
  StatusOk s = Shows s.led0_state (level s.gpio 0) × Shows s.led1_state (level s.gpio 1)

  switch_led-StatusOk :
      (on : Bool) (argv : Argv) (s : Leds G)
      → StatusOk s
      → StatusOk (switch_led api atoi (if on then 0 else 1) on argv s).1
  switch_led-StatusOk on argv s h =
      let v : ℕ = if on then 0 else 1 in
      elim (Bool-cases (ltb (length argv) 2)) [
        | inl short ↦ rw short h
        | inr enough ↦ elim (Bool-cases (is_led (atoi (first_arg argv)) 0)) [
          | inl a ↦
              rw (enough, a)
                (
                  laws.set_pin s.gpio 0 v (works s.gpio 0 v),
                  laws.set_others s.gpio 0 1 v (λ e. absurd (omega (arith, e))) ∙ h.1,
                )
          | inr a ↦ elim (Bool-cases (is_led (atoi (first_arg argv)) 1)) [
            | inl b ↦
                rw (enough, a, b)
                  (
                    laws.set_others s.gpio 1 0 v (λ e. absurd (omega (arith, e))) ∙ h.0,
                    laws.set_pin s.gpio 1 v (works s.gpio 1 v),
                  )
            | inr b ↦ rw (enough, a, b) h
          ]
        ]
      ]

  main-StatusOk :
      (s : Leds G)
      → s.led0_state ≡ false
      → s.led1_state ≡ false
      → (main api s).0 ≡ pos 0
      → StatusOk (main api s).1
  main-StatusOk s a b ok =
      let g = (api.gpio_pin_configure_dt (api.gpio_pin_configure_dt s.gpio 0).1 1).1 in
      let g' : G = (api.gpio_pin_set_raw g 0 1).1 in
      elim (Bool-cases
        (not (api.gpio_is_ready_dt s.gpio 0) || not (api.gpio_is_ready_dt s.gpio 1))) [
          | inl e ↦ absurd (true≢false (ap is_negative (rw e at ok)))
          | inr e ↦
              rw (e, a, b)
                (
                  laws.set_others g' 1 0 1 (λ h. absurd (omega (arith, h)))
                      ∙ laws.set_pin g 0 1 (works g 0 1),
                  laws.set_pin g' 1 1 (works g' 1 1),
                )
        ]

  run_cmds-StatusOk :
      ((g : G) → (main api (power_on g)).0 ≡ pos 0)
      → (cs : List ShellCmd) (s : Leds G) → StatusOk s
      → StatusOk (run_cmds api atoi cs s)
  unfolding run_cmds
  run_cmds-StatusOk starts [] s h = h
  run_cmds-StatusOk starts (led_on argv ∷ cs) s h =
      run_cmds-StatusOk starts cs _ (switch_led-StatusOk true argv s h)
  run_cmds-StatusOk starts (led_off argv ∷ cs) s h =
      run_cmds-StatusOk starts cs _ (switch_led-StatusOk false argv s h)
  run_cmds-StatusOk starts (led_status ∷ cs) s h = run_cmds-StatusOk starts cs s h
  run_cmds-StatusOk starts (info ∷ cs) s h = run_cmds-StatusOk starts cs s h
  run_cmds-StatusOk starts (reboot ∷ cs) s h =
      let g : G = api.sys_reboot s.gpio in
      run_cmds-StatusOk starts cs _ (main-StatusOk (power_on g) refl refl (starts g))

  -- If every `gpio_pin_set_raw` returns 0, which the code does not test, and `main` returns 0 whenever it
  -- starts, then after any commands that follow the start, with whatever
  -- arguments, reboots among them, each LED that `led status` reports as on has the level 0, and each other
  -- one the level 1.
  pub led_status_true :
      ((g : G) → (main api (power_on g)).0 ≡ pos 0)
      → (g : G) (cs : List ShellCmd)
      → let s = run_cmds api atoi cs (main api (power_on g)).1 in
        Shows (cmd_led_status s).1.0 (level s.gpio 0)
        × Shows (cmd_led_status s).1.1 (level s.gpio 1)
  led_status_true starts g cs =
      run_cmds-StatusOk starts cs (main api (power_on g)).1
        (main-StatusOk (power_on g) refl refl (starts g))
