-- ===== src/Shell.antt =====
-- The commands of app80_shell/src/main.c, over the GPIO calls and `atoi` as parameters.
pub mod Status
use zephyr_stm32h.Common.{
  ℕ, zero, suc, ◌+◌, ◌-◌, ◌*◌, ◌/◌, ◌%◌, ◌^◌, ◌≤◌, ◌<◌, ◌≡◌, refl, sym, ap, subst, ◌∙◌, ◌≢◌, ◌↔◌,
  ◌⊎◌, inl, inr, Bool, true, false, true≢false, not, ◌&&◌, ◌||◌, Option, none, some, List, [], ◌∷◌,
  ◌++◌, append-nil, append_assoc, arith, ltb, leb, ◌==◌, if◌then◌else◌, lt→ltb, le→ltb, le→leb,
  lt→leb, ==_iff, ==_refl, Bool-cases, if_rule, length, get_or, set, take, drop, replicate, All,
  length-append, length-take, length-drop, length-replicate, length-set, take-append-drop,
  take-append_left, take-append_right, drop-append_right, take_all, get_or-append_left,
  get_or-append_right, get_or-take, get_or-drop, u8, u16, u32, is_negative, is_err, le16, le32,
  bytes16, bytes32, ℤ, pos, negsuc,
}

-- `gpio_is_ready_dt`, `gpio_pin_configure_dt` and `gpio_pin_set_raw` of a pin, and what `sys_reboot` leaves of
-- the pins. The pins are 0 and 1, those of `led0` and `led1`. The commands and `main` look at neither what
-- `gpio_pin_configure_dt` nor what `gpio_pin_set_raw` returns, which is 0 or a negative error.
pub record GpioApi (G : Type 0) : Type 0 where
  pub gpio_is_ready_dt : G → ℕ → Bool
  pub gpio_pin_configure_dt : G → ℕ → ℤ × G
  pub gpio_pin_set_raw : G → ℕ → ℕ → ℤ × G
  pub sys_reboot : G → G

-- `level g p` is the level to which a pin is set. A `gpio_pin_set_raw` that returns 0 sets it, and one
-- that fails promises nothing of its pin; the other pins stay as they are.
pub record GpioLaws {G : Type 0} (api : GpioApi G) (level : G → ℕ → ℕ) : Type 0 where
  pub set_pin :
      (g : G) (p v : ℕ)
      → (api.gpio_pin_set_raw g p v).0 ≡ pos 0
      → level (api.gpio_pin_set_raw g p v).1 p ≡ v
  pub set_others : (g : G) (p q v : ℕ) → p ≢ q → level (api.gpio_pin_set_raw g p v).1 q ≡ level g q

-- The pins, and `led0_state` and `led1_state`.
pub record Leds (G : Type 0) : Type 0 where
  pub gpio : G
  pub led0_state : Bool
  pub led1_state : Bool

-- -EINVAL
abbrev pub einval : ℤ
einval = negsuc 21

-- The arguments with the name of the command in front, as `argv` has them; `argc` is their number.
abbrev pub Argv : Type 0
Argv = List (List ℕ)

-- argv[1]
abbrev pub first_arg : Argv → List ℕ
first_arg (name ∷ arg ∷ args) = arg
first_arg _ = []

-- Whether a number is that of this LED.
abbrev pub is_led : ℤ → ℕ → Bool
is_led (pos n) k = n == k
is_led (negsuc n) k = false

-- `cmd_led_on` and `cmd_led_off` differ in the level and the state.
abbrev pub switch_led :
    {G : Type 0} → GpioApi G → (List ℕ → ℤ) → ℕ → Bool → Argv → Leds G → ℤ × Leds G
switch_led api atoi level state argv s =
    let led_num = atoi (first_arg argv) in
    if ltb (length argv) 2
    then (einval, s)
    else if is_led led_num 0
    then (pos 0, record s { gpio = (api.gpio_pin_set_raw s.gpio 0 level).1; led0_state = state })
    else if is_led led_num 1
    then (pos 0, record s { gpio = (api.gpio_pin_set_raw s.gpio 1 level).1; led1_state = state })
    else (einval, s)

abbrev pub cmd_led_on : {G : Type 0} → GpioApi G → (List ℕ → ℤ) → Argv → Leds G → ℤ × Leds G
cmd_led_on api atoi argv s = switch_led api atoi 0 true argv s

abbrev pub cmd_led_off : {G : Type 0} → GpioApi G → (List ℕ → ℤ) → Argv → Leds G → ℤ × Leds G
cmd_led_off api atoi argv s = switch_led api atoi 1 false argv s

-- What `cmd_led_status` prints of both.
abbrev pub cmd_led_status : {G : Type 0} → Leds G → ℤ × (Bool × Bool)
cmd_led_status s = (pos 0, (s.led0_state, s.led1_state))

-- `main`, with what it returns; the LEDs are off at the level 1.
abbrev pub main : {G : Type 0} → GpioApi G → Leds G → ℤ × Leds G
main api s =
    let g = (api.gpio_pin_configure_dt (api.gpio_pin_configure_dt s.gpio 0).1 1).1 in
    if not (api.gpio_is_ready_dt s.gpio 0) || not (api.gpio_is_ready_dt s.gpio 1)
    then (negsuc 0, s)
    else (pos 0, record s { gpio = (api.gpio_pin_set_raw (api.gpio_pin_set_raw g 0 1).1 1 1).1 })

-- `led0_state` and `led1_state` start as false.
abbrev pub power_on : {G : Type 0} → G → Leds G
power_on g = record { gpio = g; led0_state = false; led1_state = false }

-- `cmd_info` only prints.
abbrev pub cmd_info : ℤ
cmd_info = pos 0

-- `cmd_reboot`: after the reboot `main` runs again.
abbrev pub cmd_reboot : {G : Type 0} → GpioApi G → Leds G → Leds G
cmd_reboot api s = (main api (power_on (api.sys_reboot s.gpio))).1

pub data ShellCmd : Type 0 where
  led_on led_off : Argv → ShellCmd
  led_status info reboot : ShellCmd

abbrev pub run_cmd : {G : Type 0} → GpioApi G → (List ℕ → ℤ) → ShellCmd → Leds G → Leds G
run_cmd api atoi (led_on argv) s = (cmd_led_on api atoi argv s).1
run_cmd api atoi (led_off argv) s = (cmd_led_off api atoi argv s).1
run_cmd api atoi led_status s = s
run_cmd api atoi info s = s
run_cmd api atoi reboot s = cmd_reboot api s

-- Commands one after the other.
unfoldable pub run_cmds : {G : Type 0} → GpioApi G → (List ℕ → ℤ) → List ShellCmd → Leds G → Leds G
run_cmds api atoi [] s = s
run_cmds api atoi (c ∷ cs) s = run_cmds api atoi cs (run_cmd api atoi c s)
