-- ===== src/Ota/Rx/System.antt =====
-- `main` of app90_ota/src/main.c: initialisation, then the polling loop, with UART interrupts between
-- its rounds.
use zephyr_stm32h.Common.{
  ℕ, List, length, ◌∙◌, ◌+◌, ◌^◌, ◌≤◌, ◌≡◌, subst, Bool, false, Option, none, some, arith, set, ℤ,
}
use zephyr_stm32h.Ota.World.{OtaState, World, Board}
use zephyr_stm32h.Ota.Handler.Control.{Area, ota_handler_init}
use zephyr_stm32h.Ota.Session.{SessionOk, frame_process-SessionOk}
use zephyr_stm32h.Ota.Rx.{Rx, UartEvent, uart_cb, polled, ota_protocol_init, ota_process_rx}
use zephyr_stm32h.Ota.Rx.Buffer.{RxOk, EventOk, uart_cb-RxOk}
use zephyr_stm32h.Ota.Rx.Loop.{PollsWell, process_rx_ends}

pub record System (F : Type 0) : Type 0 where
  pub world : World F
  pub rx : Rx

-- `ota_state` before `main`: zero in each field.
abbrev pub zero_state : OtaState
zero_state = record {
  status = 0;
  error_code = 0;
  received_size = 0;
  firmware_size = 0;
  firmware_crc = 0;
  calculated_crc = 0;
  current_offset = 0;
  max_packet = 0;
  boot_flag = 0;
  slot0_offset = 0;
  slot1_offset = 0;
  slot_size = 0;
  in_progress = false;
}

-- The two calls of initialisation; `world` and `rx` are what memory and flash hold before.
unfoldable pub boot :
    {F : Type 0} → ℤ × Option Area → ℤ × Option Area → Bool → ℤ → ℤ → System F → System F
boot slot0 slot1 ready set enable s = record s {
  world = record (s.world) { ota = ota_handler_init slot0 slot1 zero_state };
  rx = (ota_protocol_init ready set enable s.rx).0;
}

-- An interrupt between two rounds, a store of the UART driver, which `uart_rx_enable` and `uart_rx_buf_rsp`
-- have given `rx_buf` itself, and a round of `while (1)` that returns.
pub data Step {F : Type 0} (b : Board F) (s : System F) : System F → Type 0 where
  irq : (e : UartEvent) → EventOk e → Step b s (record s { rx = (uart_cb e s.rx).0 })
  stores :
      (buf : List ℕ)
      → length buf ≡ length s.rx.rx_buf
      → Step b s (record s { rx = record (s.rx) { rx_buf = buf } })
  poll :
      (w : World F) (rx : Rx)
      → ota_process_rx b s.world s.rx ≡ polled w rx
      → Step b s (record { world = w; rx = rx })

pub data Reach {F : Type 0} (b : Board F) (s : System F) : System F → Type 0 where
  here : Reach b s s
  next : {t u : System F} → Reach b s t → Step b t u → Reach b s u

pub record SystemOk {F : Type 0} (s : System F) : Type 0 where
  pub session : SessionOk s.world.ota
  pub buffer : RxOk s.rx

pub Step-SystemOk :
    {F : Type 0} (b : Board F) {s t : System F} → Step b s t → SystemOk s → SystemOk t
Step-SystemOk b {s} (irq e h) ok = record {
  session = ok.session;
  buffer = uart_cb-RxOk e s.rx h ok.buffer;
}
Step-SystemOk b {s} (stores buf h) ok = record {
  session = ok.session;
  buffer = record { size = h ∙ ok.buffer.size; bound = ok.buffer.bound };
}
Step-SystemOk {F} b {s} (poll w rx e) ok =
    let P : World F → Type 0 = λ v. SessionOk v.ota in
    let ends = process_rx_ends b P s.world s.rx ok.buffer (frame_process-SessionOk b) ok.session in
    go (subst (PollsWell P s.rx) e ends)
  where
    go :
        SessionOk w.ota × RxOk rx × (rx.rx_len ≤ s.rx.rx_len)
        → SystemOk (record { world = w; rx = rx })
    go h = record { session = h.0; buffer = h.1 }

-- The slot that `flash_area_open` reports leaves room below 2^32 for a frame's payload.
abbrev pub AreaOk : Option Area → Type 0
AreaOk none = Unit {0}
AreaOk (some a) = a.fa_size + 65536 ≤ 2 ^ 32

Reach-SystemOk : {F : Type 0} (b : Board F) {s t : System F} → SystemOk s → Reach b s t → SystemOk t
Reach-SystemOk b ok here = ok
Reach-SystemOk b ok (next r st) = Step-SystemOk b st (Reach-SystemOk b ok r)

init-SessionOk :
    (slot0 slot1 : ℤ × Option Area)
    → AreaOk slot0.1
    → SessionOk (ota_handler_init slot0 slot1 zero_state)
unfolding ota_handler_init
init-SessionOk (e0, none) (e1, a1) h = ground arith
init-SessionOk (e0, some a0) (e1, none) h = ground arith
init-SessionOk (e0, some a0) (e1, some a1) h = ground arith

boot-SystemOk :
    {F : Type 0} (s : System F) (slot0 slot1 : ℤ × Option Area) (ready : Bool) (setting enable : ℤ)
    → AreaOk slot0.1
    → RxOk s.rx
    → SystemOk (boot slot0 slot1 ready setting enable s)
unfolding boot ota_protocol_init
boot-SystemOk s slot0 slot1 ready setting enable h ok = record {
  session = init-SessionOk slot0 slot1 h;
  buffer = ground (arith, ok.size, ok.bound);
}

-- Whatever initialisation reports of the devices, and whatever bytes, stores of the UART driver into the receive buffer and interrupts come after it,
-- `ota_state` keeps the invariant of the session and the receive buffer stays in bounds, provided
-- that slot 0 leaves room below 2^32 for a frame's payload.
pub main-SystemOk :
    {F : Type 0} (b : Board F) (s t : System F) (slot0 slot1 : ℤ × Option Area) (ready : Bool)
    (setting enable : ℤ)
    → AreaOk slot0.1
    → RxOk s.rx
    → Reach b (boot slot0 slot1 ready setting enable s) t
    → SystemOk t
main-SystemOk b s t slot0 slot1 ready setting enable h ok r =
    Reach-SystemOk b (boot-SystemOk s slot0 slot1 ready setting enable h ok) r
