-- ===== src/Ota/Rx/Race.antt =====
-- `ota_process_rx` access by access, since a UART interrupt may come between any two of them: `rx_len`
-- is volatile, and each mention of it is a load.
use zephyr_stm32h.Common.{
  length, ℕ, ◌+◌, ◌-◌, ◌≡◌, true, false, ◌&&◌, List, ◌++◌, ltb, leb, ◌==◌, take, drop, u16,
}
use zephyr_stm32h.Ota.Frame.{Frame}
use zephyr_stm32h.Ota.World.{World, Board}
use zephyr_stm32h.Ota.Dispatch.{ota_frame_process}
use zephyr_stm32h.Ota.Parse.{reject, parsed, ota_frame_parse}
use zephyr_stm32h.Ota.Rx.{Rx, UartEvent, uart_cb}
use zephyr_stm32h.Ota.Rx.Buffer.{EventOk}

-- Where `main` stands in `ota_process_rx`, with `processed` and what it has loaded.
pub data RxPc : Type 0 where
  resting emptying : RxPc
  looping tested compacting testing_all moving shrinking : ℕ → RxPc
  framed : ℕ → ℕ → Frame → RxPc
  copying storing : ℕ → ℕ → RxPc

pub record Race (F : Type 0) : Type 0 where
  pub pc : RxPc
  pub world : World F
  pub rx : Rx

-- A step of `ota_process_rx`, with one access to what it shares with the callback. A frame whose command
-- reboots ends the program.
pub data CallStep {F : Type 0} (b : Board F) (s : Race F) : Race F → Type 0 where
  enters_loop :
      (p : ℕ)
      → s.pc ≡ looping p
      → ltb p s.rx.rx_len ≡ true
      → CallStep b s (record s { pc = tested p })
  ends_loop :
      (p : ℕ)
      → s.pc ≡ looping p
      → ltb p s.rx.rx_len ≡ false
      → CallStep b s (record s { pc = compacting p })
  parses :
      (p n : ℕ) (g : Frame)
      → s.pc ≡ tested p
      → ota_frame_parse (drop p s.rx.rx_buf) (u16 (s.rx.rx_len - p)) s.world.stack ≡ parsed n g
      → (n == 0) ≡ false
      → CallStep b s (record s { pc = framed p n g })
  parses_nothing :
      (p n : ℕ) (g : Frame)
      → s.pc ≡ tested p
      → ota_frame_parse (drop p s.rx.rx_buf) (u16 (s.rx.rx_len - p)) s.world.stack ≡ parsed n g
      → (n == 0) ≡ true
      → CallStep b s (record s { pc = compacting p })
  rejects :
      (p : ℕ)
      → s.pc ≡ tested p
      → ota_frame_parse (drop p s.rx.rx_buf) (u16 (s.rx.rx_len - p)) s.world.stack ≡ reject
      → CallStep b s (record s { pc = compacting p })
  processes :
      (p n : ℕ) (g : Frame)
      → s.pc ≡ framed p n g
      → (ota_frame_process b s.world g).rebooted ≡ false
      → CallStep b s
          (record s { pc = looping (u16 (p + n)); world = ota_frame_process b s.world g })
  some_left :
      (p : ℕ)
      → s.pc ≡ compacting p
      → (ltb 0 p && ltb p s.rx.rx_len) ≡ true
      → CallStep b s (record s { pc = moving p })
  not_some_left :
      (p : ℕ)
      → s.pc ≡ compacting p
      → (ltb 0 p && ltb p s.rx.rx_len) ≡ false
      → CallStep b s (record s { pc = testing_all p })
  sizes_move :
      (p : ℕ) → s.pc ≡ moving p → CallStep b s (record s { pc = copying p (s.rx.rx_len - p) })
  moves :
      (p n : ℕ)
      → s.pc ≡ copying p n
      → CallStep b s (record s {
        pc = shrinking p;
        rx = record (s.rx) { rx_buf = take n (drop p s.rx.rx_buf) ++ drop n s.rx.rx_buf };
      })
  loads_len : (p : ℕ) → s.pc ≡ shrinking p → CallStep b s (record s { pc = storing p s.rx.rx_len })
  stores_len :
      (p l : ℕ)
      → s.pc ≡ storing p l
      → CallStep b s
          (record s { pc = resting; rx = record (s.rx) { rx_len = u16 (65536 + l - p) } })
  all_read :
      (p : ℕ)
      → s.pc ≡ testing_all p
      → leb s.rx.rx_len p ≡ true
      → CallStep b s (record s { pc = emptying })
  not_all_read :
      (p : ℕ)
      → s.pc ≡ testing_all p
      → leb s.rx.rx_len p ≡ false
      → CallStep b s (record s { pc = resting })
  empties :
      s.pc ≡ emptying → CallStep b s (record s { pc = resting; rx = record (s.rx) { rx_len = 0 } })

-- The calls that `main` makes, interrupts, and what the UART driver stores: `uart_rx_enable` and
-- `uart_rx_buf_rsp` have given it `rx_buf` itself, so it may change any bytes of the buffer at any moment.
pub data RaceStep {F : Type 0} (b : Board F) (s : Race F) : Race F → Type 0 where
  calls : s.pc ≡ resting → RaceStep b s (record s { pc = looping 0 })
  code : {t : Race F} → CallStep b s t → RaceStep b s t
  irq : (e : UartEvent) → EventOk e → RaceStep b s (record s { rx = (uart_cb e s.rx).0 })
  stores :
      (buf : List ℕ)
      → length buf ≡ length s.rx.rx_buf
      → RaceStep b s (record s { rx = record (s.rx) { rx_buf = buf } })

pub data RaceRun {F : Type 0} (b : Board F) (s : Race F) : Race F → Type 0 where
  here : RaceRun b s s
  next : {t u : Race F} → RaceRun b s t → RaceStep b t u → RaceRun b s u
