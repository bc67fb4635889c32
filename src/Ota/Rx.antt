-- ===== src/Ota/Rx.antt =====
-- The receive buffer of ota_protocol.c: `uart_cb`, `ota_protocol_init` and `ota_process_rx`.
pub mod Buffer
pub mod Loop
pub mod System
pub mod Twice
pub mod Race
pub mod Bounded
use zephyr_stm32h.Common.{
  ℕ, zero, suc, ◌+◌, ◌-◌, Bool, true, false, ◌&&◌, ℤ, is_err, Option, none, some, List, [], ◌∷◌,
  ◌++◌, take, drop, ltb, leb, ◌==◌, if◌then◌else◌, u16,
}
use zephyr_stm32h.Ota.Parse.{Parsed, fault, reject, parsed, ota_frame_parse}
use zephyr_stm32h.Ota.World.{World, Board}
use zephyr_stm32h.Ota.Dispatch.{ota_frame_process}

abbrev pub rx_buf_size : ℕ
rx_buf_size = 4096

pub record Rx : Type 0 where
  pub rx_buf : List ℕ
  pub rx_len : ℕ

-- The events of Zephyr's asynchronous UART driver. `rx_rdy` has what stands in `evt->data.rx.buf`, which may
-- be a part of `rx_buf` into which the driver has stored, the offset and the length.
pub data UartEvent : Type 0 where
  rx_rdy : List ℕ → ℕ → ℕ → UartEvent
  rx_buf_request : UartEvent
  rx_buf_released rx_disabled tx_done tx_aborted : UartEvent

-- memcpy(&buf[at], src, n).
unfoldable pub write_at : List ℕ → ℕ → List ℕ → ℕ → List ℕ
write_at buf at src n = take at buf ++ (take n src ++ drop (at + n) buf)

-- The new buffer, and the place and size of what `uart_rx_buf_rsp` hands to the driver.
unfoldable pub uart_cb : UartEvent → Rx → Rx × Option (ℕ × ℕ)
unfolding write_at
uart_cb (rx_rdy buf offset len) rx =
    let copy_len = u16 len in
    (
      if leb (rx.rx_len + copy_len) rx_buf_size
          then record {
            rx_buf = write_at rx.rx_buf rx.rx_len (drop offset buf) copy_len;
            rx_len = u16 (rx.rx_len + copy_len);
          }
          else rx,
      none,
    )
uart_cb rx_buf_request rx = (rx, some (rx.rx_len, rx_buf_size - rx.rx_len))
uart_cb _ rx = (rx, none)

-- `ready`, `set` and `enable` are what device_is_ready, uart_callback_set and uart_rx_enable return.
-- The Boolean says whether reception has started.
unfoldable pub ota_protocol_init : Bool → ℤ → ℤ → Rx → Rx × Bool
ota_protocol_init ready set enable rx =
    if ready
    then (if is_err set
        then (rx, false)
        else (record rx { rx_len = 0 }, if is_err enable then false else true))
    else (rx, false)

-- How the loop over the frames ends: with `processed`, by a reboot, by an access outside of the
-- receive buffer, or without fuel.
pub data LoopEnd (F : Type 0) : Type 0 where
  done : World F → ℕ → LoopEnd F
  rebooting : World F → LoopEnd F
  faulted : LoopEnd F
  out_of_fuel : LoopEnd F

-- How a call of `ota_process_rx` ends.
pub data Poll (F : Type 0) : Type 0 where
  polled : World F → Rx → Poll F
  rebooting : World F → Poll F
  faulted : Poll F
  out_of_fuel : Poll F

-- memmove of what is left to the start of the buffer.
unfoldable pub compact : Rx → ℕ → Rx
compact rx processed =
    let left = rx.rx_len - processed in
    if ltb 0 processed && ltb processed rx.rx_len
    then record {
      rx_buf = take left (drop processed rx.rx_buf) ++ drop left rx.rx_buf;
      rx_len = left;
    }
    else if leb rx.rx_len processed
    then record rx { rx_len = 0 }
    else rx

module _ {F : Type 0} where
  -- What follows `ota_frame_process` in a round; `next` is the loop from there on.
  abbrev pub after_frame : World F → LoopEnd F → LoopEnd F
  after_frame w next = if w.rebooted then LoopEnd.rebooting w else next

  unfoldable pub finish : Rx → LoopEnd F → Poll F
  unfolding compact
  finish rx (LoopEnd.done w processed) = Poll.polled w (compact rx processed)
  finish rx (LoopEnd.rebooting w) = Poll.rebooting w
  finish rx LoopEnd.faulted = Poll.faulted
  finish rx LoopEnd.out_of_fuel = Poll.out_of_fuel

module _ {F : Type 0} (b : Board F) where
  -- The rest of a round, by what `ota_frame_parse` returned; `next` is the loop from there on.
  unfoldable pub process_parsed : World F → ℕ → (World F → ℕ → LoopEnd F) → Parsed → LoopEnd F
  process_parsed w processed next fault = LoopEnd.faulted
  process_parsed w processed next reject = LoopEnd.done w processed
  process_parsed w processed next (parsed frame_len frame) =
      let w' = ota_frame_process b w frame in
      let rest = next w' (u16 (processed + frame_len)) in
      if frame_len == 0 then LoopEnd.done w processed else after_frame w' rest

  unfoldable pub process_loop : ℕ → World F → Rx → ℕ → LoopEnd F
  process_loop zero w rx processed = LoopEnd.out_of_fuel
  process_loop (suc fuel) w rx processed =
      let result =
        ota_frame_parse (drop processed rx.rx_buf) (u16 (rx.rx_len - processed)) w.stack in
      let round = process_parsed w processed (λ v at. process_loop fuel v rx at) result in
      if ltb processed rx.rx_len then round else LoopEnd.done w processed

  -- Each round consumes a byte at least, so `rx_len + 1` rounds are enough.
  unfoldable pub ota_process_rx : World F → Rx → Poll F
  unfolding finish
  ota_process_rx w rx = finish rx (process_loop (suc rx.rx_len) w rx 0)
