-- ===== src/UartDma.antt =====
-- The double buffer of app05_uart_dma/src/main.c, over Zephyr's asynchronous UART driver as a parameter.
pub mod Buffers
use zephyr_stm32h.Common.{
  ℕ, zero, suc, ◌+◌, ◌-◌, ◌*◌, ◌/◌, ◌%◌, ◌^◌, ◌≤◌, ◌<◌, ◌≡◌, refl, sym, ap, subst, ◌∙◌, ◌≢◌, ◌↔◌,
  ◌⊎◌, inl, inr, Bool, true, false, true≢false, not, ◌&&◌, ◌||◌, Option, none, some, List, [], ◌∷◌,
  ◌++◌, append-nil, append_assoc, arith, ltb, leb, ◌==◌, if◌then◌else◌, lt→ltb, le→ltb, le→leb,
  lt→leb, ==_iff, ==_refl, Bool-cases, if_rule, length, get_or, set, take, drop, replicate, All,
  length-append, length-take, length-drop, length-replicate, length-set, take-append-drop,
  take-append_left, take-append_right, drop-append_right, take_all, get_or-append_left,
  get_or-append_right, get_or-take, get_or-drop, u8, u16, u32, is_negative, is_err, le16, le32,
  bytes16, bytes32, ℤ, pos, negsuc,
}

-- A part of a buffer: `evt->data.rx`.
pub record RxData : Type 0 where
  pub buf : ℕ
  pub offset : ℕ
  pub len : ℕ

-- The events of `uart_cb`. A released buffer comes with its event.
pub data UartEvent : Type 0 where
  uart_rx_buf_request : UartEvent
  uart_rx_rdy : RxData → UartEvent
  uart_rx_buf_released : ℕ → UartEvent
  uart_rx_disabled uart_tx_done uart_tx_aborted : UartEvent

-- The calls on the driver, with what they return. The buffers are `rx_buf[0]` and `rx_buf[1]`.
pub record UartApi (D : Type 0) : Type 0 where
  pub device_is_ready : D → Bool
  pub uart_callback_set : D → ℤ × D
  pub uart_rx_enable : D → ℕ → ℤ × D
  pub uart_rx_buf_rsp : D → ℕ → ℤ × D
  pub uart_tx : D → RxData → ℤ × D

-- Which buffer the driver fills, and which one it has for later.
pub data RxState : Type 0 where
  stopped : RxState
  fills : ℕ → RxState
  fills_then : ℕ → ℕ → RxState

-- What the driver does of its own, with the event that it reports: it asks for a buffer while it has none
-- for later, goes on to the one that it has when the first one is full, and stops if it has none.
pub data RxMove : RxState → UartEvent → RxState → Type 0 where
  asks : (f : ℕ) → RxMove (fills f) uart_rx_buf_request (fills f)
  reports : (r : RxState) (d : RxData) → RxMove r (uart_rx_rdy d) r
  goes_on : (f w : ℕ) → RxMove (fills_then f w) (uart_rx_buf_released f) (fills w)
  runs_out : (f : ℕ) → RxMove (fills f) (uart_rx_buf_released f) stopped
  stops : (r : RxState) → RxMove r uart_rx_disabled stopped
  sent : (r : RxState) → RxMove r uart_tx_done r
  aborted : (r : RxState) → RxMove r uart_tx_aborted r

-- `rx d` is how reception stands, and `Drive` how the driver gets on.
pub record UartLaws {D : Type 0} (api : UartApi D) (Drive : D → UartEvent → D → Type 0)
    (rx : D → RxState) : Type 0 where
  pub moves : (d d' : D) (e : UartEvent) → Drive d e d' → RxMove (rx d) e (rx d')
  pub enable_starts :
      (d : D) (b : ℕ) → (api.uart_rx_enable d b).0 ≡ pos 0 → rx (api.uart_rx_enable d b).1 ≡ fills b
  pub rsp_accepted :
      (d : D) (f b : ℕ) → rx d ≡ fills f → rx (api.uart_rx_buf_rsp d b).1 ≡ fills_then f b
  pub tx_keeps : (d : D) (p : RxData) → rx (api.uart_tx d p).1 ≡ rx d

pub record Uart (D : Type 0) : Type 0 where
  pub uart : D
  pub rx_buf_idx : ℕ

abbrev pub uart_cb : {D : Type 0} → UartApi D → UartEvent → Uart D → Uart D
uart_cb api uart_rx_buf_request s = record {
  uart = (api.uart_rx_buf_rsp s.uart s.rx_buf_idx).1;
  rx_buf_idx = if s.rx_buf_idx == 0 then 1 else 0;
}
uart_cb api (uart_rx_rdy d) s = record s { uart = (api.uart_tx s.uart d).1 }
uart_cb api _ s = s

-- `main` up to its loop; `none` is a return.
abbrev pub main : {D : Type 0} → UartApi D → Uart D → Option (Uart D)
main api s =
    let (err, d) = api.uart_callback_set s.uart in
    let (err', d') = api.uart_rx_enable d 0 in
    if not (api.device_is_ready s.uart)
    then none
    else if is_err err
    then none
    else if is_err err'
    then none
    else some (record { uart = d'; rx_buf_idx = 1 })

-- The driver gets on, and calls back.
pub data UartStep {D : Type 0} (api : UartApi D) (Drive : D → UartEvent → D → Type 0) (s : Uart D)
    : Uart D → Type 0 where
  calls_back :
      (e : UartEvent) (d : D)
      → Drive s.uart e d
      → UartStep api Drive s (uart_cb api e (record s { uart = d }))
