-- ===== src/Tests/RxWitness.antt =====
-- The theorems on the receive buffer and on parsing at concrete inputs.
use zephyr_stm32h.Common.{
  ℕ, ◌+◌, ◌≤◌, ◌≡◌, refl, ◌↔◌, true, none, some, List, [], ◌∷◌, ◌++◌, arith, length, take,
  length-replicate, u16, le16, ℕ, ◌+◌, ◌≤◌, ◌≡◌, refl, ◌↔◌, true, none, some, List, [], ◌∷◌, ◌++◌,
  arith, length, take, length-replicate, u16, le16, pos,
}
use zephyr_stm32h.Ota.Frame.{Frame, struct_bytes, ota_frame_build}
use zephyr_stm32h.Ota.Session.{SessionOk, frame_process-SessionOk}
use zephyr_stm32h.Ota.Parse.{
  parse_bytes, fault, parsed, is_header, scan, parse_at, ota_frame_parse, read_frame,
}
use zephyr_stm32h.Ota.Parse.RoundTrip.{Carries, parse-build}
use zephyr_stm32h.Ota.Parse.Sound.{IsFirst, Stands, parse_accepts, parse_faults_iff}
use zephyr_stm32h.Ota.Rx.{rx_rdy, uart_cb, ota_process_rx}
use zephyr_stm32h.Ota.Rx.Loop.{PollsWell, process_rx_ends}
use zephyr_stm32h.Ota.Rx.System.{System, irq, here, next, boot, SystemOk, main-SystemOk}
use zephyr_stm32h.Tests.Toy.{
  Flash, toy_board, old_frame, fresh, handshake, rx_of, rx_of-RxOk, idle_state-SessionOk,
}

abbrev powered_on : System Flash
powered_on = record { world = fresh; rx = rx_of [] }

abbrev booted : System Flash
booted =
    boot (pos 0, some (record { fa_off = 0x20000; fa_size = 0xe0000 })) (pos 0, none) true (pos 0)
      (pos 0) powered_on

-- A handshake request arrives.
abbrev received : System Flash
received = record booted { rx = (uart_cb (rx_rdy handshake 0 20) booted.rx).0 }

main-SystemOk_example : SystemOk received
main-SystemOk_example =
    main-SystemOk toy_board powered_on received
      (pos 0, some (record { fa_off = 0x20000; fa_size = 0xe0000 })) (pos 0, none) true (pos 0)
      (pos 0) (omega arith) (rx_of-RxOk [] (omega arith))
      (next here (irq (rx_rdy handshake 0 20) (omega arith)))

process_rx_ends_example :
    PollsWell
      (λ v. SessionOk v.ota)
      (rx_of handshake)
      (ota_process_rx toy_board fresh (rx_of handshake))
process_rx_ends_example =
    process_rx_ends toy_board (λ v. SessionOk v.ota) fresh (rx_of handshake)
      (rx_of-RxOk handshake (omega arith)) (frame_process-SessionOk toy_board) idle_state-SessionOk

abbrev built : Frame × ℕ
built = ota_frame_build old_frame 7 0 0x20 1 0 4 (some (9 ∷ 8 ∷ [])) 2

-- Two bytes of noise, the frame, and the start of another one.
abbrev noisy : List ℕ
noisy = (0 ∷ 0x34 ∷ []) ++ (take built.1 (struct_bytes built.0) ++ (0x12 ∷ []))

parse-build_example :
    (g : Frame) × (ota_frame_parse noisy (length noisy) old_frame ≡ parsed built.1 g)
    × Carries 7 0 0x20 1 0 4 2 (9 ∷ 8 ∷ []) g
parse-build_example =
    parse-build old_frame old_frame 7 0 0x20 1 0 4 2 (9 ∷ 8 ∷ []) (0 ∷ 0x34 ∷ []) (0x12 ∷ [])
      (length-replicate 65535 0x55)
      (omega arith, omega arith, omega arith, omega arith, omega arith, omega arith) (omega arith)
      (omega arith) (ground arith)

handshake_parses :
    ota_frame_parse handshake 20 old_frame ≡ parsed 20 (read_frame handshake 0 old_frame)
unfolding ota_frame_parse parse_bytes scan parse_at is_header
handshake_parses = refl

parse_accepts_example :
    (pos : ℕ) × IsFirst handshake 20 pos
    × Stands handshake pos (read_frame handshake 0 old_frame)
    × (20 ≡ u16 (20 + (read_frame handshake 0 old_frame).data_len))
    × (pos + 20 ≤ 20)
    × (pos + 20 + (read_frame handshake 0 old_frame).data_len ≤ 20)
parse_accepts_example =
    parse_accepts handshake 20 20 old_frame (read_frame handshake 0 old_frame) (omega arith)
      handshake_parses

-- A header that announces 65530 bytes of payload.
abbrev wrapping : List ℕ
wrapping =
    0x12 ∷ 0x34 ∷ 7 ∷ 0 ∷ 0 ∷ 0 ∷ 0x20 ∷ 0 ∷ 1 ∷ 0 ∷ 0 ∷ 0 ∷ 1 ∷ 0 ∷ 0xfa ∷ 0xff ∷ 0 ∷ 0 ∷ 0xcd
    ∷ 0xef ∷ []

wrapping-IsFirst : IsFirst wrapping 20 0
unfolding is_header
wrapping-IsFirst = record { room = omega arith; here = refl; before = λ i h. absurd (omega arith) }

parse_faults_iff_example :
    (ota_frame_parse wrapping 20 old_frame ≡ fault)
    ↔ ((65516 ≤ le16 wrapping 14) × (u16 (20 + le16 wrapping 14) ≤ 20))
parse_faults_iff_example =
    parse_faults_iff wrapping 20 0 old_frame wrapping-IsFirst (omega arith) (omega arith)
