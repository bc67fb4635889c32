-- ===== src/Ota/Rx/Twice.antt =====
-- Bytes in front of a frame are not counted as consumed, so the frame can be met again.
use zephyr_stm32h.Common.{
  drop-append_left, ℕ, zero, suc, ◌+◌, ◌-◌, ◌*◌, ◌≤◌, ◌<◌, ◌≡◌, ap, ◌∙◌, true, false, List, [], ◌∷◌,
  ◌++◌, arith, ltb, ◌==◌, length, take, drop, length-drop, u16,
}
use zephyr_stm32h.Ota.Frame.{Frame}
use zephyr_stm32h.Ota.World.{World, Board}
use zephyr_stm32h.Ota.Wire.{wire_header}
use zephyr_stm32h.Ota.Dispatch.{ota_frame_process}
use zephyr_stm32h.Ota.Parse.{parsed, read_frame, ota_frame_parse}
use zephyr_stm32h.Ota.Parse.RoundTrip.{IsQuiet, Carries, image-parsed, image-Carries}
use zephyr_stm32h.Ota.Rx.{Rx, rx_buf_size, after_frame, process_parsed, process_loop}

IsQuiet-drop : (n : ℕ) (xs : List ℕ) → IsQuiet xs → IsQuiet (drop n xs)
IsQuiet-drop zero xs h = h
IsQuiet-drop (suc n) [] h = h
IsQuiet-drop (suc n) (x ∷ xs) h = IsQuiet-drop n xs h.1

-- One round of the loop in which a frame is found.
loop_round :
    {F : Type 0} (b : Board F) (fuel : ℕ) (w : World F) (rx : Rx) (processed n : ℕ) (g : Frame)
    → processed < rx.rx_len
    → rx.rx_len ≤ rx_buf_size
    → 0 < n
    → processed + n ≤ rx_buf_size
    → ota_frame_parse (drop processed rx.rx_buf) (rx.rx_len - processed) w.stack ≡ parsed n g
    → process_loop b (suc fuel) w rx processed
      ≡ after_frame
          (ota_frame_process b w g)
          (process_loop b fuel (ota_frame_process b w g) rx (processed + n))
unfolding process_loop process_parsed
loop_round b fuel w rx processed n g h hr hn hp e =
    let more : ltb processed rx.rx_len ≡ true = ground arith in
    let len : u16 (rx.rx_len - processed) ≡ rx.rx_len - processed = omega arith in
    let at : u16 (processed + n) ≡ processed + n = omega arith in
    let some_read : (n == 0) ≡ false = ground arith in rw (more, len, e, some_read, at)

-- If at least as many bytes without 0x12 stand in front of a frame as the frame has, the loop hands
-- the frame to `ota_frame_process` and then hands the same frame to it once more.
pub frame_twice :
    {F : Type 0} (b : Board F) (fuel : ℕ) (w : World F) (rx : Rx)
    (seq src dst total pkt_seq cmd len : ℕ) (payload garbage more : List ℕ)
    → (seq < 65536)
      × (src < 65536)
      × (dst < 65536)
      × (total < 65536)
      × (pkt_seq < 65536)
      × (cmd < 65536)
    → len ≤ length payload
    → 4 ≤ length more
    → IsQuiet garbage
    → 20 + len ≤ length garbage
    → length garbage + 20 + len ≤ rx.rx_len
    → rx.rx_len ≤ rx_buf_size
    → rx.rx_buf
      ≡ garbage ++ (wire_header seq src dst total pkt_seq cmd len ++ (take len payload ++ more))
    → (g g' : Frame) × Carries seq src dst total pkt_seq cmd len payload g
      × Carries seq src dst total pkt_seq cmd len payload g'
      × (let w' = ota_frame_process b w g in
          let w'' = ota_frame_process b w' g' in
          process_loop b (suc (suc fuel)) w rx 0
          ≡ after_frame w' (after_frame w'' (process_loop b fuel w'' rx (2 * (20 + len)))))
frame_twice b fuel w rx seq src dst total pkt_seq cmd len payload garbage more hb hp hm hq hg hr hz
      e =
    let n : ℕ = 16 + len + 4 in
    let hl : len ≤ 65515 = omega arith in
    let frame : List ℕ =
      wire_header seq src dst total pkt_seq cmd len ++ (take len payload ++ more) in
    let rest : List ℕ = drop n garbage in
    let hrest : IsQuiet rest = IsQuiet-drop n garbage hq in
    let lrest : length rest ≡ length garbage - n = length-drop n garbage in
    let g : Frame = read_frame (garbage ++ frame) (length garbage) w.stack in
    let w' = ota_frame_process b w g in
    let g' : Frame = read_frame (rest ++ frame) (length rest) w'.stack in
    let w'' = ota_frame_process b w' g' in
    let first : ota_frame_parse (drop 0 rx.rx_buf) (rx.rx_len - 0) w.stack ≡ parsed n g = rw e (
      image-parsed seq src dst total pkt_seq cmd len payload garbage more hq hp hl (rx.rx_len - 0)
        w.stack (omega arith) (omega arith) hm) in
    let shifted : drop n rx.rx_buf ≡ rest ++ frame =
      ap (drop n) e ∙ drop-append_left n garbage frame (omega arith) in
    let second : ota_frame_parse (drop n rx.rx_buf) (rx.rx_len - n) w'.stack ≡ parsed n g' =
      rw shifted (
        image-parsed seq src dst total pkt_seq cmd len payload rest more hrest hp hl (rx.rx_len - n)
          w'.stack (omega arith) (omega arith) hm) in
    let start : 0 + n ≡ n = omega arith in
    let twice : n + n ≡ 2 * (20 + len) = omega arith in
    (
      g,
      g',
      image-Carries seq src dst total pkt_seq cmd len payload garbage more hq hp hl hb.0 hb.1 hb.2
          hb.3 hb.4 hb.5 w.stack,
      image-Carries seq src dst total pkt_seq cmd len payload rest more hrest hp hl hb.0 hb.1 hb.2
          hb.3 hb.4 hb.5 w'.stack,
      loop_round b (suc fuel) w rx 0 n g (omega arith) hz (omega arith) (omega arith) first
          ∙ ap (after_frame w') (
              ap (λ (at : ℕ). process_loop b (suc fuel) w' rx at) start
              ∙ loop_round b fuel w' rx n n g' (omega arith) hz (omega arith) (omega arith) second
              ∙ ap (after_frame w'') (ap (λ (at : ℕ). process_loop b fuel w'' rx at) twice)),
    )
