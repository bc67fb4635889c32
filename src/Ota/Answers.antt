-- ===== src/Ota/Answers.antt =====
-- Every command that is addressed to the device is answered once.
use zephyr_stm32h.Common.{
  ℕ, suc, ◌+◌, ◌-◌, ◌≡◌, refl, ◌≢◌, not, ◌&&◌, ◌||◌, List, [], ◌∷◌, arith, ltb, ◌==◌, if_rule,
  length, get_or, take, drop, u16, u32, is_err, le32,
}
use zephyr_stm32h.Ota.Frame.{Frame}
use zephyr_stm32h.Ota.World.{
  World, Board, Effect, uart_tx, k_msleep, sys_reboot, response_bytes, ota_send_response,
}
use zephyr_stm32h.Ota.Handler.Control.{
  ota_cmd_handshake, ota_cmd_get_dev_info, ota_cmd_reset_run, ota_cmd_cancel_upgrade,
  ota_cmd_query_status, ota_cmd_set_boot_flag,
}
use zephyr_stm32h.Ota.Handler.Transfer.{
  ota_cmd_start_upgrade, ota_cmd_transfer_data, ota_cmd_transfer_done,
}
use zephyr_stm32h.Ota.Handler.Verify.{
  Checked, crc_of, read_failed, out_of_fuel, verdict, ota_cmd_verify_firmware,
}
use zephyr_stm32h.Ota.Handler.Verify.Loop.{verify_loop-ends}
use zephyr_stm32h.Ota.Dispatch.{ota_frame_process}
use zephyr_stm32h.Ota.Dispatch.Rule.{IsOurs, frame_process_ours}

-- The effects of a command: a response with its sequence number and code, whose length is that of its
-- payload, and then perhaps a delay and a reboot.
pub data Answered (stack : Frame) (seq cmd : ℕ) (old : List Effect) : List Effect → Type 0 where
  reply :
      (payload : List ℕ) (len : ℕ)
      → len ≡ length payload
      → Answered stack seq cmd old (uart_tx (response_bytes stack seq cmd payload len) ∷ old)
  reply_and_reboot :
      (payload : List ℕ) (len delay_ms : ℕ)
      → len ≡ length payload
      → Answered stack seq cmd old (
          sys_reboot ∷ k_msleep delay_ms ∷ uart_tx (response_bytes stack seq cmd payload len) ∷ old)

module _ {F : Type 0} where
  -- `w'` comes from `w` by an answer.
  abbrev pub Answers : ℕ → ℕ → World F → World F → Type 0
  Answers seq cmd w w' = Answered w.stack seq cmd w.effects w'.effects

  verdict-Answers :
      (w : World F) (seq : ℕ) (c : Checked) → c ≢ out_of_fuel → Answers seq 6 w (verdict w seq c)
  unfolding verdict
  verdict-Answers w seq (crc_of crc) h =
      if_rule (Answers seq 6 w) (crc == w.ota.firmware_crc) (reply _ 5 refl) (reply _ 5 refl)
  verdict-Answers w seq read_failed h = reply _ 5 refl
  verdict-Answers w seq out_of_fuel h = absurd (h refl)

module _ {F : Type 0} (b : Board F) (w : World F) (seq : ℕ) (payload : List ℕ) (len : ℕ) where
  start_upgrade-Answers : Answers seq 3 w (ota_cmd_start_upgrade b w seq payload len)
  unfolding ota_cmd_start_upgrade
  start_upgrade-Answers = if_rule (Answers seq 3 w) (ltb len 12) (reply _ 4 refl) (
      if_rule (Answers seq 3 w) (not (w.ota.status == 0) && not (w.ota.status == 4))
        (reply _ 4 refl)
        (if_rule (Answers seq 3 w) (ltb w.ota.slot_size (le32 payload 0)) (reply _ 4 refl) (
          if_rule (Answers seq 3 w) (is_err (b.flash_area_erase w.slot1 0 w.ota.slot_size).0)
            (reply _ 4 refl) (reply _ 4 refl))))

  transfer_data-Answers : Answers seq 4 w (ota_cmd_transfer_data b w seq payload len)
  unfolding ota_cmd_transfer_data
  transfer_data-Answers =
      if_rule (Answers seq 4 w) (not w.ota.in_progress || not (w.ota.status == 2)) (reply _ 5 refl)
        (if_rule (Answers seq 4 w) (ltb len 4) (reply _ 5 refl) (
          if_rule (Answers seq 4 w) (not (le32 payload 0 == w.ota.current_offset)) (reply _ 5 refl)
            (if_rule (Answers seq 4 w)
              (ltb w.ota.firmware_size (u32 (le32 payload 0 + u16 (len - 4)))) (reply _ 5 refl)
              (if_rule (Answers seq 4 w)
                (is_err
                  (b.flash_area_write w.slot1 (le32 payload 0)
                    (take (u16 (len - 4)) (drop 4 payload))).0)
                (reply _ 5 refl) (reply _ 5 refl)))))

  transfer_done-Answers : Answers seq 5 w (ota_cmd_transfer_done b w seq payload len)
  unfolding ota_cmd_transfer_done
  transfer_done-Answers = if_rule (Answers seq 5 w) (not w.ota.in_progress) (reply _ 5 refl) (
      if_rule (Answers seq 5 w) (not (le32 payload 4 == w.ota.received_size)) (reply _ 5 refl)
        (reply _ 5 refl))

  verify_firmware-Answers : Answers seq 6 w (ota_cmd_verify_firmware b w seq payload len)
  unfolding ota_cmd_verify_firmware
  verify_firmware-Answers = if_rule (Answers seq 6 w) (not (w.ota.status == 4)) (reply _ 5 refl) (
      verdict-Answers (record w { ota = record (w.ota) { status = 3 } }) seq _
        (verify_loop-ends b (suc w.ota.firmware_size) w.slot1 (b.crc32_ieee []) 0
          w.ota.firmware_size (omega arith)))

module _ {F : Type 0} (w : World F) (seq : ℕ) (payload : List ℕ) (len : ℕ) where
  reset_run-Answers : Answers seq 7 w (ota_cmd_reset_run w seq payload len)
  unfolding ota_cmd_reset_run
  reset_run-Answers =
      if_rule (Answers seq 7 w) (not (w.ota.status == 4)) (reply _ 1 refl)
        (reply_and_reboot _ 1 _ refl)

  set_boot_flag-Answers : Answers seq 10 w (ota_cmd_set_boot_flag w seq payload len)
  unfolding ota_cmd_set_boot_flag
  set_boot_flag-Answers = if_rule (Answers seq 10 w) (ltb len 1) (reply _ 1 refl) (
      if_rule (Answers seq 10 w) (get_or payload 0 0 == 1 && w.ota.status == 4) (reply _ 1 refl)
        (if_rule (Answers seq 10 w) (get_or payload 0 0 == 0) (reply _ 1 refl) (reply _ 1 refl)))

-- A frame for the device is answered exactly once: the effects grow by one response with the sequence
-- number and the command of the frame, made of as many bytes as its payload has, and, if the command
-- reboots, by the delay and the reboot behind it. This holds for unknown commands too, and
-- VERIFY_FIRMWARE always comes to its answer.
pub frame_process-Answered :
    {F : Type 0} (b : Board F) (w : World F) (frame : Frame)
    → IsOurs frame
    → Answered w.stack frame.seq frame.cmd w.effects (ota_frame_process b w frame).effects
unfolding ota_send_response ota_cmd_handshake ota_cmd_get_dev_info ota_cmd_cancel_upgrade
    ota_cmd_query_status
frame_process-Answered b w frame ours =
    frame_process_ours b Answers (λ v seq cmd. reply _ 4 refl)
      (
        (λ v seq bytes len. reply _ 3 refl),
        (λ v seq bytes len. reply _ 34 refl),
        start_upgrade-Answers b,
        transfer_data-Answers b,
        transfer_done-Answers b,
        verify_firmware-Answers b,
        reset_run-Answers,
        (λ v seq bytes len. reply _ 1 refl),
        (λ v seq bytes len. reply _ 14 refl),
        set_boot_flag-Answers,
      )
      w frame ours
