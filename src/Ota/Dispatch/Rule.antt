-- ===== src/Ota/Dispatch/Rule.antt =====
-- A relation between the worlds before and after that every handler respects is respected by
-- `ota_frame_process`.
use zephyr_stm32h.Common.{
  ℕ, ◌≡◌, subst, ◌⊎◌, inl, inr, false, not, ◌&&◌, List, [], ◌∷◌, arith, ◌==◌, ==_iff, Bool-cases,
  All,
}
use zephyr_stm32h.Ota.Frame.{Frame}
use zephyr_stm32h.Ota.World.{World, Board, ota_send_response, addr_device}
use zephyr_stm32h.Ota.Handler.Control.{
  cmd_handshake, cmd_get_dev_info, cmd_reset_run, cmd_cancel_upgrade, cmd_query_status,
  cmd_set_boot_flag, ota_cmd_handshake, ota_cmd_get_dev_info, ota_cmd_reset_run,
  ota_cmd_cancel_upgrade, ota_cmd_query_status, ota_cmd_set_boot_flag,
}
use zephyr_stm32h.Ota.Handler.Transfer.{
  cmd_start_upgrade, cmd_transfer_data, cmd_transfer_done, fail4, ota_cmd_start_upgrade,
  ota_cmd_transfer_data, ota_cmd_transfer_done,
}
use zephyr_stm32h.Ota.Handler.Verify.{cmd_verify_firmware, ota_cmd_verify_firmware}
use zephyr_stm32h.Ota.Dispatch.{Handler, CmdEntry, cmd_table, run_entry, ota_frame_process}

-- `R seq cmd w w'` relates the worlds around a command with that sequence number and code.
module _ {F : Type 0} (R : ℕ → ℕ → World F → World F → Type 0) where
  abbrev pub Respects : ℕ → Handler F → Type 0
  Respects cmd handler =
      (w : World F) (seq : ℕ) (payload : List ℕ) (len : ℕ) → R seq cmd w (handler w seq payload len)

  pub run_entry_rule :
      (table : List (CmdEntry F)) (w : World F) (frame : Frame)
      → ((v : World F) (seq cmd : ℕ) → R seq cmd v (ota_send_response v seq cmd fail4 4))
      → All (λ entry. Respects entry.cmd entry.handler) table
      → R frame.seq frame.cmd w (run_entry table w frame)
  unfolding run_entry
  run_entry_rule [] w frame unknown known = unknown w frame.seq frame.cmd
  run_entry_rule (entry ∷ table) w frame unknown known =
      elim (Bool-cases (entry.cmd == frame.cmd)) [
        | inl this ↦ rw this (
            subst
              (λ (c : ℕ).
                R frame.seq c w (entry.handler w frame.seq frame.data_bytes frame.data_len))
              ((==_iff entry.cmd frame.cmd).0 this)
              (known.0 w frame.seq frame.data_bytes frame.data_len))
        | inr other ↦ rw other (run_entry_rule table w frame unknown known.1)
      ]

-- The frames that `ota_frame_process` does not ignore.
abbrev pub IsOurs : Frame → Type 0
IsOurs frame = (frame.dst_addr ≡ addr_device) ⊎ (frame.dst_addr ≡ 0xff)

module _ {F : Type 0} (b : Board F) (R : ℕ → ℕ → World F → World F → Type 0) where
  -- What every entry of `cmd_table` has to respect.
  abbrev pub AllRespect : Type 0
  AllRespect =
      Respects R cmd_handshake ota_cmd_handshake
      × Respects R cmd_get_dev_info ota_cmd_get_dev_info
      × Respects R cmd_start_upgrade (ota_cmd_start_upgrade b)
      × Respects R cmd_transfer_data (ota_cmd_transfer_data b)
      × Respects R cmd_transfer_done (ota_cmd_transfer_done b)
      × Respects R cmd_verify_firmware (ota_cmd_verify_firmware b)
      × Respects R cmd_reset_run ota_cmd_reset_run
      × Respects R cmd_cancel_upgrade ota_cmd_cancel_upgrade
      × Respects R cmd_query_status ota_cmd_query_status
      × Respects R cmd_set_boot_flag ota_cmd_set_boot_flag

  cmd_table_rule :
      ((v : World F) (seq cmd : ℕ) → R seq cmd v (ota_send_response v seq cmd fail4 4))
      → AllRespect
      → (w : World F) (frame : Frame) → R frame.seq frame.cmd w (run_entry (cmd_table b) w frame)
  unfolding cmd_table
  cmd_table_rule unknown (h0, h1, h2, h3, h4, h5, h6, h7, h8, h9) w frame =
      run_entry_rule R (cmd_table b) w frame unknown
        (h0, (h1, (h2, (h3, (h4, (h5, (h6, (h7, (h8, (h9, tt))))))))))

  pub frame_process_ours :
      ((v : World F) (seq cmd : ℕ) → R seq cmd v (ota_send_response v seq cmd fail4 4))
      → AllRespect
      → (w : World F) (frame : Frame) → IsOurs frame
      → R frame.seq frame.cmd w (ota_frame_process b w frame)
  unfolding ota_frame_process
  frame_process_ours unknown known w frame ours =
      let e : (not (frame.dst_addr == addr_device) && not (frame.dst_addr == 0xff)) ≡ false =
        ground arith in
      rw e (cmd_table_rule unknown known w frame)

  pub frame_process_rule :
      ((v : World F) (seq cmd : ℕ) → R seq cmd v v)
      → ((v : World F) (seq cmd : ℕ) → R seq cmd v (ota_send_response v seq cmd fail4 4))
      → AllRespect
      → (w : World F) (frame : Frame) → R frame.seq frame.cmd w (ota_frame_process b w frame)
  unfolding ota_frame_process
  frame_process_rule same unknown known w frame =
      elim (Bool-cases (not (frame.dst_addr == addr_device) && not (frame.dst_addr == 0xff))) [
        | inl foreign ↦ rw foreign (same w frame.seq frame.cmd)
        | inr ours ↦ rw ours (cmd_table_rule unknown known w frame)
      ]
