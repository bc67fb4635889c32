-- ===== src/Ota/Dispatch.antt =====
-- `cmd_table` and `ota_frame_process` of ota_protocol.c.
pub mod Rule
use zephyr_stm32h.Common.{ℕ, not, ◌&&◌, List, [], ◌∷◌, ◌==◌, if◌then◌else◌}
use zephyr_stm32h.Ota.Frame.{Frame}
use zephyr_stm32h.Ota.World.{World, Board, ota_send_response, addr_device}
use zephyr_stm32h.Ota.Handler.Control.{
  cmd_handshake, cmd_get_dev_info, cmd_reset_run, cmd_cancel_upgrade, cmd_query_status,
  cmd_set_boot_flag, ota_cmd_handshake, ota_cmd_get_dev_info, ota_cmd_reset_run,
  ota_cmd_cancel_upgrade, ota_cmd_query_status, ota_cmd_set_boot_flag,
}
use zephyr_stm32h.Ota.Handler.Transfer.{
  cmd_start_upgrade, cmd_transfer_data, cmd_transfer_done, fail4, ota_cmd_start_upgrade,
  ota_cmd_transfer_data, ota_cmd_transfer_done,
}
use zephyr_stm32h.Ota.Handler.Verify.{cmd_verify_firmware, ota_cmd_verify_firmware}

-- `ota_cmd_handler_t`; the state that the handlers share is passed along.
abbrev pub Handler : Type 0 → Type 0
Handler F = World F → ℕ → List ℕ → ℕ → World F

pub record CmdEntry (F : Type 0) : Type 0 where
  pub cmd : ℕ
  pub handler : Handler F

module _ {F : Type 0} where
  -- The search of the table; behind its end the command is unknown.
  unfoldable pub run_entry : List (CmdEntry F) → World F → Frame → World F
  run_entry [] w frame = ota_send_response w frame.seq frame.cmd fail4 4
  run_entry (entry ∷ table) w frame =
      let rest = run_entry table w frame in
      if entry.cmd == frame.cmd
      then entry.handler w frame.seq frame.data_bytes frame.data_len
      else rest

module _ {F : Type 0} (b : Board F) where
  unfoldable pub cmd_table : List (CmdEntry F)
  cmd_table =
      record { cmd = cmd_handshake; handler = ota_cmd_handshake }
      ∷ record { cmd = cmd_get_dev_info; handler = ota_cmd_get_dev_info }
      ∷ record { cmd = cmd_start_upgrade; handler = ota_cmd_start_upgrade b }
      ∷ record { cmd = cmd_transfer_data; handler = ota_cmd_transfer_data b }
      ∷ record { cmd = cmd_transfer_done; handler = ota_cmd_transfer_done b }
      ∷ record { cmd = cmd_verify_firmware; handler = ota_cmd_verify_firmware b }
      ∷ record { cmd = cmd_reset_run; handler = ota_cmd_reset_run }
      ∷ record { cmd = cmd_cancel_upgrade; handler = ota_cmd_cancel_upgrade }
      ∷ record { cmd = cmd_query_status; handler = ota_cmd_query_status }
      ∷ record { cmd = cmd_set_boot_flag; handler = ota_cmd_set_boot_flag }
      ∷ []

  unfoldable pub ota_frame_process : World F → Frame → World F
  unfolding run_entry cmd_table
  ota_frame_process w frame =
      if not (frame.dst_addr == addr_device) && not (frame.dst_addr == 0xff)
      then w
      else run_entry cmd_table w frame
