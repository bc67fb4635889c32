-- ===== src/Ota/Handler/Control.antt =====
-- ota_handler_init and the handlers of ota_handler.c that touch no flash.

use zephyr_stm32h.Common.{
  ℕ, ◌*◌, true, false, not, ◌&&◌, ℤ, Option, some, List, [], ◌∷◌, ◌++◌, ltb, leb, ◌==◌, get_or,
  if◌then◌else◌, is_err, le16, bytes16, bytes32,
}
use zephyr_stm32h.Ota.World.{
  World, OtaState, k_msleep, sys_reboot, ota_send_response, status_idle, status_complete, err_none,
  max_packet_size,
}

abbrev pub cmd_handshake : ℕ
cmd_handshake = 0x0001

abbrev pub cmd_get_dev_info : ℕ
cmd_get_dev_info = 0x0002

abbrev pub cmd_reset_run : ℕ
cmd_reset_run = 0x0007

abbrev pub cmd_cancel_upgrade : ℕ
cmd_cancel_upgrade = 0x0008

abbrev pub cmd_query_status : ℕ
cmd_query_status = 0x0009

abbrev pub cmd_set_boot_flag : ℕ
cmd_set_boot_flag = 0x000a

abbrev pub protocol_version_major : ℕ
protocol_version_major = 1

abbrev pub protocol_version_minor : ℕ
protocol_version_minor = 0

-- "STM32H743", padded with zeros to 16 bytes by `strncpy`.
abbrev pub mcu_model : List ℕ
mcu_model =
    b'S' ∷ b'T' ∷ b'M' ∷ b'3' ∷ b'2' ∷ b'H' ∷ b'7' ∷ b'4' ∷ b'3' ∷ 0 ∷ 0 ∷ 0 ∷ 0 ∷ 0 ∷ 0 ∷ 0 ∷ []

-- What `flash_area_open` leaves in `fa_off` and `fa_size`.
pub record Area : Type 0 where
  pub fa_off : ℕ
  pub fa_size : ℕ

-- `slot0` and `slot1` are the error of `flash_area_open` and the pointer that it sets.
unfoldable pub ota_handler_init : ℤ × Option Area → ℤ × Option Area → OtaState → OtaState
ota_handler_init (err0, slot0) (err1, slot1) s =
    if is_err err0 then s else if is_err err1 then s else with_areas slot0 slot1
  where
    reset : ℕ → ℕ → ℕ → OtaState
    reset off0 off1 size = record s {
      status = status_idle;
      error_code = err_none;
      received_size = 0;
      firmware_size = 0;
      firmware_crc = 0;
      calculated_crc = 0;
      current_offset = 0;
      max_packet = max_packet_size;
      in_progress = false;
      slot0_offset = off0;
      slot1_offset = off1;
      slot_size = size;
    }

    with_areas : Option Area → Option Area → OtaState
    with_areas (some a) (some b) = reset a.fa_off b.fa_off a.fa_size
    with_areas _ _ = reset 0x20000 0x110000 0xf0000

module _ {F : Type 0} where
  unfoldable pub ota_cmd_handshake : World F → ℕ → List ℕ → ℕ → World F
  unfolding ota_send_response
  ota_cmd_handshake w seq payload len =
      ota_send_response w seq cmd_handshake
        (w.ota.status ∷ protocol_version_minor ∷ protocol_version_major ∷ []) 3

  unfoldable pub ota_cmd_get_dev_info : World F → ℕ → List ℕ → ℕ → World F
  unfolding ota_send_response
  ota_cmd_get_dev_info w seq payload len =
      ota_send_response w seq cmd_get_dev_info
        (mcu_model
          ++ bytes32 0x01000000
          ++ bytes32 (2 * 1024 * 1024)
          ++ bytes16 4096
          ++ bytes32 0x20000
          ++ bytes32 w.ota.slot0_offset)
        34

  unfoldable pub ota_cmd_reset_run : World F → ℕ → List ℕ → ℕ → World F
  unfolding ota_send_response
  ota_cmd_reset_run w seq payload len =
      if not (w.ota.status == status_complete)
      then ota_send_response w seq cmd_reset_run (0xff ∷ []) 1
      else (let delay_ms = if leb 2 len then le16 payload 0 else 0 in
          let w' = ota_send_response w seq cmd_reset_run (0x00 ∷ []) 1 in
          record w' { effects = sys_reboot ∷ k_msleep delay_ms ∷ w'.effects; rebooted = true })

  unfoldable pub ota_cmd_cancel_upgrade : World F → ℕ → List ℕ → ℕ → World F
  unfolding ota_send_response
  ota_cmd_cancel_upgrade w seq payload len =
      ota_send_response
        (record w {
          ota = record (w.ota) {
            status = status_idle;
            error_code = err_none;
            received_size = 0;
            current_offset = 0;
            in_progress = false;
            calculated_crc = 0;
          };
        })
        seq cmd_cancel_upgrade (0x00 ∷ []) 1

  unfoldable pub ota_cmd_query_status : World F → ℕ → List ℕ → ℕ → World F
  unfolding ota_send_response
  ota_cmd_query_status w seq payload len =
      ota_send_response w seq cmd_query_status
        ((w.ota.status ∷ bytes32 w.ota.received_size)
          ++ bytes32 w.ota.firmware_size
          ++ (w.ota.error_code ∷ 0 ∷ 0 ∷ 0 ∷ 0 ∷ []))
        14

  unfoldable pub ota_cmd_set_boot_flag : World F → ℕ → List ℕ → ℕ → World F
  unfolding ota_send_response
  ota_cmd_set_boot_flag w seq payload len =
      if ltb len 1
      then ota_send_response w seq cmd_set_boot_flag (0xff ∷ []) 1
      else (let flag = get_or payload 0 0 in
          if flag == 0x01 && w.ota.status == status_complete
          then ota_send_response (record w { ota = record (w.ota) { boot_flag = 1 } }) seq
              cmd_set_boot_flag (0x00 ∷ []) 1
          else if flag == 0x00
          then ota_send_response (record w { ota = record (w.ota) { boot_flag = 0 } }) seq
              cmd_set_boot_flag (0x00 ∷ []) 1
          else ota_send_response w seq cmd_set_boot_flag (0xff ∷ []) 1)
