-- ===== src/Ota/World.antt =====
-- The state behind the handlers (`ota_state_t` of ota_handler.h), what the handlers call outside of
-- the application, and `ota_send_response` of ota_protocol.c.
use zephyr_stm32h.Common.{ℕ, Bool, ℤ, some, List, ◌∷◌, take, u16}
use zephyr_stm32h.Ota.Frame.{Frame, struct_bytes, ota_frame_build}

abbrev pub addr_pc : ℕ
addr_pc = 0x00

abbrev pub addr_device : ℕ
addr_device = 0x20

abbrev pub status_idle : ℕ
status_idle = 0x00

abbrev pub status_erasing : ℕ
status_erasing = 0x01

abbrev pub status_receiving : ℕ
status_receiving = 0x02

abbrev pub status_verifying : ℕ
status_verifying = 0x03

abbrev pub status_complete : ℕ
status_complete = 0x04

abbrev pub status_error : ℕ
status_error = 0xff

abbrev pub err_none : ℕ
err_none = 0x00

abbrev pub err_firmware_size : ℕ
err_firmware_size = 0x01

abbrev pub err_flash_erase : ℕ
err_flash_erase = 0x02

abbrev pub err_flash_write : ℕ
err_flash_write = 0x03

abbrev pub err_crc_mismatch : ℕ
err_crc_mismatch = 0x04

abbrev pub err_offset_error : ℕ
err_offset_error = 0x05

abbrev pub max_packet_size : ℕ
max_packet_size = 1024

pub record OtaState : Type 0 where
  pub status : ℕ
  pub error_code : ℕ
  pub received_size : ℕ
  pub firmware_size : ℕ
  pub firmware_crc : ℕ
  pub calculated_crc : ℕ
  pub current_offset : ℕ
  pub max_packet : ℕ
  pub boot_flag : ℕ
  pub slot0_offset : ℕ
  pub slot1_offset : ℕ
  pub slot_size : ℕ
  pub in_progress : Bool

-- What leaves the processor, in the order in which it happens, the latest first.
pub data Effect : Type 0 where
  uart_tx : List ℕ → Effect
  k_msleep : ℕ → Effect
  sys_reboot : Effect

-- Zephyr's calls, over a type of flash contents: `flash_area_erase`, `flash_area_write` and
-- `flash_area_read` on slot 1 with an offset and a length or bytes, and the CRC of zephyr/sys/crc.h.
pub record Board (F : Type 0) : Type 0 where
  pub flash_area_erase : F → ℕ → ℕ → ℤ × F
  pub flash_area_write : F → ℕ → List ℕ → ℤ × F
  pub flash_area_read : F → ℕ → ℕ → ℤ × List ℕ
  pub crc32_ieee_update : ℕ → List ℕ → ℕ
  pub crc32_ieee : List ℕ → ℕ

-- `stack` is what a local `ota_frame_t` holds before it is written. `rebooted` is set by
-- `sys_reboot`, which does not return.
pub record World (F : Type 0) : Type 0 where
  pub ota : OtaState
  pub slot1 : F
  pub stack : Frame
  pub effects : List Effect
  pub rebooted : Bool

-- The bytes that `uart_tx` is given: the first `frame_len` bytes of the struct.
unfoldable pub response_bytes : Frame → ℕ → ℕ → List ℕ → ℕ → List ℕ
unfolding ota_frame_build
response_bytes stack seq cmd payload len =
    let (resp, frame_len) =
      ota_frame_build stack seq addr_device addr_pc 1 0 cmd (some payload) len in
    take (u16 frame_len) (struct_bytes resp)

unfoldable pub ota_send_response : {F : Type 0} → World F → ℕ → ℕ → List ℕ → ℕ → World F
ota_send_response w seq cmd payload len = record w {
  effects = uart_tx (response_bytes w.stack seq cmd payload len) ∷ w.effects;
}
