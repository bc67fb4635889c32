-- ===== src/Ota/Upload.antt =====
-- An upload step by step: what flash and `ota_state` hold after START_UPGRADE and after each accepted
-- TRANSFER_DATA (app90_ota/src/ota_handler.c).
use zephyr_stm32h.Common.{
  ℕ, ◌+◌, ◌-◌, ◌^◌, ◌≤◌, ◌<◌, ◌≡◌, refl, sym, ap, ◌∙◌, ◌⊎◌, inl, inr, true, false, not, ◌&&◌, ◌||◌,
  List, [], ◌++◌, arith, ltb, ◌==◌, length, get_or, take, length-append, take-append_left, take_all,
  get_or-append_left, get_or-append_right, u16, u32, is_err, le32, bytes32,
}
use native.Mathlib.Decide.{dec_lt}
use zephyr_stm32h.Ota.World.{World, Board, status_idle, status_receiving, status_complete}
use zephyr_stm32h.Ota.Laws.{CrcLaws, FlashLaws}
use zephyr_stm32h.Ota.Handler.Transfer.{ota_cmd_start_upgrade, ota_cmd_transfer_data}

-- `image` has been received: it is in flash, in front of erased bytes, and the counters and the
-- running checksum are those of `image`.
pub record Received {F : Type 0} (b : Board F) (cell : F → ℕ → ℕ) (size : ℕ) (w : World F)
    (image : List ℕ) : Type 0 where
  pub receiving : w.ota.status ≡ status_receiving
  pub running : w.ota.in_progress ≡ true
  pub slot : w.ota.slot_size ≡ size
  pub slot_fits : size + 65536 ≤ 2 ^ 32
  pub fits : (length image ≤ w.ota.firmware_size) × (w.ota.firmware_size ≤ size)
  pub offset : w.ota.current_offset ≡ length image
  pub received : w.ota.received_size ≡ length image
  pub checksum : w.ota.calculated_crc ≡ b.crc32_ieee_update 0 image
  pub stored : (i : ℕ) → i < length image → cell w.slot1 i ≡ get_or image i 0
  pub blank : (i : ℕ) → length image ≤ i → i < size → cell w.slot1 i ≡ 0xff

-- The array `data` of a TRANSFER_DATA frame: the offset, the bytes, and old contents.
abbrev pub chunk_data : ℕ → List ℕ → List ℕ → List ℕ
chunk_data offset chunk old = bytes32 offset ++ (chunk ++ old)

pub le32-bytes32 : (n : ℕ) (rest : List ℕ) → n < 2 ^ 32 → le32 (bytes32 n ++ rest) 0 ≡ n
le32-bytes32 n rest h = omega arith

module _ {F : Type 0} {b : Board F} {cell : F → ℕ → ℕ} {size : ℕ} (crc_laws : CrcLaws b)
    (flash_laws : FlashLaws b cell size) where
  open crc_laws use {update-append, update-nil}
  open flash_laws use {erased, written, kept}

  -- START_UPGRADE in a state that is not busy, for a size that fits the slot, with an erase that
  -- succeeds, begins an upload of that size.
  pub start_upgrade-Received :
      (w : World F) (seq : ℕ) (payload : List ℕ) (len : ℕ)
      → 12 ≤ len
      → (w.ota.status ≡ status_idle) ⊎ (w.ota.status ≡ status_complete)
      → w.ota.slot_size ≡ size
      → size + 65536 ≤ 2 ^ 32
      → le32 payload 0 ≤ size
      → is_err (b.flash_area_erase w.slot1 0 size).0 ≡ false
      → Received b cell size (ota_cmd_start_upgrade b w seq payload len) []
        × ((ota_cmd_start_upgrade b w seq payload len).ota.firmware_size ≡ le32 payload 0)
        × ((ota_cmd_start_upgrade b w seq payload len).ota.firmware_crc ≡ le32 payload 4)
  unfolding ota_cmd_start_upgrade
  start_upgrade-Received w seq payload len hl hi hs hz hf ok =
      let t1 : ltb len 12 ≡ false = ground arith in
      let t2 : (not (w.ota.status == status_idle) && not (w.ota.status == status_complete))
          ≡ false =
        ground arith in
      let t3 : ltb w.ota.slot_size (le32 payload 0) ≡ false = ground arith in
      rw (t1, t2, t3, hs, ok)
        (
          record {
            receiving = refl;
            running = refl;
            slot = refl;
            slot_fits = hz;
            fits = omega arith;
            offset = refl;
            received = refl;
            checksum = sym (update-nil 0);
            stored = λ i hi. absurd (omega arith);
            blank = λ i lo hi. erased w.slot1 0 size i (omega arith) ok (omega arith) (omega arith);
          },
          refl,
          refl,
        )

  write_stores :
      (w : World F) (image chunk : List ℕ)
      → Received b cell size w image
      → length image + length chunk ≤ size
      → is_err (b.flash_area_write w.slot1 (length image) chunk).0 ≡ false
      → (i : ℕ) → i < length image + length chunk
      → cell (b.flash_area_write w.slot1 (length image) chunk).1 i ≡ get_or (image ++ chunk) i 0
  write_stores w image chunk r hf ok i hi =
      let n : ℕ = length image in
      let f' : F = (b.flash_area_write w.slot1 n chunk).1 in
      elim (dec_lt i n) [
        | yes old ↦
            kept w.slot1 n chunk i hf ok (inl old)
            ∙ r.stored i old
            ∙ sym (get_or-append_left image chunk i 0 old)
        | no new ↦
            (let j : ℕ = i - n in
              let e : i ≡ n + j = omega arith in
              let blank : (k : ℕ) → k < length chunk → cell w.slot1 (n + k) ≡ 0xff =
                λ k hk. r.blank (n + k) (omega arith) (omega arith) in
              ap (cell f') e
              ∙ written w.slot1 n chunk j hf ok blank (omega arith)
              ∙ sym (get_or-append_right image chunk i j 0 e))
      ]

  -- A TRANSFER_DATA at the offset that has been reached, whose bytes fit the announced size, and
  -- whose write succeeds, appends its bytes.
  pub transfer_data-Received :
      (w : World F) (seq : ℕ) (image chunk old : List ℕ)
      → Received b cell size w image
      → length chunk ≤ 65531
      → length image + length chunk ≤ w.ota.firmware_size
      → is_err (b.flash_area_write w.slot1 (length image) chunk).0 ≡ false
      → Received b cell size
          (ota_cmd_transfer_data b w seq (chunk_data (length image) chunk old) (4 + length chunk))
          (image ++ chunk)
        × ((ota_cmd_transfer_data b w seq
              (chunk_data (length image) chunk old)
              (4 + length chunk)).ota.firmware_size
            ≡ w.ota.firmware_size)
  unfolding ota_cmd_transfer_data
  transfer_data-Received w seq image chunk old r hc hf ok =
      let n : ℕ = length image in
      let at : le32 (chunk_data n chunk old) 0 ≡ n =
        le32-bytes32 n (chunk ++ old) (omega (arith, r.fits, r.slot_fits)) in
      let t1 : (not w.ota.in_progress || not (w.ota.status == status_receiving)) ≡ false =
        ground (arith, r.receiving, r.running) in
      let t2 : ltb (4 + length chunk) 4 ≡ false = ground arith in
      let t3 : (n == w.ota.current_offset) ≡ true = ground (arith, r.offset) in
      let e : u16 (4 + length chunk - 4) ≡ length chunk = omega arith in
      let t4 : ltb w.ota.firmware_size (u32 (n + length chunk)) ≡ false =
        ground (arith, r.fits, r.slot_fits) in
      let bytes : take (length chunk) (chunk ++ old) ≡ chunk =
        take-append_left (length chunk) chunk old (omega arith)
        ∙ take_all (length chunk) chunk (omega arith) in
      let sum : length (image ++ chunk) ≡ n + length chunk = length-append image chunk in
      rw (t1, t2, at, t3, e, t4, bytes, ok)
        (
          record {
            receiving = r.receiving;
            running = r.running;
            slot = r.slot;
            slot_fits = r.slot_fits;
            fits = omega (arith, r.fits);
            offset = omega (arith, r.offset, r.fits, r.slot_fits);
            received = omega (arith, r.received, r.fits, r.slot_fits);
            checksum = rw r.checksum (sym (update-append 0 image chunk));
            stored =
                λ i hi. write_stores w image chunk r (omega (arith, r.fits)) ok i (omega arith);
            blank = λ i lo hi.
                kept w.slot1 n chunk i (omega (arith, r.fits)) ok (inr (omega arith))
                ∙ r.blank i (omega arith) hi;
          },
          refl,
        )
