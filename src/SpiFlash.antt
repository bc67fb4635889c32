-- ===== src/SpiFlash.antt =====
-- The test of app50_spiflash/src/main.c, over Zephyr's flash driver as a parameter.
pub mod Contents
use zephyr_stm32h.Common.{
  ℕ, zero, suc, ◌+◌, ◌-◌, ◌*◌, ◌/◌, ◌%◌, ◌^◌, ◌≤◌, ◌<◌, ◌≡◌, refl, sym, ap, subst, ◌∙◌, ◌≢◌, ◌↔◌,
  ◌⊎◌, inl, inr, Bool, true, false, true≢false, not, ◌&&◌, ◌||◌, Option, none, some, List, [], ◌∷◌,
  ◌++◌, append-nil, append_assoc, arith, ltb, leb, ◌==◌, if◌then◌else◌, lt→ltb, le→ltb, le→leb,
  lt→leb, ==_iff, ==_refl, Bool-cases, if_rule, length, get_or, set, take, drop, replicate, All,
  length-append, length-take, length-drop, length-replicate, length-set, take-append-drop,
  take-append_left, take-append_right, drop-append_right, take_all, get_or-append_left,
  get_or-append_right, get_or-take, get_or-drop, u8, u16, u32, is_negative, is_err, le16, le32,
  bytes16, bytes32, ℤ, pos, negsuc,
}

-- The calls on the flash, with what they return; a read also gives the bytes.
pub record FlashApi (F : Type 0) : Type 0 where
  pub device_is_ready : F → Bool
  pub flash_erase : F → ℕ → ℕ → ℤ × F
  pub flash_write : F → ℕ → List ℕ → ℤ × F
  pub flash_read : F → ℕ → ℕ → ℤ × List ℕ

-- The calls that `main` makes.
pub data FlashCall : Type 0 where
  erase write read : FlashCall

-- TEST_OFFSET
abbrev pub test_offset : ℕ
test_offset = 65536

abbrev pub erase_size : ℕ
erase_size = 4096

abbrev pub write_buf : List ℕ
write_buf =
    17 ∷ 34 ∷ 51 ∷ 68 ∷ 85 ∷ 102 ∷ 119 ∷ 136 ∷ 153 ∷ 170 ∷ 187 ∷ 204 ∷ 221 ∷ 238 ∷ 255 ∷ 90 ∷ []

-- The bytes that `main` prints, if it gets so far, and the calls it has made.
abbrev pub main : {F : Type 0} → FlashApi F → F → Option (List ℕ) × List FlashCall
main api f =
    let (e, f1) = api.flash_erase f test_offset erase_size in
    let (w, f2) = api.flash_write f1 test_offset write_buf in
    let (r, read_buf) = api.flash_read f2 test_offset (length write_buf) in
    if not (api.device_is_ready f)
    then (none, [])
    else if is_err e
    then (none, erase ∷ [])
    else if is_err w
    then (none, erase ∷ write ∷ [])
    else if is_err r
    then (none, erase ∷ write ∷ read ∷ [])
    else (some read_buf, erase ∷ write ∷ read ∷ [])
