-- ===== src/Eeprom.antt =====
-- `eeprom_write`, `eeprom_read` and `main` of app10_eeprom/src/main.c. The delay of the write cycle is
-- left out.
pub mod Chip
use zephyr_stm32h.Common.{
  ℕ, zero, suc, ◌+◌, ◌-◌, ◌*◌, ◌/◌, ◌%◌, ◌^◌, ◌≤◌, ◌<◌, ◌≡◌, refl, sym, ap, subst, ◌∙◌, ◌≢◌, ◌↔◌,
  ◌⊎◌, inl, inr, Bool, true, false, true≢false, not, ◌&&◌, ◌||◌, Option, none, some, List, [], ◌∷◌,
  ◌++◌, append-nil, append_assoc, arith, ltb, leb, ◌==◌, if◌then◌else◌, lt→ltb, le→ltb, le→leb,
  lt→leb, ==_iff, ==_refl, Bool-cases, if_rule, length, get_or, set, take, drop, replicate, All,
  length-append, length-take, length-drop, length-replicate, length-set, take-append-drop,
  take-append_left, take-append_right, drop-append_right, take_all, get_or-append_left,
  get_or-append_right, get_or-take, get_or-drop, u8, u16, u32, is_negative, is_err, le16, le32,
  bytes16, bytes32, ℤ, pos, negsuc,
}

abbrev pub test_data_size : ℕ
test_data_size = 16

abbrev pub test_offset : ℕ
test_offset = 0x00

-- -EINVAL, where EINVAL is 22.
abbrev pub einval : ℤ
einval = negsuc 21

-- Zephyr's calls, over a state of the bus and the chip: `i2c_write_dt`, and `i2c_read_dt` with the bytes
-- that it stores.
pub record Bus (S : Type 0) : Type 0 where
  pub i2c_write_dt : S → List ℕ → ℤ × S
  pub i2c_read_dt : S → ℕ → ℤ × List ℕ × S

-- The loop that fills `write_data`.
abbrev pub counting : ℕ → ℕ → List ℕ
counting i zero = []
counting i (suc n) = u8 i ∷ counting (i + 1) n

-- `memcmp(xs, ys, n) == 0`.
abbrev pub same_bytes : ℕ → List ℕ → List ℕ → Bool
same_bytes zero xs ys = true
same_bytes (suc n) xs ys = get_or xs 0 0 == get_or ys 0 0 && same_bytes n (drop 1 xs) (drop 1 ys)

module _ {S : Type 0} (bus : Bus S) where
  unfoldable pub eeprom_write : S → ℕ → List ℕ → ℕ → ℤ × S
  eeprom_write s offset bytes len =
      if ltb test_data_size len
      then (einval, s)
      else (let (ret, s') = bus.i2c_write_dt s (offset ∷ take len bytes) in
          if is_negative ret then (ret, s') else (pos 0, s'))

  -- The buffer behind the call is returned too.
  unfoldable pub eeprom_read : S → ℕ → List ℕ → ℕ → ℤ × List ℕ × S
  eeprom_read s offset buf len =
      if ltb test_data_size len
      then (einval, buf, s)
      else (let (ret, s') = bus.i2c_write_dt s (offset ∷ []) in
          if is_negative ret
          then (ret, buf, s')
          else (let (ret', bytes, s'') = bus.i2c_read_dt s' len in
              let buf' = take len bytes ++ drop len buf in
              (if is_negative ret' then ret' else pos 0, buf', s'')))

  -- The comparison and the read of a single byte, whose result is only printed.
  unfoldable pub compare_data : S → List ℕ → List ℕ → ℤ × S
  unfolding eeprom_read
  compare_data s write_data read_data =
      if same_bytes test_data_size write_data read_data
      then (pos 0, (eeprom_read s (test_offset + 5) (0 ∷ []) 1).2)
      else (negsuc 0, s)

  unfoldable pub eeprom_main : Bool → S → ℤ × S
  unfolding eeprom_write eeprom_read compare_data
  eeprom_main ready s =
      let write_data = counting 0 test_data_size in
      let (ret, s1) = eeprom_write s test_offset write_data test_data_size in
      let (ret', read_data, s2) =
        eeprom_read s1 test_offset (replicate test_data_size 0) test_data_size in
      if not ready
      then (negsuc 0, s)
      else if is_negative ret
      then (ret, s1)
      else if is_negative ret'
      then (ret', s2)
      else compare_data s2 write_data read_data
