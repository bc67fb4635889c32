-- ===== src/Files/SdCard.antt =====
-- The tests of app20_sdcard/src/main.c.
pub mod Calls
pub mod Check
use zephyr_stm32h.Common.{
  ℕ, zero, suc, ◌+◌, ◌-◌, ◌*◌, ◌/◌, ◌%◌, ◌^◌, ◌≤◌, ◌<◌, ◌≡◌, refl, sym, ap, subst, ◌∙◌, ◌≢◌, ◌↔◌,
  ◌⊎◌, inl, inr, Bool, true, false, not, ◌&&◌, ◌||◌, Option, none, some, List, [], ◌∷◌, ◌++◌,
  append-nil, append_assoc, arith, ltb, leb, ◌==◌, if◌then◌else◌, lt→ltb, le→ltb, le→leb, lt→leb,
  ==_iff, ==_refl, Bool-cases, if_rule, length, get_or, set, take, drop, replicate, All,
  length-append, length-take, length-drop, length-replicate, length-set, take-append-drop,
  take-append_left, take-append_right, drop-append_right, take_all, get_or-append_left,
  get_or-append_right, get_or-take, get_or-drop, u8, u16, u32, is_negative, is_err, le16, le32,
  bytes16, bytes32, ℤ, pos, negsuc,
}
use zephyr_stm32h.Files.{
  Fs, Disk, write_create, read_only, Call, file_opened, file_closed, dir_opened, dir_closed,
  mounted, DirEnd, listed, out_of_fuel, is_empty, terminated,
}

-- "/SD:"
abbrev pub sd_root : List ℕ
sd_root = b'/' ∷ b'S' ∷ b'D' ∷ b':' ∷ []

-- "/SD:/test.txt"
abbrev pub test_file_path : List ℕ
test_file_path = sd_root ++ (b'/' ∷ b't' ∷ b'e' ∷ b's' ∷ b't' ∷ b'.' ∷ b't' ∷ b'x' ∷ b't' ∷ [])

-- "/SD:/test_dir"
abbrev pub test_dir_path : List ℕ
test_dir_path = sd_root ++ (b'/' ∷ b't' ∷ b'e' ∷ b's' ∷ b't' ∷ b'_' ∷ b'd' ∷ b'i' ∷ b'r' ∷ [])

-- "/SD:/test_dir/nested_file.txt"
abbrev pub test_file_in_dir : List ℕ
test_file_in_dir =
    test_dir_path
    ++ (b'/' ∷ b'n' ∷ b'e' ∷ b's' ∷ b't' ∷ b'e' ∷ b'd' ∷ b'_' ∷ b'f' ∷ b'i' ∷ b'l' ∷ b'e' ∷ b'.'
        ∷ b't' ∷ b'x' ∷ b't' ∷ [])

-- "This is a nested file in test_dir\n"
abbrev pub nested_data : List ℕ
nested_data =
    b'T' ∷ b'h' ∷ b'i' ∷ b's' ∷ b' ' ∷ b'i' ∷ b's' ∷ b' ' ∷ b'a' ∷ b' ' ∷ b'n' ∷ b'e' ∷ b's' ∷ b't'
    ∷ b'e' ∷ b'd' ∷ b' ' ∷ b'f' ∷ b'i' ∷ b'l' ∷ b'e' ∷ b' ' ∷ b'i' ∷ b'n' ∷ b' ' ∷ b't' ∷ b'e'
    ∷ b's' ∷ b't' ∷ b'_' ∷ b'd' ∷ b'i' ∷ b'r' ∷ 10 ∷ []

-- -EEXIST, where EEXIST is 17.
abbrev pub is_eexist : ℤ → Bool
is_eexist (pos n) = false
is_eexist (negsuc n) = n == 16

-- The offset of the first byte that differs, which the log reports.
unfoldable pub mismatch : ℕ → ℕ → List ℕ → List ℕ → Option ℕ
mismatch zero i write_data read_data = none
mismatch (suc len) i write_data read_data =
    let rest = mismatch len (i + 1) (drop 1 write_data) (drop 1 read_data) in
    if get_or write_data 0 0 == get_or read_data 0 0 then rest else some i

abbrev pub consistency : Option ℕ → ℤ
consistency none = pos 0
consistency (some at) = negsuc 0

-- 0 if the first `len` bytes are the same, and -1 otherwise.
unfoldable pub verify_data_consistency : List ℕ → List ℕ → ℕ → ℤ
verify_data_consistency write_data read_data len = consistency (mismatch len 0 write_data read_data)

module _ {S : Type 0} (fs : Fs S) where
  -- `fs_close` behind a call that succeeded with `ret`, and the result of the function.
  unfoldable pub close_after : List Call → ℤ → S → ℤ × Disk S
  close_after calls ret s =
      let (err, s') = fs.fs_close s in
      (if is_negative err then err else ret, record { files = s'; calls = file_closed ∷ calls })

  unfoldable pub test_file_write : Disk S → List ℕ → List ℕ → ℕ → ℤ × Disk S
  unfolding close_after
  test_file_write d path bytes len =
      let (err, s) = fs.fs_open d.files path write_create in
      if is_negative err
      then (err, record d { files = s })
      else (let (ret, s') = fs.fs_write s (take len bytes) in
          let calls = file_opened ∷ d.calls in
          if is_negative ret
          then (ret, record { files = (fs.fs_close s').1; calls = file_closed ∷ calls })
          else close_after calls (pos 0) s')

  -- The buffer behind the call is returned too.
  unfoldable pub test_file_read : Disk S → List ℕ → List ℕ → ℕ → ℤ × List ℕ × Disk S
  unfolding close_after
  test_file_read d path buf buf_size =
      let (err, s) = fs.fs_open d.files path read_only in
      if is_negative err
      then (err, buf, record d { files = s })
      else (let (ret, bytes, s') = fs.fs_read s (buf_size - 1) in
          let calls = file_opened ∷ d.calls in
          if is_negative ret
          then (ret, buf, record { files = (fs.fs_close s').1; calls = file_closed ∷ calls })
          else (let (res, d') = close_after calls ret s' in (res, terminated buf bytes ret, d')))

  unfoldable pub test_dir_create : Disk S → List ℕ → ℤ × Disk S
  test_dir_create d path =
      let (ret, s) = fs.fs_mkdir d.files path in
      (if is_negative ret && not (is_eexist ret) then ret else pos 0, record d { files = s })

  -- `while(1)` of `test_dir_list`.
  unfoldable pub dir_entries : ℕ → S → DirEnd S
  dir_entries zero s = out_of_fuel s
  dir_entries (suc fuel) s =
      let (ret, name, s') = fs.fs_readdir s in
      let rest = dir_entries fuel s' in
      if is_negative ret then listed ret s' else if is_empty name then listed ret s' else rest

  -- `fs_closedir` overwrites `ret`.
  unfoldable pub dir_close : List Call → DirEnd S → Option ℤ × Disk S
  dir_close calls (listed res s) =
      let (ret, s') = fs.fs_closedir s in
      (
        some (if is_negative ret then ret else pos 0),
        record { files = s'; calls = dir_closed ∷ calls },
      )
  dir_close calls (out_of_fuel s) = (none, record { files = s; calls = calls })

  unfoldable pub test_dir_list : Disk S → List ℕ → Option ℤ × Disk S
  unfolding dir_close
  test_dir_list d path =
      let (ret, s) = fs.fs_opendir d.files path in
      if is_negative ret
      then (some ret, record d { files = s })
      else dir_close (dir_opened ∷ d.calls) (dir_entries (suc (fs.entries_left s)) s)

  -- `main` from step 4 on, for the text that `snprintf` and `strncat` have made of the test data and the
  -- time. `read_buf` is set to zeros before it is read into.
  unfoldable pub sd_steps : Disk S → List ℕ → ℤ × Disk S
  unfolding test_file_write test_file_read test_dir_create test_dir_list
  sd_steps d full_write_data =
      let len = length full_write_data in
      let (ret4, d4) = test_file_write d test_file_path full_write_data len in
      let (ret5, buf, d5) = test_file_read d4 test_file_path (replicate 512 0) 512 in
      let ret6 = verify_data_consistency full_write_data buf len in
      let (ret7, d7) = test_dir_create d5 test_dir_path in
      let (ret8, d8) = test_file_write d7 test_file_in_dir nested_data 34 in
      let (ret9, d9) = test_dir_list d8 sd_root in
      let (ret10, d10) = test_dir_list d9 test_dir_path in
      if is_negative ret4
      then (ret4, d4)
      else if is_negative ret5
      then (ret5, d5)
      else if is_negative ret6
      then (ret6, d5)
      else if is_negative ret7
      then (ret7, d7)
      else if is_negative ret8
      then (ret8, d8)
      else (pos 0, d10)

  -- `ready` is what `disk_access_init` returns. The size of the disk and the statistics are only printed.
  unfoldable pub sd_main : ℤ → Disk S → List ℕ → ℤ × Disk S
  unfolding sd_steps
  sd_main ready d full_write_data =
      let (ret, s) = fs.fs_mount d.files sd_root in
      if is_err ready
      then (negsuc 0, d)
      else if is_negative ret
      then (negsuc 0, record d { files = s })
      else sd_steps (record { files = s; calls = mounted ∷ d.calls }) full_write_data
