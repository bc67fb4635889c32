-- ===== src/Files/Flash.antt =====
-- The file operations and `main` of app81_flash_fs/src/main.c.
pub mod Calls
pub mod RoundTrip
use zephyr_stm32h.Common.{
  ℕ, zero, suc, ◌+◌, ◌-◌, ◌*◌, ◌/◌, ◌%◌, ◌^◌, ◌≤◌, ◌<◌, ◌≡◌, refl, sym, ap, subst, ◌∙◌, ◌≢◌, ◌↔◌,
  ◌⊎◌, inl, inr, Bool, true, false, not, ◌&&◌, ◌||◌, Option, none, some, List, [], ◌∷◌, ◌++◌,
  append-nil, append_assoc, arith, ltb, leb, ◌==◌, if◌then◌else◌, lt→ltb, le→ltb, le→leb, lt→leb,
  ==_iff, ==_refl, Bool-cases, if_rule, length, get_or, set, take, drop, replicate, All,
  length-append, length-take, length-drop, length-replicate, length-set, take-append-drop,
  take-append_left, take-append_right, drop-append_right, take_all, get_or-append_left,
  get_or-append_right, get_or-take, get_or-drop, u8, u16, u32, is_negative, is_err, le16, le32,
  bytes16, bytes32, ℤ, pos, negsuc,
}
use zephyr_stm32h.Files.{
  Fs, Disk, OpenMode, create_write_trunc, write_append, read_only, Call, file_opened, file_closed,
  dir_opened, dir_closed, mounted, unmounted, DirEnd, listed, out_of_fuel, is_empty, terminated,
}

-- "/lfs1"
abbrev pub mnt_point : List ℕ
mnt_point = b'/' ∷ b'l' ∷ b'f' ∷ b's' ∷ b'1' ∷ []

-- "/hello.txt"
abbrev pub hello_txt : List ℕ
hello_txt = b'/' ∷ b'h' ∷ b'e' ∷ b'l' ∷ b'l' ∷ b'o' ∷ b'.' ∷ b't' ∷ b'x' ∷ b't' ∷ []

-- "/data.bin"
abbrev pub data_bin : List ℕ
data_bin = b'/' ∷ b'd' ∷ b'a' ∷ b't' ∷ b'a' ∷ b'.' ∷ b'b' ∷ b'i' ∷ b'n' ∷ []

-- "Hello from STM32H743!\n"
abbrev pub hello : List ℕ
hello =
    b'H' ∷ b'e' ∷ b'l' ∷ b'l' ∷ b'o' ∷ b' ' ∷ b'f' ∷ b'r' ∷ b'o' ∷ b'm' ∷ b' ' ∷ b'S' ∷ b'T' ∷ b'M'
    ∷ b'3' ∷ b'2' ∷ b'H' ∷ b'7' ∷ b'4' ∷ b'3' ∷ b'!' ∷ 10 ∷ []

-- "LittleFS works!\n" with its terminator, since 17 bytes are given to be written.
abbrev pub works : List ℕ
works =
    b'L' ∷ b'i' ∷ b't' ∷ b't' ∷ b'l' ∷ b'e' ∷ b'F' ∷ b'S' ∷ b' ' ∷ b'w' ∷ b'o' ∷ b'r' ∷ b'k' ∷ b's'
    ∷ b'!' ∷ 10 ∷ 0 ∷ []

-- The loop that fills `bin_data`.
abbrev pub bin_data : ℕ → ℕ → List ℕ
bin_data i zero = []
bin_data i (suc n) = u8 i ∷ bin_data (i + 1) n

module _ {S : Type 0} (fs : Fs S) where
  -- `for (;;)` of `lsdir`.
  unfoldable pub list_entries : ℕ → S → DirEnd S
  list_entries zero s = out_of_fuel s
  list_entries (suc fuel) s =
      let (res, name, s') = fs.fs_readdir s in
      let rest = list_entries fuel s' in if is_err res || is_empty name then listed res s' else rest

  -- The end of `lsdir`; without fuel there is no result.
  unfoldable pub close_listed : List Call → DirEnd S → Option ℤ × Disk S
  close_listed calls (listed res s) =
      (some res, record { files = (fs.fs_closedir s).1; calls = dir_closed ∷ calls })
  close_listed calls (out_of_fuel s) = (none, record { files = s; calls = calls })

  -- A round for each entry, and one for the end, are enough.
  unfoldable pub lsdir : Disk S → List ℕ → Option ℤ × Disk S
  unfolding close_listed
  lsdir d path =
      let (res, s) = fs.fs_opendir d.files path in
      if is_err res
      then (some res, record d { files = s })
      else close_listed (dir_opened ∷ d.calls) (list_entries (suc (fs.entries_left s)) s)

  -- `out:`, `fs_close`, and the choice between the two results.
  unfoldable pub close_file : List Call → ℤ → S → ℤ × Disk S
  close_file calls rc s =
      let (ret, s') = fs.fs_close s in
      (if is_negative ret then ret else rc, record { files = s'; calls = file_closed ∷ calls })

  unfoldable pub write_opened : OpenMode → Disk S → List ℕ → List ℕ → ℕ → ℤ × Disk S
  unfolding close_file
  write_opened mode d path bytes len =
      let (rc, s) = fs.fs_open d.files path mode in
      if is_negative rc
      then (rc, record d { files = s })
      else (let (rc', s') = fs.fs_write s (take len bytes) in
          close_file (file_opened ∷ d.calls) rc' s')

  unfoldable pub write_file : Disk S → List ℕ → List ℕ → ℕ → ℤ × Disk S
  unfolding write_opened
  write_file d path bytes len = write_opened create_write_trunc d path bytes len

  unfoldable pub append_file : Disk S → List ℕ → List ℕ → ℕ → ℤ × Disk S
  unfolding write_opened
  append_file d path bytes len = write_opened write_append d path bytes len

  -- The buffer behind the call is returned too.
  unfoldable pub read_file : Disk S → List ℕ → List ℕ → ℕ → ℤ × List ℕ × Disk S
  unfolding close_file
  read_file d path buf buf_size =
      let (rc, s) = fs.fs_open d.files path read_only in
      if is_negative rc
      then (rc, buf, record d { files = s })
      else (let (rc', bytes, s') = fs.fs_read s (buf_size - 1) in
          let (ret, d') = close_file (file_opened ∷ d.calls) rc' s' in
          (ret, terminated buf bytes rc', d'))

  -- `main` from the first `write_file` to the second `lsdir`; an error ends it.
  unfoldable pub exercise : Disk S → List ℕ → Disk S
  unfolding write_file read_file append_file lsdir
  exercise d buf =
      let (rc1, d1) = write_file d (mnt_point ++ hello_txt) hello 22 in
      let (rc2, buf2, d2) = read_file d1 (mnt_point ++ hello_txt) buf 128 in
      let (rc3, d3) = append_file d2 (mnt_point ++ hello_txt) works 17 in
      let (rc4, buf4, d4) = read_file d3 (mnt_point ++ hello_txt) buf2 128 in
      let (rc5, d5) = write_file d4 (mnt_point ++ data_bin) (bin_data 0 64) 64 in
      let (res, d6) = lsdir d5 mnt_point in
      if is_negative rc1
      then d1
      else if is_negative rc2
      then d2
      else if is_negative rc3
      then d3
      else if is_negative rc4
      then d4
      else if is_negative rc5
      then d5
      else d6

  -- What `main` prints of the partition and of `fs_statvfs` is left out.
  unfoldable pub flash_main : Disk S → List ℕ → ℤ × Disk S
  unfolding exercise lsdir
  flash_main d buf =
      let (rc, s) = fs.fs_mount d.files mnt_point in
      if is_negative rc
      then (rc, record d { files = s })
      else (let (res, d') = lsdir (record { files = s; calls = mounted ∷ d.calls }) mnt_point in
          let d'' = exercise d' buf in
          (pos 0, record { files = (fs.fs_unmount d''.files).1; calls = unmounted ∷ d''.calls }))
