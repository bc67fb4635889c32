-- ===== src/Files/Flash/Calls.antt =====
-- What app81_flash_fs opens and mounts it closes and unmounts.
use zephyr_stm32h.Common.{
  true≢false, ℤ, pos, negsuc, ℕ, zero, suc, ◌<◌, ◌≡◌, refl, ap, inl, inr, true, false, ◌||◌, Option,
  some, List, ◌∷◌, ◌++◌, arith, if◌then◌else◌, Bool-cases, if_rule, is_negative, is_err, ℤ, pos,
  negsuc,
}
use zephyr_stm32h.Files.{
  Fs, Disk, OpenMode, Call, mounted, unmounted, Paired, unchanged, file, directory, dir_opened,
  Paired-trans, DirEnd, listed, out_of_fuel, is_empty,
}
use zephyr_stm32h.Files.Laws.{DirLaws}
use zephyr_stm32h.Files.Flash.{
  mnt_point, hello_txt, hello, works, data_bin, bin_data, list_entries, close_listed, lsdir,
  close_file, write_opened, write_file, append_file, read_file, exercise, flash_main,
}

-- A result that is 0 is not negative.
is_err-is_negative : (r : ℤ) → is_err r ≡ false → is_negative r ≡ false
is_err-is_negative (pos n) h = refl
is_err-is_negative (negsuc n) h = absurd (true≢false h)

-- The calls of `main` and its result: without a mount nothing is opened; behind a mount every file and
-- directory that is opened is closed, and the last call unmounts.
pub data MainCalls (old : List Call) : ℤ × List Call → Type 0 where
  not_mounted : (rc : ℤ) → is_negative rc ≡ true → MainCalls old (rc, old)
  released :
      (calls : List Call) → Paired (mounted ∷ old) calls → MainCalls old (pos 0, unmounted ∷ calls)

module _ {S : Type 0} (fs : Fs S) (laws : DirLaws fs) where
  -- The loop ended by its own test.
  abbrev IsListed : DirEnd S → Type 0
  IsListed (listed res s) = Unit {0}
  IsListed (out_of_fuel s) = ⊥

  list_entries-ends :
      (fuel : ℕ) (s : S) → fs.entries_left s < fuel → IsListed (list_entries fs fuel s)
  unfolding list_entries
  list_entries-ends zero s h = absurd (omega arith)
  list_entries-ends (suc fuel) s h =
      let res = (fs.fs_readdir s).0 in
      let name = (fs.fs_readdir s).1 in
      elim (Bool-cases (is_err res || is_empty name)) [
        | inl stop ↦ rw stop tt
        | inr go ↦
            (let fine = is_err-is_negative res (ground arith) in
              let named : is_empty name ≡ false = ground arith in
              let last : fs.entries_left s ≡ 0 → is_empty name ≡ true =
                λ z. ap is_empty (laws.readdir_advances s fine z) in
              let less = laws.readdir_left s fine in
              let some_left : 0 < fs.entries_left s = ground arith in
              rw go (list_entries-ends fuel (fs.fs_readdir s).2 (omega (arith, less))))
      ]

  close_listed-Paired :
      (calls : List Call) (r : DirEnd S)
      → IsListed r
      → Paired calls (close_listed fs (dir_opened ∷ calls) r).1.calls
  unfolding close_listed
  close_listed-Paired calls (listed res s) h = directory unchanged
  close_listed-Paired calls (out_of_fuel s) h = absurd h

  lsdir-Paired : (d : Disk S) (path : List ℕ) → Paired d.calls (lsdir fs d path).1.calls
  unfolding lsdir
  lsdir-Paired d path =
      if_rule (λ (r : Option ℤ × Disk S). Paired d.calls r.1.calls)
        (is_err (fs.fs_opendir d.files path).0) unchanged
        (close_listed-Paired d.calls _ (list_entries-ends _ _ (omega arith)))

  write_opened-Paired :
      (mode : OpenMode) (d : Disk S) (path bytes : List ℕ) (len : ℕ)
      → Paired d.calls (write_opened fs mode d path bytes len).1.calls
  unfolding write_opened close_file
  write_opened-Paired mode d path bytes len =
      if_rule (λ (r : ℤ × Disk S). Paired d.calls r.1.calls)
        (is_negative (fs.fs_open d.files path mode).0) unchanged (file unchanged)

  write_file-Paired :
      (d : Disk S) (path bytes : List ℕ) (len : ℕ)
      → Paired d.calls (write_file fs d path bytes len).1.calls
  unfolding write_file
  write_file-Paired d path bytes len = write_opened-Paired _ d path bytes len

  append_file-Paired :
      (d : Disk S) (path bytes : List ℕ) (len : ℕ)
      → Paired d.calls (append_file fs d path bytes len).1.calls
  unfolding append_file
  append_file-Paired d path bytes len = write_opened-Paired _ d path bytes len

  read_file-Paired :
      (d : Disk S) (path buf : List ℕ) (size : ℕ)
      → Paired d.calls (read_file fs d path buf size).2.calls
  unfolding read_file close_file
  read_file-Paired d path buf size =
      if_rule (λ (r : ℤ × List ℕ × Disk S). Paired d.calls r.2.calls) _ unchanged (file unchanged)

  exercise-Paired : (d : Disk S) (buf : List ℕ) → Paired d.calls (exercise fs d buf).calls
  unfolding exercise
  exercise-Paired d buf =
      let hello_path = mnt_point ++ hello_txt in
      let r1 = write_file fs d hello_path hello 22 in
      let r2 = read_file fs r1.1 hello_path buf 128 in
      let r3 = append_file fs r2.2 hello_path works 17 in
      let r4 = read_file fs r3.1 hello_path r2.1 128 in
      let data_path = mnt_point ++ data_bin in
      let p1 = write_file-Paired d hello_path hello 22 in
      let p2 = Paired-trans p1 (read_file-Paired r1.1 hello_path buf 128) in
      let p3 = Paired-trans p2 (append_file-Paired r2.2 hello_path works 17) in
      let p4 = Paired-trans p3 (read_file-Paired r3.1 hello_path r2.1 128) in
      let r5 = write_file fs r4.2 data_path (bin_data 0 64) 64 in
      let r6 = lsdir fs r5.1 mnt_point in
      let p5 = Paired-trans p4 (write_file-Paired r4.2 data_path (bin_data 0 64) 64) in
      let p6 = Paired-trans p5 (lsdir-Paired r5.1 mnt_point) in
      let Q : Disk S → Type 0 = λ r. Paired d.calls r.calls in
      let e5 = if is_negative r5.0 then r5.1 else r6.1 in
      let e4 = if is_negative r4.0 then r4.2 else e5 in
      let e3 = if is_negative r3.0 then r3.1 else e4 in
      let e2 = if is_negative r2.0 then r2.2 else e3 in
      let q5 = if_rule Q (is_negative r5.0) {x = r5.1} {y = r6.1} p5 p6 in
      let q4 = if_rule Q (is_negative r4.0) {x = r4.2} {y = e5} p4 q5 in
      let q3 = if_rule Q (is_negative r3.0) {x = r3.1} {y = e4} p3 q4 in
      let q2 = if_rule Q (is_negative r2.0) {x = r2.2} {y = e3} p2 q3 in
      if_rule Q (is_negative r1.0) {x = r1.1} {y = e2} p1 q2

  -- If reading a directory comes to its end: on every path through `main`, also when a file operation fails, each file and directory that was
  -- opened is closed, and what was mounted is unmounted last; without a mount `main` opens nothing and
  -- returns the error.
  pub flash_main-MainCalls :
      (d : Disk S) (buf : List ℕ)
      → MainCalls d.calls ((flash_main fs d buf).0, (flash_main fs d buf).1.calls)
  unfolding flash_main
  flash_main-MainCalls d buf =
      let rc = (fs.fs_mount d.files mnt_point).0 in
      elim (Bool-cases (is_negative rc)) [
        | inl bad ↦ rw bad (not_mounted rc bad)
        | inr good ↦
            (let mount : Disk S = record {
              files = (fs.fs_mount d.files mnt_point).1;
              calls = mounted ∷ d.calls;
            } in
              let first = lsdir-Paired mount mnt_point in
              rw good (
                released _ (Paired-trans first (exercise-Paired (lsdir fs mount mnt_point).1 buf))))
      ]

  close_listed-result :
      (calls : List Call) (r : DirEnd S)
      → IsListed r
      → (res : ℤ) × ((close_listed fs calls r).0 ≡ some res)
  unfolding close_listed
  close_listed-result calls (listed res s) h = (res, refl)
  close_listed-result calls (out_of_fuel s) h = absurd h

  -- `lsdir` comes to an end and has a result, since a directory does.
  pub lsdir-ends : (d : Disk S) (path : List ℕ) → (res : ℤ) × ((lsdir fs d path).0 ≡ some res)
  unfolding lsdir
  lsdir-ends d path =
      let s = (fs.fs_opendir d.files path).1 in
      if_rule (λ (r : Option ℤ × Disk S). (res : ℤ) × (r.0 ≡ some res)) _ (_, refl)
        (close_listed-result (dir_opened ∷ d.calls) _ (list_entries-ends _ s (omega arith)))
