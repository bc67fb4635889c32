-- ===== src/Files/SdCard/Calls.antt =====
-- What app20_sdcard opens it closes, and what it lists.
use zephyr_stm32h.Common.{
  ℕ, zero, suc, ◌-◌, ◌<◌, ◌≡◌, refl, ap, ◌⊎◌, inl, inr, true, false, Option, some, List, ◌∷◌, arith,
  if◌then◌else◌, Bool-cases, if_rule, length, take, replicate, is_negative, is_err, ℤ, pos, negsuc,
}
use zephyr_stm32h.Files.{
  Fs, Disk, write_create, read_only, Call, mounted, Paired, unchanged, file, directory, dir_opened,
  Paired-trans, DirEnd, listed, out_of_fuel, is_empty,
}
use zephyr_stm32h.Files.Laws.{DirLaws}
use zephyr_stm32h.Files.SdCard.{
  sd_root, test_file_path, test_dir_path, test_file_in_dir, nested_data, verify_data_consistency,
  close_after, test_file_write, test_file_read, test_dir_create, dir_entries, dir_close,
  test_dir_list, sd_steps, sd_main,
}

module _ {S : Type 0} (fs : Fs S) (laws : DirLaws fs) where
  abbrev IsListed : DirEnd S → Type 0
  IsListed (listed res s) = Unit {0}
  IsListed (out_of_fuel s) = ⊥

  dir_entries-ends :
      (fuel : ℕ) (s : S) → fs.entries_left s < fuel → IsListed (dir_entries fs fuel s)
  unfolding dir_entries
  dir_entries-ends zero s h = absurd (omega arith)
  dir_entries-ends (suc fuel) s h =
      let res = (fs.fs_readdir s).0 in
      let name = (fs.fs_readdir s).1 in
      elim (Bool-cases (is_negative res)) [
        | inl bad ↦ rw bad tt
        | inr fine ↦ elim (Bool-cases (is_empty name)) [
          | inl at_end ↦ rw (fine, at_end) tt
          | inr named ↦
              (let last : fs.entries_left s ≡ 0 → is_empty name ≡ true =
                  λ z. ap is_empty (laws.readdir_advances s fine z) in
                let less = laws.readdir_left s fine in
                let some_left : 0 < fs.entries_left s = ground arith in
                rw (fine, named) (dir_entries-ends fuel (fs.fs_readdir s).2 (omega (arith, less))))
        ]
      ]

  test_file_write-Paired :
      (d : Disk S) (path bytes : List ℕ) (len : ℕ)
      → Paired d.calls (test_file_write fs d path bytes len).1.calls
  unfolding test_file_write close_after
  test_file_write-Paired d path bytes len =
      let Q : ℤ × Disk S → Type 0 = λ r. Paired d.calls r.1.calls in
      let s = (fs.fs_open d.files path write_create).1 in
      if_rule Q (is_negative (fs.fs_open d.files path write_create).0) unchanged (
        if_rule Q (is_negative (fs.fs_write s (take len bytes)).0) (file unchanged)
          (file unchanged))

  test_file_read-Paired :
      (d : Disk S) (path buf : List ℕ) (size : ℕ)
      → Paired d.calls (test_file_read fs d path buf size).2.calls
  unfolding test_file_read close_after
  test_file_read-Paired d path buf size =
      let Q : ℤ × List ℕ × Disk S → Type 0 = λ r. Paired d.calls r.2.calls in
      let s = (fs.fs_open d.files path read_only).1 in
      if_rule Q (is_negative (fs.fs_open d.files path read_only).0) unchanged
        (if_rule Q (is_negative (fs.fs_read s (size - 1)).0) (file unchanged) (file unchanged))

  dir_close-Paired :
      (calls : List Call) (r : DirEnd S)
      → IsListed r
      → Paired calls (dir_close fs (dir_opened ∷ calls) r).1.calls
  unfolding dir_close
  dir_close-Paired calls (listed res s) h = directory unchanged
  dir_close-Paired calls (out_of_fuel s) h = absurd h

  test_dir_list-Paired :
      (d : Disk S) (path : List ℕ) → Paired d.calls (test_dir_list fs d path).1.calls
  unfolding test_dir_list
  test_dir_list-Paired d path =
      if_rule (λ (r : Option ℤ × Disk S). Paired d.calls r.1.calls)
        (is_negative (fs.fs_opendir d.files path).0) unchanged
        (dir_close-Paired d.calls _ (dir_entries-ends _ _ (omega arith)))

  sd_steps-Paired : (d : Disk S) (text : List ℕ) → Paired d.calls (sd_steps fs d text).1.calls
  unfolding sd_steps test_dir_create
  sd_steps-Paired d text =
      let r4 = test_file_write fs d test_file_path text (length text) in
      let r5 = test_file_read fs r4.1 test_file_path (replicate 512 0) 512 in
      let c6 = verify_data_consistency text r5.1 (length text) in
      let r7 = test_dir_create fs r5.2 test_dir_path in
      let r8 = test_file_write fs r7.1 test_file_in_dir nested_data 34 in
      let r9 = test_dir_list fs r8.1 sd_root in
      let r10 = test_dir_list fs r9.1 test_dir_path in
      let p4 = test_file_write-Paired d test_file_path text (length text) in
      let p5 = Paired-trans p4 (test_file_read-Paired r4.1 test_file_path (replicate 512 0) 512) in
      let p8 = Paired-trans p5 (test_file_write-Paired r7.1 test_file_in_dir nested_data 34) in
      let p9 = Paired-trans p8 (test_dir_list-Paired r8.1 sd_root) in
      let p10 = Paired-trans p9 (test_dir_list-Paired r9.1 test_dir_path) in
      let Q : ℤ × Disk S → Type 0 = λ r. Paired d.calls r.1.calls in
      let x8 : ℤ × Disk S = if is_negative r8.0 then r8 else (pos 0, r10.1) in
      let x7 : ℤ × Disk S = if is_negative r7.0 then r7 else x8 in
      let x6 : ℤ × Disk S = if is_negative c6 then (c6, r5.2) else x7 in
      let x5 : ℤ × Disk S = if is_negative r5.0 then (r5.0, r5.2) else x6 in
      let q8 = if_rule Q (is_negative r8.0) {x = r8} {y = (pos 0, r10.1)} p8 p10 in
      let q7 = if_rule Q (is_negative r7.0) {x = r7} {y = x8} p5 q8 in
      let q6 = if_rule Q (is_negative c6) {x = (c6, r5.2)} {y = x7} p5 q7 in
      let q5 = if_rule Q (is_negative r5.0) {x = (r5.0, r5.2)} {y = x6} p5 q6 in
      if_rule Q (is_negative r4.0) {x = r4} {y = x5} p4 q5

  -- If reading a directory comes to its end: `main` either fails in front of the mount and opens nothing, or it mounts the card, closes every file
  -- and directory that it opens, and leaves the card mounted, whatever it returns.
  pub sd_main-Paired :
      (ready : ℤ) (d : Disk S) (text : List ℕ)
      → (((sd_main fs ready d text).0 ≡ negsuc 0) × ((sd_main fs ready d text).1.calls ≡ d.calls))
        ⊎ Paired (mounted ∷ d.calls) (sd_main fs ready d text).1.calls
  unfolding sd_main
  sd_main-Paired ready d text =
      let Q : ℤ × Disk S → Type 0 =
        λ r. ((r.0 ≡ negsuc 0) × (r.1.calls ≡ d.calls)) ⊎ Paired (mounted ∷ d.calls) r.1.calls in
      let s = (fs.fs_mount d.files sd_root).1 in
      let steps = sd_steps-Paired (record { files = s; calls = mounted ∷ d.calls }) text in
      if_rule Q (is_err ready) (inl (refl, refl))
        (if_rule Q (is_negative (fs.fs_mount d.files sd_root).0) (inl (refl, refl)) (inr steps))

  dir_close_zero :
      (calls : List Call) (r : DirEnd S)
      → IsListed r
      → ((s : S) → is_negative (fs.fs_closedir s).0 ≡ false)
      → (dir_close fs calls r).0 ≡ some (pos 0)
  unfolding dir_close
  dir_close_zero calls (listed res s) h c = rw (c s) refl
  dir_close_zero calls (out_of_fuel s) h c = absurd h

  -- If directories can be opened and closed, `test_dir_list` comes to an end and returns 0, whatever
  -- `fs_readdir` returns: an error of reading is not reported.
  pub test_dir_list_zero :
      (d : Disk S) (path : List ℕ)
      → is_negative (fs.fs_opendir d.files path).0 ≡ false
      → ((s : S) → is_negative (fs.fs_closedir s).0 ≡ false)
      → (test_dir_list fs d path).0 ≡ some (pos 0)
  unfolding test_dir_list
  test_dir_list_zero d path opened closes =
      let s = (fs.fs_opendir d.files path).1 in
      rw opened
        (dir_close_zero (dir_opened ∷ d.calls) _ (dir_entries-ends _ s (omega arith)) closes)
