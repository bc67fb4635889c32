-- ===== src/Tests/FilesWitness.antt =====
-- The theorems on the applications with a file system at concrete inputs.
use zephyr_stm32h.Common.{ℕ, ◌+◌, ◌≡◌, refl, List, [], ◌∷◌, arith, ℤ, pos}
use zephyr_stm32h.Files.{Disk, terminated}
use zephyr_stm32h.Files.Flash.{
  close_file, write_opened, write_file, append_file, read_file, flash_main,
}
use zephyr_stm32h.Files.Flash.Calls.{MainCalls, flash_main-MainCalls}
use zephyr_stm32h.Files.Flash.RoundTrip.{write-append-read}
use zephyr_stm32h.Tests.ToyFs.{Store, toy_fs, toy_fs-FsLaws, toy_fs-DirLaws, empty_disk, used_disk}

flash_main-MainCalls_example :
    MainCalls []
      ((flash_main toy_fs empty_disk (0 ∷ [])).0, (flash_main toy_fs empty_disk (0 ∷ [])).1.calls)
flash_main-MainCalls_example = flash_main-MainCalls toy_fs toy_fs-DirLaws empty_disk (0 ∷ [])

abbrev note : List ℕ
note = 0x2f ∷ 0x6e ∷ []

abbrev buffer : List ℕ
buffer = 9 ∷ 9 ∷ 9 ∷ 9 ∷ 9 ∷ 9 ∷ []

abbrev written : ℤ × Disk Store
written = write_file toy_fs used_disk note (1 ∷ 2 ∷ []) 2

abbrev added : ℤ × Disk Store
added = append_file toy_fs written.1 note (3 ∷ []) 1

wrote_all : written.0 ≡ pos 2
unfolding write_file write_opened close_file
wrote_all = refl

added_all : added.0 ≡ pos 1
unfolding append_file write_opened close_file
added_all = refl

read_all : (read_file toy_fs added.1 note buffer 6).0 ≡ pos 3
unfolding write_file append_file read_file write_opened close_file
read_all = refl

write-append-read_example :
    (3 ≡ 2 + 1)
    × ((read_file toy_fs added.1 note buffer 6).1 ≡ terminated buffer (1 ∷ 2 ∷ 3 ∷ []) (pos 3))
write-append-read_example =
    write-append-read toy_fs-FsLaws used_disk note (1 ∷ 2 ∷ []) (3 ∷ []) buffer 2 1 6 3
      (omega arith) (omega arith) (omega arith) wrote_all added_all read_all

abbrev first_text : List ℕ
first_text = 1 ∷ 2 ∷ 3 ∷ []

abbrev second_text : List ℕ
second_text = 1 ∷ 2 ∷ 4 ∷ []
