-- ===== src/Files/Speed/RoundTrip.antt =====
-- What the write test has written passes the read test.
use zephyr_stm32h.Common.{ℕ, ◌≡◌, List}
use zephyr_stm32h.Files.{Fs}
use zephyr_stm32h.Files.Laws.{FsLaws, PositionLaws}
use zephyr_stm32h.Files.Speed.{speed_file, WriteEnd, written}
use zephyr_stm32h.Files.Speed.Chunks.{Holds}

module _ {S : Type 0} {fs : Fs S} {text : S → List ℕ → List ℕ} {handle : S → List ℕ × ℕ}
    (laws : FsLaws fs text handle) (places : PositionLaws fs text handle) where
  -- The loop over the chunks to write, when the card takes each of them as a whole.
  record WroteAll (end : WriteEnd S) (k : ℕ) : Type 0 where
    total : ℕ
    state : S
    ends : end ≡ written total state
    holds : Holds k (text state speed_file)
