-- ===== src/Tests/EthernetWitness.antt =====
-- The theorems on the TCP server at concrete inputs.
use zephyr_stm32h.Common.{ℕ, false, List, [], ◌∷◌, arith, replicate, length-replicate, ℤ, pos}
use zephyr_stm32h.Ethernet.{Client, Received, handle_client}
use zephyr_stm32h.Ethernet.Line.{ClientOk, handle_client-ClientOk}

-- A line of two characters.
abbrev typing : Client
typing = record { buf = 0x61 ∷ 0x62 ∷ replicate 1022 0; idx = pos 2; outputs = [] }

typing-ClientOk : ClientOk typing
typing-ClientOk = record {
  size = (let n = length-replicate {A = ℕ} 1022 0 in omega (arith, n));
  inside = omega arith;
}

abbrev hello : Received
hello = record { ret = pos 3; bytes = 0x78 ∷ 0x79 ∷ 0x7a ∷ []; is_eagain = false }

abbrev one_round : List (ℤ × Received)
one_round = (pos 0x63, hello) ∷ []

handle_client-ClientOk_example : ClientOk (handle_client one_round typing)
handle_client-ClientOk_example =
    handle_client-ClientOk one_round typing ((omega arith, omega arith), tt) typing-ClientOk
