-- ===== src/Tests/MailboxWitness.antt =====
-- The theorem on the mailbox at a concrete input, with a mailbox and a semaphore in memory.
use zephyr_stm32h.Common.{
  ℕ, zero, suc, ◌+◌, ◌≤◌, ◌<◌, ◌≡◌, refl, sym, ap, ◌≢◌, inl, Option, none, some, List, [], ◌∷◌,
  ◌++◌, arith, length, replicate, All,
}
use mathlib.Core.Option.{some-injective, some-ne-none}
use zephyr_stm32h.Mailbox.{
  MboxApi, MboxLaws, SemApi, SemLaws, preparing, prepared, receiving, Post, sender_prepares,
  sender_puts, sender_takes, receiver_gets, receiver_copies,
}
use zephyr_stm32h.Mailbox.Handover.{PostRun, here, next, messages, texts_handed_over}

-- The sender is the thread 1, and the receiver 2.
abbrev toy_get : List ℕ → ℕ → Option (ℕ × ℕ × List ℕ)
toy_get [] source = none
toy_get (p ∷ q) source = some (p, 1, q)

toy_first :
    (q q' : List ℕ) (p source from : ℕ)
    → toy_get q source ≡ some (p, from, q')
    → (q ≡ p ∷ q') × (from ≡ 1)
toy_first [] q' p source from h = absurd (some-ne-none _ (sym h))
toy_first (x ∷ q) q' p source from h =
    (ap (λ r. r.0 ∷ r.2) (some-injective _ _ h), sym (ap (λ r. r.1) (some-injective _ _ h)))

abbrev toy_mbox : MboxApi (List ℕ)
toy_mbox = record { k_mbox_async_put = λ b info target. b ++ info ∷ []; k_mbox_get = toy_get }

toy_mbox_laws : MboxLaws toy_mbox (λ b. b) 1 2
toy_mbox_laws = record {
  put_adds = λ b info target _. refl;
  get_first = λ b b' info source from _ h. toy_first b b' info source from h;
}

abbrev toy_take : ℕ → Option ℕ
toy_take zero = none
toy_take (suc n) = some n

toy_take_one : (n m : ℕ) → toy_take n ≡ some m → n ≡ suc m
toy_take_one zero m h = absurd (some-ne-none _ (sym h))
toy_take_one (suc n) m h = ap suc (some-injective _ _ h)

abbrev toy_sem : SemApi ℕ
toy_sem = record { k_sem_take = toy_take; k_sem_give = λ n. 1 }

toy_sem_laws : SemLaws toy_sem (λ n. n)
toy_sem_laws = record { take_one = toy_take_one; give_one = λ n h. refl }

-- One character, the number's successor, in place of the text.
abbrev toy_print : ℕ → List ℕ
toy_print n = suc n ∷ []

toy_prints : (n : ℕ) → (length (toy_print n) < 32) × All (λ c. c ≢ 0) (toy_print n)
toy_prints n = (omega arith, (λ e. absurd (omega (arith, e)), tt))

abbrev post_start : Post (List ℕ) ℕ
post_start = record {
  async_mbox = [];
  done_sem = 0;
  text = replicate 32 0;
  tx_target = 0;
  count = 0;
  rx_text = replicate 32 9;
  rx_source = 0;
  rx_size = 40;
  sender = preparing;
  receiver = receiving;
  log = [];
}

abbrev post_end : Post (List ℕ) ℕ
post_end = record {
  async_mbox = [];
  done_sem = 0;
  text = 3 ∷ replicate 31 0;
  tx_target = 0;
  count = 2;
  rx_text = 2 ∷ replicate 31 0;
  rx_source = 1;
  rx_size = 32;
  sender = prepared;
  receiver = receiving;
  log = (1, 2 ∷ []) ∷ [];
}

post_run : PostRun toy_mbox toy_sem toy_print post_start post_end
unfolding replicate
post_run =
    next
      (next
        (next
          (next (next (next here (sender_prepares refl (omega arith))) (sender_puts refl))
            (receiver_gets 1 1 [] refl refl))
          (receiver_copies 1 refl))
        (sender_takes 0 refl refl))
      (sender_prepares refl (omega arith))

texts_handed_over_example :
    (n : ℕ) × (post_end.log ≡ messages toy_print n)
    × (n ≤ post_end.count)
    × (post_end.count ≤ n + 1)
unfolding replicate
texts_handed_over_example =
    texts_handed_over toy_mbox_laws toy_sem_laws toy_prints post_start post_end
      (record {
        array = refl;
        target_fits = inl refl;
        source_fits = inl refl;
        size_fits = omega arith;
        empty = refl;
        no_units = refl;
        no_count = refl;
        sender_starts = refl;
        receiver_starts = refl;
        no_log = refl;
      })
      post_run
