-- ===== src/Mailbox/Handover.antt =====
-- The receiver copies the text that the sender prepared for the number it has received.
use zephyr_stm32h.Common.{
  ℕ, zero, suc, ◌+◌, ◌≤◌, ◌<◌, ◌≡◌, refl, sym, ap, subst, ◌∙◌, ◌≢◌, ◌⊎◌, inr, false, List, [], ◌∷◌,
  ◌++◌, append_assoc, arith, ◌==◌, length, drop, All, length-append, length-drop, take_all,
}
use zephyr_stm32h.Mailbox.{
  k_any, async_msg_size, c_string, data_get, MboxApi, MboxLaws, SemApi, SemLaws, SenderPc,
  preparing, prepared, awaiting, ReceiverPc, receiving, holding, Post, PostStep, sender_prepares,
  sender_puts, sender_takes, receiver_gets, receiver_copies,
}

pub data PostRun {B S : Type 0} (mbox : MboxApi B) (sem : SemApi S) (print : ℕ → List ℕ)
    (s : Post B S) : Post B S → Type 0 where
  here : PostRun mbox sem print s s
  next :
      {t u : Post B S}
      → PostRun mbox sem print s t
      → PostStep mbox sem print t u
      → PostRun mbox sem print s u

-- The first `n` messages, each with its own text.
abbrev pub messages : (ℕ → List ℕ) → ℕ → List (ℕ × List ℕ)
messages print zero = []
messages print (suc n) = messages print n ++ (suc n, print (suc n)) ∷ []

-- What a sender's place adds to the messages on their way.
abbrev pub is_prepared : SenderPc → ℕ
is_prepared prepared = 1
is_prepared _ = 0

abbrev pub is_awaiting : SenderPc → ℕ
is_awaiting awaiting = 1
is_awaiting _ = 0

abbrev pub held : ReceiverPc → List ℕ
held receiving = []
held (holding info) = info ∷ []

-- One message is on its way at most: prepared, in the mailbox, received, or confirmed and not yet noticed.
pub record PostOk {B S : Type 0} (queued : B → List ℕ) (units : S → ℕ) (print : ℕ → List ℕ)
    (sender receiver : ℕ) (s : Post B S) : Type 0 where
  pub one_message :
      length (held s.receiver) + length (queued s.async_mbox) + units s.done_sem
      ≡ is_awaiting s.sender
  pub own_held : All (λ (k : ℕ). k ≡ s.count) (held s.receiver)
  pub own_queued : All (λ (k : ℕ). k ≡ s.count) (queued s.async_mbox)
  pub own_text : 0 < s.count → (rest : List ℕ) × (s.text ≡ print s.count ++ 0 ∷ rest)
  pub text_size : length s.text ≡ async_msg_size
  pub whole_text : async_msg_size ≤ s.rx_size
  pub for_receiver : (s.tx_target ≡ k_any) ⊎ (s.tx_target ≡ receiver)
  pub from_sender : (s.rx_source ≡ k_any) ⊎ (s.rx_source ≡ sender)
  pub printed :
      (n : ℕ) × (s.log ≡ messages print n)
      × (n + length (held s.receiver) + length (queued s.async_mbox) + is_prepared s.sender
          ≡ s.count)

-- Nothing is on its way or printed, and both threads are at their start. The fields of the descriptors
-- that are not initialised happen to let the messages through, and as a whole.
pub record PostStart {B S : Type 0} (queued : B → List ℕ) (units : S → ℕ) (sender receiver : ℕ)
    (s : Post B S) : Type 0 where
  pub array : length s.text ≡ async_msg_size
  pub target_fits : (s.tx_target ≡ k_any) ⊎ (s.tx_target ≡ receiver)
  pub source_fits : (s.rx_source ≡ k_any) ⊎ (s.rx_source ≡ sender)
  pub size_fits : async_msg_size ≤ s.rx_size
  pub empty : queued s.async_mbox ≡ []
  pub no_units : units s.done_sem ≡ 0
  pub no_count : s.count ≡ 0
  pub sender_starts : s.sender ≡ preparing
  pub receiver_starts : s.receiver ≡ receiving
  pub no_log : s.log ≡ []

All-empty : (c : ℕ) (xs : List ℕ) → length xs ≡ 0 → All (λ k. k ≡ c) xs
All-empty c [] h = tt
All-empty c (x ∷ xs) h = absurd (omega (arith, h))

All-snoc : {c x : ℕ} (xs : List ℕ) → All (λ k. k ≡ c) xs → x ≡ c → All (λ k. k ≡ c) (xs ++ x ∷ [])
All-snoc [] h hx = (hx, tt)
All-snoc (y ∷ xs) h hx = (h.0, All-snoc xs h.1 hx)

one_place : (p : SenderPc) → is_prepared p + is_awaiting p ≤ 1
one_place preparing = omega arith
one_place prepared = omega arith
one_place awaiting = omega arith

PostStart-PostOk :
    {B S : Type 0} {queued : B → List ℕ} {units : S → ℕ} {print : ℕ → List ℕ} {sender receiver : ℕ}
    {s : Post B S}
    → PostStart queued units sender receiver s
    → PostOk queued units print sender receiver s
PostStart-PostOk {s} start =
    let idle = ap (λ r. length (held r)) start.receiver_starts in
    let empty = ap length start.empty in
    record {
      one_message = omega (arith, idle, empty, start.no_units, ap is_awaiting start.sender_starts);
      own_held = All-empty _ (held s.receiver) idle;
      own_queued = All-empty _ _ empty;
      own_text = λ h. absurd (omega (arith, h, start.no_count));
      text_size = start.array;
      whole_text = start.size_fits;
      for_receiver = start.target_fits;
      from_sender = start.source_fits;
      printed = (
        0,
        start.no_log,
        omega (arith, idle, empty, start.no_count, ap is_prepared start.sender_starts),
      );
    }

c_string-append : (xs ys : List ℕ) → All (λ c. c ≢ 0) xs → c_string (xs ++ 0 ∷ ys) ≡ xs
c_string-append [] ys h = refl
c_string-append (x ∷ xs) ys h =
    let go : (x == 0) ≡ false = ground (arith, h.0) in
    rw go (ap (λ l. x ∷ l) (c_string-append xs ys h.1))

-- What the receiver prints of its copy, when the whole text is copied.
copied_text :
    (string : List ℕ) (size : ℕ) (text old : List ℕ)
    → All (λ c. c ≢ 0) string
    → length text ≡ async_msg_size
    → async_msg_size ≤ size
    → (rest : List ℕ) × (text ≡ string ++ 0 ∷ rest)
    → c_string (data_get size text old) ≡ string
copied_text string size text old full l h (rest, e) =
    rw (take_all size text (omega (arith, l, h)), e, append_assoc string (0 ∷ rest) (drop size old))
      (c_string-append string (rest ++ drop size old) full)

module _ {B S : Type 0} {mbox : MboxApi B} {sem : SemApi S} {print : ℕ → List ℕ}
    {queued : B → List ℕ} {units : S → ℕ} {sender receiver : ℕ}
    (mbox_laws : MboxLaws mbox queued sender receiver) (sem_laws : SemLaws sem units)
    (prints : (n : ℕ) → (length (print n) < async_msg_size) × All (λ c. c ≢ 0) (print n)) where
  PostStep-PostOk :
      {s t : Post B S}
      → PostStep mbox sem print s t
      → PostOk queued units print sender receiver s
      → PostOk queued units print sender receiver t
  PostStep-PostOk {s} (sender_prepares e small) ok =
      let (n, log, total) = ok.printed in
      record {
        one_message = omega (arith, ok.one_message, ap is_awaiting e);
        own_held = All-empty _ (held s.receiver) (omega (arith, ok.one_message, ap is_awaiting e));
        own_queued =
            All-empty _ (queued s.async_mbox) (omega (arith, ok.one_message, ap is_awaiting e));
        own_text = λ h. (drop (length (print (s.count + 1)) + 1) s.text, refl);
        text_size = omega (
          arith,
          length-append (print (s.count + 1)) (0 ∷ drop (length (print (s.count + 1)) + 1) s.text),
          length-drop (length (print (s.count + 1)) + 1) s.text,
          (prints (s.count + 1)).0,
          ok.text_size,
        );
        whole_text = ok.whole_text;
        for_receiver = ok.for_receiver;
        from_sender = ok.from_sender;
        printed =
            (n, log, omega (arith, total, ok.one_message, ap is_awaiting e, ap is_prepared e));
      }
  PostStep-PostOk {s} (sender_puts e) ok =
      let (n, log, total) = ok.printed in
      let adds = mbox_laws.put_adds s.async_mbox s.count s.tx_target ok.for_receiver in
      let longer = ap length adds ∙ length-append (queued s.async_mbox) (s.count ∷ []) in
      record {
        one_message = omega (arith, ok.one_message, ap is_awaiting e, longer);
        own_held = ok.own_held;
        own_queued =
            subst (All (λ k. k ≡ s.count)) (sym adds)
              (All-snoc (queued s.async_mbox) ok.own_queued refl);
        own_text = ok.own_text;
        text_size = ok.text_size;
        whole_text = ok.whole_text;
        for_receiver = ok.for_receiver;
        from_sender = ok.from_sender;
        printed = (n, log, omega (arith, total, ap is_prepared e, longer));
      }
  PostStep-PostOk {s} (sender_takes d e t) ok =
      let (n, log, total) = ok.printed in
      record {
        one_message =
            omega (arith, ok.one_message, ap is_awaiting e, sem_laws.take_one s.done_sem d t);
        own_held = ok.own_held;
        own_queued = ok.own_queued;
        own_text = ok.own_text;
        text_size = ok.text_size;
        whole_text = ok.whole_text;
        for_receiver = ok.for_receiver;
        from_sender = ok.from_sender;
        printed = (n, log, omega (arith, total, ap is_prepared e));
      }
  PostStep-PostOk {s} (receiver_gets info from b e g) ok =
      let (n, log, total) = ok.printed in
      let (first, source) =
        mbox_laws.get_first s.async_mbox b info s.rx_source from ok.from_sender g in
      let own = subst (All (λ k. k ≡ s.count)) first ok.own_queued in
      let idle = ap (λ r. length (held r)) e in
      record {
        one_message = omega (arith, ok.one_message, ap length first, idle);
        own_held = (own.0, tt);
        own_queued = own.1;
        own_text = ok.own_text;
        text_size = ok.text_size;
        whole_text = ground (arith, ok.whole_text);
        for_receiver = ok.for_receiver;
        from_sender = inr source;
        printed = (n, log, omega (arith, total, ap length first, idle));
      }
  PostStep-PostOk {s} (receiver_copies info e) ok =
      let (n, log, total) = ok.printed in
      let busy = ap (λ r. length (held r)) e in
      let one = one_place s.sender in
      let number : info ≡ s.count =
        (subst (λ r. All (λ (k : ℕ). k ≡ s.count) (held r)) e ok.own_held).0 in
      let last : s.count ≡ suc n = omega (arith, total, ok.one_message, busy, one) in
      let text =
        copied_text (print s.count) s.rx_size s.text s.rx_text (prints s.count).1 ok.text_size
          ok.whole_text (ok.own_text (omega (arith, last))) in
      let given = sem_laws.give_one s.done_sem (omega (arith, ok.one_message, busy, one)) in
      record {
        one_message = omega (arith, ok.one_message, busy, one, given);
        own_held = tt;
        own_queued = ok.own_queued;
        own_text = ok.own_text;
        text_size = ok.text_size;
        whole_text = ok.whole_text;
        for_receiver = ok.for_receiver;
        from_sender = ok.from_sender;
        printed = (suc n, rw (log, text, number, last) refl, omega (arith, total, busy, last));
      }

  PostRun-PostOk :
      {s t : Post B S}
      → PostOk queued units print sender receiver s
      → PostRun mbox sem print s t
      → PostOk queued units print sender receiver t
  PostRun-PostOk ok here = ok
  PostRun-PostOk ok (next r st) = PostStep-PostOk st (PostRun-PostOk ok r)

  -- If `snprintf` makes texts of less than 32 characters, of which none is 0, and the fields of the
  -- descriptors that are not initialised name the other thread or any one, and a size of 32 or more: from
  -- an empty mailbox, a semaphore at 0 and both threads at their start, whatever the interleaving, the
  -- receiver has printed the messages from number 1 on, each once, in order and with its own text,
  -- though the text is copied only after the number was received; and the sender is at most one ahead.
  pub texts_handed_over :
      (s t : Post B S)
      → PostStart queued units sender receiver s
      → PostRun mbox sem print s t
      → (n : ℕ) × (t.log ≡ messages print n) × (n ≤ t.count) × (t.count ≤ n + 1)
  texts_handed_over s t start r =
      let ok = PostRun-PostOk (PostStart-PostOk start) r in
      let (n, log, total) = ok.printed in
      (n, log, omega (arith, total), omega (arith, total, ok.one_message, one_place t.sender))
