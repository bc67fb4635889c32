-- ===== src/MessageQueue/Order.antt =====
-- What is received is what was sent, in order.
use zephyr_stm32h.Common.{
  ℕ, ◌+◌, ◌*◌, ◌%◌, ◌≤◌, ◌<◌, ◌≡◌, refl, sym, ap, subst, ◌∙◌, Bool, List, [], ◌∷◌, ◌++◌,
  append_assoc, arith, length, All, length-append,
}
use zephyr_stm32h.MessageQueue.{
  MsgqApi, MsgqLaws, SensorData, Command, sensor_limit, cmd_limit, Link, LinkStep, sends, gives_up,
  receives, times_out, SensorStep, CommandStep,
}

pub data LinkRun {Q A : Type 0} (Step : Link Q A → Link Q A → Type 0) (s : Link Q A)
    : Link Q A → Type 0 where
  here : LinkRun Step s s
  next : {t u : Link Q A} → LinkRun Step s t → Step t u → LinkRun Step s u

-- The numbers of the messages rise, from above `low` to `high` at most.
abbrev pub Rising : {A : Type 0} → (A → ℕ) → ℕ → List A → ℕ → Type 0
Rising number low [] high = low ≤ high
Rising number low (m ∷ ms) high = (low < number m) × Rising number (number m) ms high

-- Nothing is in the queue, sent or received.
pub record LinkStart {Q A : Type 0} (contents : Q → List A) (s : Link Q A) : Type 0 where
  pub empty : contents s.queue ≡ []
  pub none_sent : s.sent ≡ []
  pub none_given_up : s.given_up ≡ []
  pub none_received : s.received ≡ []

module _ {A : Type 0} (number : A → ℕ) where
  Rising-snoc :
      (low high : ℕ) (ms : List A) (m : A)
      → Rising number low ms high
      → number m ≡ high + 1
      → Rising number low (ms ++ m ∷ []) (number m)
  Rising-snoc low high [] m h e = (omega arith, omega arith)
  Rising-snoc low high (x ∷ ms) m h e = (h.0, Rising-snoc (number x) high ms m h.1 e)

  Rising-le :
      (low high high' : ℕ) (ms : List A)
      → Rising number low ms high
      → high ≤ high'
      → Rising number low ms high'
  Rising-le low high high' [] h le = omega arith
  Rising-le low high high' (x ∷ ms) h le = (h.0, Rising-le (number x) high high' ms h.1 le)

-- What holds of a link that started with the number `first`.
pub record LinkOk {Q A : Type 0} (contents : Q → List A) (limit : ℕ) (number : A → ℕ)
    (Fits : A → Type 0) (first : ℕ) (s : Link Q A) : Type 0 where
  pub in_order : s.sent ≡ s.received ++ contents s.queue
  pub rising : Rising number first s.sent (number s.last)
  pub counted : number s.last ≡ first + length s.sent + length s.given_up
  pub bounded : length (contents s.queue) ≤ limit
  pub fitting : All Fits s.sent

All-snoc :
    {A : Type 0} (Fits : A → Type 0) (ms : List A) (m : A)
    → All Fits ms
    → Fits m
    → All Fits (ms ++ m ∷ [])
All-snoc Fits [] m h hm = (hm, tt)
All-snoc Fits (x ∷ ms) m h hm = (h.0, All-snoc Fits ms m h.1 hm)

LinkStart-LinkOk :
    {Q A : Type 0} {contents : Q → List A} (limit : ℕ) (number : A → ℕ) (Fits : A → Type 0)
    {s : Link Q A}
    → LinkStart contents s
    → LinkOk contents limit number Fits (number s.last) s
LinkStart-LinkOk limit number Fits {s} start = record {
  in_order = rw (start.none_sent, start.none_received, start.empty) refl;
  rising =
      subst (λ l. Rising number (number s.last) l (number s.last)) (sym start.none_sent)
        (omega arith);
  counted = omega (arith, ap length start.none_sent, ap length start.none_given_up);
  bounded = omega (arith, ap length start.empty);
  fitting = subst (All Fits) (sym start.none_sent) tt;
}

module _ {Q A : Type 0} {api : MsgqApi Q A} {contents : Q → List A} {limit : ℕ}
    (laws : MsgqLaws api contents limit) {make : ℕ → A → A} {fits : A → Bool} (number : A → ℕ)
    (Fits : A → Type 0) (counts : (now : ℕ) (d : A) → number (make now d) ≡ number d + 1)
    (made : (now : ℕ) (d : A) → Fits (make now d)) where
  LinkStep-LinkOk :
      {s t : Link Q A} (first : ℕ)
      → LinkStep api make fits s t
      → LinkOk contents limit number Fits first s
      → LinkOk contents limit number Fits first t
  LinkStep-LinkOk {s} first (sends now f z) ok =
      let m = make now s.last in
      let added = laws.put_adds s.queue m z in
      record {
        in_order =
            ap (λ l. l ++ m ∷ []) ok.in_order
            ∙ append_assoc s.received (contents s.queue) (m ∷ [])
            ∙ ap (λ l. s.received ++ l) (sym added);
        rising = Rising-snoc number first (number s.last) s.sent m ok.rising (counts now s.last);
        counted = omega (arith, ok.counted, counts now s.last, length-append s.sent (m ∷ []));
        bounded = omega (
          arith,
          laws.put_room s.queue m z,
          ap length added,
          length-append (contents s.queue) (m ∷ []),
        );
        fitting = All-snoc Fits s.sent m ok.fitting (made now s.last);
      }
  LinkStep-LinkOk {s} first (gives_up now f z) ok =
      let m = make now s.last in
      let same = laws.put_fails s.queue m z in
      record {
        in_order = ok.in_order ∙ ap (λ l. s.received ++ l) (sym same);
        rising =
            Rising-le number first (number s.last) (number m) s.sent ok.rising
              (omega (arith, counts now s.last));
        counted = omega (arith, ok.counted, counts now s.last, length-append s.given_up (m ∷ []));
        bounded = omega (arith, ok.bounded, ap length same);
        fitting = ok.fitting;
      }
  LinkStep-LinkOk {s} first (receives m q g) ok =
      let head = laws.get_first s.queue q m g in
      record {
        in_order =
            ok.in_order
            ∙ ap (λ l. s.received ++ l) head
            ∙ sym (append_assoc s.received (m ∷ []) (contents q));
        rising = ok.rising;
        counted = ok.counted;
        bounded = omega (arith, ok.bounded, ap length head);
        fitting = ok.fitting;
      }
  LinkStep-LinkOk {s} first (times_out g) ok = ok

  pub LinkRun-LinkOk :
      {s t : Link Q A}
      → LinkStart contents s
      → LinkRun (LinkStep api make fits) s t
      → LinkOk contents limit number Fits (number s.last) t
  LinkRun-LinkOk start here = LinkStart-LinkOk limit number Fits start
  LinkRun-LinkOk start (next r st) = LinkStep-LinkOk _ st (LinkRun-LinkOk start r)

abbrev pub IsReading : SensorData → Type 0
IsReading d = (d.temperature ≡ 25 + d.id % 10) × (d.humidity ≡ 60 + d.id % 20)

abbrev pub IsCommand : Command → Type 0
IsCommand c = c.param ≡ c.cmd_id * 10

module _ {Q : Type 0} where
  -- From an empty queue and a number that is not negative, whatever the interleaving of the sensor and the processor: the readings that the
  -- sensor has sent are, in order, those that the processor has printed followed by those in the queue, of
  -- which there are at most 5; their numbers rise, the temperature and the humidity go with the number,
  -- and every number since the start was either sent or dropped.
  pub readings_in_order :
      {api : MsgqApi Q SensorData} {contents : Q → List SensorData}
      (laws : MsgqLaws api contents sensor_limit) (s t : Link Q SensorData)
      → LinkStart contents s
      → LinkRun (SensorStep api) s t
      → (t.sent ≡ t.received ++ contents t.queue)
        × (length (contents t.queue) ≤ 5)
        × Rising (λ d. d.id) s.last.id t.sent t.last.id
        × All IsReading t.sent
        × (t.last.id ≡ s.last.id + length t.sent + length t.given_up)
  readings_in_order laws s t start r =
      let ok =
        LinkRun-LinkOk laws (λ d. d.id) IsReading (λ now d. refl) (λ now d. (refl, refl)) start r in
      (ok.in_order, ok.bounded, ok.rising, ok.fitting, ok.counted)

  -- From an empty queue and a number that is not negative, whatever the interleaving of the sender and the handler and whichever calls time
  -- out: the commands that were put are, in order, those that the handler has executed followed by those
  -- in the queue, of which there are at most 3; their numbers rise, the parameter is 10 times the number,
  -- and every number since the start was either put or given up.
  pub commands_in_order :
      {api : MsgqApi Q Command} {contents : Q → List Command}
      (laws : MsgqLaws api contents cmd_limit) (s t : Link Q Command)
      → LinkStart contents s
      → LinkRun (CommandStep api) s t
      → (t.sent ≡ t.received ++ contents t.queue)
        × (length (contents t.queue) ≤ 3)
        × Rising (λ c. c.cmd_id) s.last.cmd_id t.sent t.last.cmd_id
        × All IsCommand t.sent
        × (t.last.cmd_id ≡ s.last.cmd_id + length t.sent + length t.given_up)
  commands_in_order laws s t start r =
      let ok =
        LinkRun-LinkOk laws (λ c. c.cmd_id) IsCommand (λ now c. refl) (λ now c. refl) start r in
      (ok.in_order, ok.bounded, ok.rising, ok.fitting, ok.counted)
