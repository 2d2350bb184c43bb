-- ===== src/Logger/Kept.antt =====
-- What the buffers of src/base/AsyncLogger.cc and the file hold, in every history of its threads.
use reactor_chat_server.Common.{
  ◌≤◌, ◌≡◌, refl, sym, ap, ap₂, ◌∙◌, Bool, true, false, not, ◌||◌, List, [], ◌∷◌, ◌++◌, Bytes,
  length, leb, arith, inl, inr, Bool-cases, append_assoc, append-nil, All, All-append, subst,
  Option, none, some, Option-cases, length-append,
}
use reactor_chat_server.Logger.{
  AsyncLogger, LogBuffer, new_logger, k_size, avail, change_buffer, append_here, append_line,
  start_running, stop_running, take_buffers, written, give_back, or_new, last_of, reset,
}
use reactor_chat_server.Logger.Run.{
  Phase, waiting, writing, returning, finished, Run, first_run, Step, appends, starts, halts, takes,
  writes, gives_back, Reach, here, next, after_round, halted, Writes, idle, acts,
}

-- The bytes in the round's buffers, and those in the buffers of the log.
abbrev pub in_round : Phase → Bytes
in_round (writing bs last) = written bs
in_round _ = []

abbrev pub waiting_bytes : AsyncLogger → Bytes
waiting_bytes l = written l.buffers_to_write ++ l.current_buffer

-- The round under way is the last, or was.
abbrev pub is_last : Phase → Bool
is_last (writing bs last) = last
is_last (returning bs last) = last
is_last finished = true
is_last _ = false

-- `small`: no buffer holds more than its array. `spare`: the spare buffer is empty, if there is one. `rest`: once the last round has taken the buffers, only
-- a line that comes after `stop` can be left in the log.
pub record IsKept (x : Run) : Type 0 where
  pub whole : x.file ++ (in_round x.phase ++ waiting_bytes x.logger) ≡ x.appended
  pub small : length x.logger.current_buffer ≤ k_size
  pub all_small : All (λ b. length b ≤ k_size) x.logger.buffers_to_write
  pub spare : or_new x.logger.next_buffer ≡ []
  pub rest :
      is_last x.phase ≡ true
      → (x.logger.running ≡ false) × (x.late ≡ false → waiting_bytes x.logger ≡ [])

written-snoc : (bs : List LogBuffer) (b : LogBuffer) → written (bs ++ b ∷ []) ≡ written bs ++ b
unfolding written
written-snoc [] b = append-nil b
written-snoc (c ∷ cs) b = ap (◌++◌ c) (written-snoc cs b) ∙ sym (append_assoc c (written cs) b)

-- What an append does, in either case.
pub record Appended (line : Bytes) (l m : AsyncLogger) : Type 0 where
  pub bytes : waiting_bytes m ≡ waiting_bytes l ++ line
  pub small : length m.current_buffer ≤ k_size
  pub all_small : All (λ b. length b ≤ k_size) m.buffers_to_write
  pub spare : or_new m.next_buffer ≡ []
  pub same : m.running ≡ l.running

append_line-Appended :
    (line : Bytes) (l : AsyncLogger)
    → length line ≤ k_size
    → length l.current_buffer ≤ k_size
    → All (λ b. length b ≤ k_size) l.buffers_to_write
    → or_new l.next_buffer ≡ []
    → Appended line l (append_line line l)
unfolding append_line append_here change_buffer
append_line-Appended line l h small all spare =
    elim (Bool-cases (leb (length line) (avail l.current_buffer))) [
      | inl fits ↦ rw fits (record {
        bytes = sym (append_assoc (written l.buffers_to_write) l.current_buffer line);
        small = ground (arith, length-append l.current_buffer line);
        all_small = all;
        spare = spare;
        same = refl;
      })
      | inr full ↦ rw full (record {
        bytes =
            ap (λ (b : Bytes). written (l.buffers_to_write ++ l.current_buffer ∷ []) ++ (b ++ line))
              spare
            ∙ ap (λ p. p ++ line) (written-snoc l.buffers_to_write l.current_buffer);
        small = subst (λ (b : Bytes). length (b ++ line) ≤ k_size) (sym spare) h;
        all_small =
            All-append (λ b. length b ≤ k_size) l.buffers_to_write (l.current_buffer ∷ []) all
              (small, tt);
        spare = refl;
        same = refl;
      })
    ]

-- Bytes behind all three parts.
behind :
    (file round bytes line : Bytes)
    → file ++ (round ++ (bytes ++ line)) ≡ (file ++ (round ++ bytes)) ++ line
behind file round bytes line =
    sym (append_assoc file (round ++ bytes) line ∙ ap (◌++◌ file) (append_assoc round bytes line))

-- Two parts that are put together are both empty.
both_empty : (a b : Bool) → (a || b) ≡ false → (a ≡ false) × (b ≡ false)
both_empty a b h = (ground arith, ground arith)

appends-IsKept :
    (x : Run) (line : Bytes)
    → length line ≤ k_size
    → IsKept x
    → IsKept (record x {
      logger = append_line line x.logger;
      appended = x.appended ++ line;
      late = x.late || not x.logger.running;
    })
appends-IsKept x line h k =
    let a = append_line-Appended line x.logger h k.small k.all_small k.spare in
    record {
      whole =
          ap (λ b. x.file ++ (in_round x.phase ++ b)) a.bytes
          ∙ behind x.file (in_round x.phase) (waiting_bytes x.logger) line
          ∙ ap (λ b. b ++ line) k.whole;
      small = a.small;
      all_small = a.all_small;
      spare = a.spare;
      rest = λ last.
          let (halted, _) = k.rest last in
          (
            a.same ∙ halted,
            λ on_time.
                absurd (ground (arith, halted, both_empty x.late (not x.logger.running) on_time)),
          );
    }

-- The bytes of a round that is taken.
takes_whole :
    (x : Run)
    → IsKept x
    → x.phase ≡ waiting
    → x.file ++ (written (take_buffers x.logger).0 ++ []) ≡ x.appended
unfolding take_buffers change_buffer
takes_whole x k e =
    ap (◌++◌ x.file) (append-nil _ ∙ written-snoc x.logger.buffers_to_write x.logger.current_buffer)
    ∙ sym (ap (λ b. x.file ++ (b ++ waiting_bytes x.logger)) (ap in_round e))
    ∙ k.whole

takes-IsKept :
    (x : Run)
    → x.phase ≡ waiting
    → IsKept x
    → IsKept (record x {
      logger = (take_buffers x.logger).2;
      phase = writing (take_buffers x.logger).0 (take_buffers x.logger).1;
    })
unfolding take_buffers change_buffer written
takes-IsKept x e k = record {
  whole =
      ap (λ (b : Bytes). x.file ++ (written (take_buffers x.logger).0 ++ b)) k.spare
      ∙ takes_whole x k e;
  small = subst (λ (b : Bytes). length b ≤ k_size) (sym k.spare) (omega arith);
  all_small = tt;
  spare = refl;
  rest = λ last. (ground (arith, last), λ _. k.spare);
}

-- What gives a buffer back changes the spare only, which is empty.
give_back_lem :
    (bs : List LogBuffer) (l : AsyncLogger)
    → or_new l.next_buffer ≡ []
    → (n : Option LogBuffer) × (give_back bs l ≡ record l { next_buffer = n }) × (or_new n ≡ [])
unfolding give_back reset
give_back_lem bs l spare = elim (Option-cases l.next_buffer) [
  | inr (b, e) ↦ (
    some b,
    rw (e, give_back) (ap (λ n. record l { next_buffer = n }) e),
    sym (ap or_new e) ∙ spare,
  )
  | inl e ↦ elim (Option-cases (last_of bs)) [
    | inl f ↦ (none, rw (e, give_back, f) (ap (λ n. record l { next_buffer = n }) e), refl)
    | inr (b, f) ↦ (some [], rw (e, give_back, f), refl)
  ]
]

Step-IsKept : {x y : Run} → Step x y → IsKept x → IsKept y
unfolding start_running stop_running give_back
Step-IsKept {x} (appends line h) k = appends-IsKept x line h k
Step-IsKept {x} (starts e) k = record {
  whole = sym (ap (λ b. x.file ++ (b ++ waiting_bytes x.logger)) (ap in_round e)) ∙ k.whole;
  small = k.small;
  all_small = k.all_small;
  spare = k.spare;
  rest = λ last. cc;
}
Step-IsKept {x} halts k = record {
  whole = k.whole;
  small = k.small;
  all_small = k.all_small;
  spare = k.spare;
  rest = λ last. (refl, (k.rest last).1);
}
Step-IsKept {x} (takes e) k = takes-IsKept x e k
Step-IsKept {x} (writes bs last e) k = record {
  whole =
      append_assoc x.file (written bs) (waiting_bytes x.logger)
      ∙ sym (ap (λ b. x.file ++ (b ++ waiting_bytes x.logger)) (ap in_round e))
      ∙ k.whole;
  small = k.small;
  all_small = k.all_small;
  spare = k.spare;
  rest = λ l. k.rest (ap is_last e ∙ l);
}
Step-IsKept {x} (gives_back bs last e) k =
    let (n, same, empty) = give_back_lem bs x.logger k.spare in
    let whole = sym (ap (λ b. x.file ++ (b ++ waiting_bytes x.logger)) (ap in_round e)) ∙ k.whole in
    subst (λ (l : AsyncLogger). IsKept (record x { logger = l; phase = after_round last }))
      (sym same) (by_last last n empty (ap is_last e) whole)
  where
    by_last :
        (last : Bool) (n : Option LogBuffer)
        → or_new n ≡ []
        → is_last x.phase ≡ last
        → x.file ++ waiting_bytes x.logger ≡ x.appended
        → IsKept
            (record x { logger = record x.logger { next_buffer = n }; phase = after_round last })
    by_last true n empty was whole = record {
      whole = whole;
      small = k.small;
      all_small = k.all_small;
      spare = empty;
      rest = λ l. k.rest was;
    }
    by_last false n empty was whole = record {
      whole = whole;
      small = k.small;
      all_small = k.all_small;
      spare = empty;
      rest = λ l. cc;
    }

-- In every history of the log, with lines that fit into a buffer: the file, the buffers of the
-- round and those of the log hold in this order exactly what was appended; no buffer overflows; a
-- spare buffer is empty; and once the last round has taken its buffers the log is stopped, and
-- empty unless a line came after stop.
pub Reach-IsKept : {x : Run} → Reach first_run x → IsKept x
unfolding first_run new_logger written
Reach-IsKept here = record {
  whole = refl;
  small = omega arith;
  all_small = tt;
  spare = refl;
  rest = λ last. cc;
}
Reach-IsKept (next r s) = Step-IsKept s (Reach-IsKept r)

-- In every history of the log, with lines that fit into a buffer: when the writing thread is done
-- and no line came after stop, the file holds everything that was appended.
pub finished_whole :
    {x : Run} → Reach first_run x → x.phase ≡ finished → x.late ≡ false → x.file ≡ x.appended
finished_whole {x} r e on_time =
    let k = Reach-IsKept r in
    let empty = (k.rest (ap is_last e)).1 on_time in
    sym (append-nil x.file) ∙ sym (ap₂ (λ a b. x.file ++ (a ++ b)) (ap in_round e) empty) ∙ k.whole

-- From the wait of the writing thread, in a history with lines that fit into a buffer, one step, of
-- stop, and then a history of the thread's own steps alone lead to its end, with everything that
-- was appended in the file.
pub stop_flushes :
    {x : Run}
    → Reach first_run x
    → x.phase ≡ waiting
    → Step x (halted x)
      × (y : Run) × Writes (halted x) y
      × (y.phase ≡ finished)
      × (y.file ≡ x.appended)
unfolding stop_running take_buffers change_buffer
stop_flushes {x} r e =
    let k = Reach-IsKept r in
    let bs = (take_buffers (halted x).logger).0 in
    let taken : Run = record (halted x) {
      logger = (take_buffers (halted x).logger).2;
      phase = writing bs true;
    } in
    let wrote : Run = record taken { file = x.file ++ written bs; phase = returning bs true } in
    let y : Run = record wrote { logger = give_back bs wrote.logger; phase = finished } in
    (
      halts,
      y,
      acts (acts (acts idle (takes e) refl) (writes bs true refl) refl) (gives_back bs true refl)
          refl,
      refl,
      ap (◌++◌ x.file) (sym (append-nil _)) ∙ takes_whole x k e,
    )
