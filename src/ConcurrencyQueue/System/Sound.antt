-- ===== src/ConcurrencyQueue/System/Sound.antt =====
-- What every step of threads on a `RawQueue` keeps.
use cppfastdevelop.Prelude.{
  suc, ◌-◌, ◌≤◌, ◌<◌, ◌≡◌, refl, sym, ap, ◌∙◌, Bool, true, false, List, [], ◌∷◌, ◌++◌, append_assoc,
  length, length-append, ◌==◌, if◌then◌else◌, arith,
}
use cppfastdevelop.ConcurrencyQueue.{
  waits, got, get, get_from, StopStep, sets_stop_to_get, sets_stop_to_put, broadcasts,
}
use cppfastdevelop.ConcurrencyQueue.System.{
  System, Event, fresh, signalled, broadcast, after_round, put_unless, locked_step, free_step, step,
  run, one_if, IsSound, puts, enters, sleeps, wakes, resumes, stops, stop_step,
}

fresh-IsSound : {A : Type 0} → IsSound (fresh {A = A})
fresh-IsSound = record {
  fifo = refl;
  counted = omega arith;
  waits_empty = λ e. refl;
  awake = λ e g h. omega arith;
}

module _ {A : Type 0} where
  signalled-IsSound : (s : System A) (b : Bool) → IsSound s → IsSound (signalled b s)
  signalled-IsSound s false i = i
  signalled-IsSound s true i = ground (arith, i.fifo, i.counted, i.waits_empty, i.awake)

  broadcast-IsSound : (s : System A) → IsSound s → IsSound (broadcast s)
  broadcast-IsSound s i = record {
    fifo = i.fifo;
    counted = omega (arith, i.counted);
    waits_empty = i.waits_empty;
    awake = λ e g h. omega arith;
  }

  stop_step-IsSound : (e : StopStep) (s : System A) → IsSound s → IsSound (stop_step e s)
  stop_step-IsSound broadcasts s i = broadcast-IsSound s i
  stop_step-IsSound sets_stop_to_get s i = record {
    fifo = i.fifo;
    counted = i.counted;
    waits_empty = i.waits_empty;
    awake = λ e g h. absurd (cc);
  }
  stop_step-IsSound sets_stop_to_put s i = record {
    fifo = i.fifo;
    counted = i.counted;
    waits_empty = i.waits_empty;
    awake = λ e g h. absurd (cc);
  }

  free_step-IsSound : (e : Event A) (s : System A) → IsSound s → IsSound (free_step e s)
  free_step-IsSound sleeps s i = asleep s.about_to_wait refl
    where
      asleep :
          (b : Bool)
          → s.about_to_wait ≡ b
          → IsSound (if b then record s { about_to_wait = false; sleepers = suc s.sleepers } else s)
      asleep false h = i
      asleep true h = record {
        fifo = i.fifo;
        counted = omega (arith, i.counted, ap one_if h);
        waits_empty = λ e. cc;
        awake = λ e g p. omega (arith, i.waits_empty h);
      }
  free_step-IsSound wakes s i = signalled-IsSound s true i
  free_step-IsSound (stops e) s i = stop_step-IsSound e s i
  free_step-IsSound (puts a) s i = i
  free_step-IsSound enters s i = i
  free_step-IsSound resumes s i = i

  -- A state in which one woken thread more may have been needed.
  pub record IsSoundBut (s : System A) : Type 0 where
    pub fifo : s.put_log ≡ s.got_log ++ s.raw.queue
    pub counted : s.sleepers ≤ s.raw.wait_count
    pub free : s.about_to_wait ≡ false
    pub awake :
        s.raw.stop_to_put ≡ false
        → s.raw.stop_to_get ≡ false
        → 0 < s.sleepers
        → length s.raw.queue ≤ suc s.woken

  IsSoundBut-IsSound :
      (s : System A)
      → IsSoundBut s
      → (s.raw.stop_to_put ≡ false → s.raw.stop_to_get ≡ false → length s.raw.queue ≤ s.woken)
      → IsSound s
  IsSoundBut-IsSound s i h = record {
    fifo = i.fifo;
    counted = omega (arith, i.counted, ap one_if i.free);
    waits_empty = λ e. cc (i.free, e);
    awake = λ e g p. h e g;
  }

  waits-IsSound : (s : System A) → IsSoundBut s → s.raw.queue ≡ [] → IsSound (after_round waits s)
  waits-IsSound s i h = record {
    fifo = i.fifo;
    counted = omega (arith, i.counted);
    waits_empty = λ e. ap length h;
    awake = λ e g p. omega (arith, ap length h);
  }

  got-IsSound :
      (s : System A) (a : A) (rest : List A)
      → IsSoundBut s
      → s.raw.queue ≡ a ∷ rest
      → IsSound (after_round (got a rest) s)
  got-IsSound s a rest i h = record {
    fifo = i.fifo ∙ ap (◌++◌ s.got_log) h ∙ sym (append_assoc s.got_log (a ∷ []) rest);
    counted = omega (arith, i.counted, ap one_if i.free);
    waits_empty = λ e. cc (i.free, e);
    awake = λ e g p. omega (arith, i.awake e g p, ap length h);
  }

  get-IsSound : (s : System A) → IsSoundBut s → IsSound (after_round (get s.raw) s)
  get-IsSound s i = round s.raw.queue s.raw.stop_to_put s.raw.stop_to_get refl refl refl
    where
      round :
          (q : List A) (p g : Bool)
          → s.raw.queue ≡ q
          → s.raw.stop_to_put ≡ p
          → s.raw.stop_to_get ≡ g
          → IsSound (after_round (get_from q p g) s)
      round [] false g hq hp hg = waits-IsSound s i hq
      round [] true g hq hp hg =
          ground (arith, g, IsSoundBut-IsSound s i (λ e f. absurd (cc (hp, e))))
      round (a ∷ rest) p true hq hp hg = IsSoundBut-IsSound s i (λ e f. absurd (cc (hg, f)))
      round (a ∷ rest) p false hq hp hg = got-IsSound s a rest i hq

  loosened : (s : System A) → s.about_to_wait ≡ false → IsSound s → IsSoundBut s
  loosened s h i = record {
    fifo = i.fifo;
    counted = omega (arith, i.counted);
    free = h;
    awake = λ e g p. omega (arith, i.awake e g p);
  }

  put-IsSound :
      (a : A) (s : System A)
      → s.about_to_wait ≡ false
      → IsSound s
      → IsSound (put_unless s.raw.stop_to_put a s)
  put-IsSound a s h i =
      let more : length (s.raw.queue ++ a ∷ []) ≡ suc (length s.raw.queue) =
        omega (arith, length-append s.raw.queue (a ∷ [])) in
      let logged : s.put_log ++ a ∷ [] ≡ s.got_log ++ (s.raw.queue ++ a ∷ []) =
        ap (λ l. l ++ a ∷ []) i.fifo ∙ append_assoc s.got_log s.raw.queue (a ∷ []) in
      ground (arith, more, logged, i.fifo, i.counted, i.waits_empty, i.awake, h)

  locked_step-IsSound :
      (e : Event A) (s : System A) → s.about_to_wait ≡ false → IsSound s → IsSound (locked_step e s)
  locked_step-IsSound (puts a) s h i = put-IsSound a s h i
  locked_step-IsSound enters s h i = get-IsSound s (loosened s h i)
  locked_step-IsSound resumes s h i = resumed (s.woken == 0) refl
    where
      resumed :
          (b : Bool)
          → s.woken == 0 ≡ b
          → IsSound (if b then s else after_round (get s.raw) (record s { woken = s.woken - 1 }))
      resumed true e = i
      resumed false e =
          get-IsSound (record s { woken = s.woken - 1 })
            (record {
              fifo = i.fifo;
              counted = omega (arith, i.counted);
              free = h;
              awake = λ u g p. ground (arith, i.awake u g p);
            })
  locked_step-IsSound sleeps s h i = i
  locked_step-IsSound wakes s h i = i
  locked_step-IsSound (stops e) s h i = i

  step-IsSound : (e : Event A) (s : System A) → IsSound s → IsSound (step e s)
  step-IsSound e s i = free_step-IsSound e _ (locked s.about_to_wait refl)
    where
      locked : (b : Bool) → s.about_to_wait ≡ b → IsSound (if b then s else locked_step e s)
      locked true h = i
      locked false h = locked_step-IsSound e s h i

  run_from-IsSound : (es : List (Event A)) (s : System A) → IsSound s → IsSound (run es s)
  unfolding run
  run_from-IsSound [] s i = i
  run_from-IsSound (e ∷ es) s i = run_from-IsSound es (step e s) (step-IsSound e s i)

  -- Through any puts, gets, waits, wake-ups and statements of the two stops by any threads on a new
  -- queue, in any order, what has been put is, in order, what has been got and then what is queued;
  -- the sleeping threads are no more than `_waitCount`; a get about to wait has seen an empty queue;
  -- and unless puts or gets are stopped, no wake-up is lost: while a thread sleeps there is a woken
  -- thread for each message in the queue.
  pub run-IsSound : (es : List (Event A)) → IsSound (run es fresh)
  run-IsSound es = run_from-IsSound es fresh fresh-IsSound
