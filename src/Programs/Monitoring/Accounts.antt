-- ===== src/Programs/Monitoring/Accounts.antt =====
-- What the figures of the monitoring thread are made of.
use aeron_archive_replay.Ring.Size.{IsSize}
use aeron_archive_replay.Ring.Contents.{contents_empty}
use aeron_archive_replay.Fifo
use aeron_archive_replay.Base.{
  ℕ, suc, ◌+◌, ◌-◌, ◌%◌, ◌^◌, ◌≡◌, refl, sym, ap, ap₂, ◌∙◌, if_both, ◌<◌, inl, inr, Bool-cases,
  Bool, true, false, List, [], ◌∷◌, ◌++◌, append_assoc, length, length-append, ltb, add64, if_true,
  if_false, arith,
}
use aeron_archive_replay.SpscQueue as Spsc
use aeron_archive_replay.SpscQueue.{SpscQueue}
use aeron_archive_replay.SpscQueue.Stats.{MessageStats, blank}
use aeron_archive_replay.SpscQueue.Refine.{
  IsValid, items, new-IsValid, enqueue-IsValid, dequeue-IsValid, enqueue_refines, dequeue_refines,
}
use aeron_archive_replay.MessageBuffer.{MessageBuffer}
use aeron_archive_replay.MessageWorker.{stats_of, send_to_monitoring}
use aeron_archive_replay.Programs.Monitor.{Monitor, start, monitor, monitor_all}
use aeron_archive_replay.Programs.Monitoring.{
  Watch, Step, sends, looks, look, send, run, begin, sent,
}

-- The figures are those of what was taken, and what was accepted and is not taken is queued.
pub record Watched (size : ℕ) (w : Watch) : Type 0 where
  pub valid : IsValid size w.queue
  pub taken : List MessageStats
  pub figures : w.figures ≡ monitor_all start taken
  pub order : w.accepted ≡ taken ++ items size blank w.queue

monitor_all-append :
    (m : Monitor) (xs : List MessageStats) (y : MessageStats)
    → monitor_all m (xs ++ y ∷ []) ≡ monitor (monitor_all m xs) y
unfolding monitor_all
monitor_all-append m [] y = refl
monitor_all-append m (x ∷ xs) y = monitor_all-append (monitor m x) xs y

monitor-counter : (m : Monitor) (x : MessageStats) → (monitor m x).counter ≡ add64 m.counter 1
unfolding monitor
monitor-counter m x = if_both _ (λ (n : Monitor). n.counter) refl refl

monitor_all-counter :
    (xs : List MessageStats) (m : Monitor)
    → m.counter < 2 ^ 64
    → (monitor_all m xs).counter ≡ (m.counter + length xs) % 2 ^ 64
unfolding monitor_all
monitor_all-counter [] m h = omega arith
monitor_all-counter (x ∷ xs) m h =
    let once = monitor-counter m x in
    omega (arith, monitor_all-counter xs (monitor m x) (omega (arith, once)), once)

module _ {size : ℕ} (s : IsSize size) where
  look-Watched : (w : Watch) → Watched size w → Watched size (look size w)
  unfolding look Fifo.pop
  look-Watched w v = by_items (items size blank w.queue) refl
    where
      r : Bool × MessageStats × SpscQueue MessageStats
      r = Spsc.dequeue size w.queue w.stats

      by_items :
          (xs : List MessageStats) → items size blank w.queue ≡ xs → Watched size (look size w)
      by_items [] e =
          let k = dequeue_refines s blank v.valid w.stats ∙ ap (λ l. Fifo.pop l w.stats) e in
          record {
            valid = dequeue-IsValid s w.stats v.valid;
            taken = v.taken;
            figures = if_false {b = r.0} (monitor w.figures r.1) (ap (λ t. t.0) k) ∙ v.figures;
            order = v.order ∙ ap (◌++◌ v.taken) (e ∙ sym (ap (λ t. t.2) k));
          }
      by_items (x ∷ xs) e =
          let k = dequeue_refines s blank v.valid w.stats ∙ ap (λ l. Fifo.pop l w.stats) e in
          record {
            valid = dequeue-IsValid s w.stats v.valid;
            taken = v.taken ++ x ∷ [];
            figures =
                if_true {b = r.0} w.figures (ap (λ t. t.0) k)
                ∙ ap₂ monitor v.figures (ap (λ t. t.1) k)
                ∙ sym (monitor_all-append start v.taken x);
            order =
                v.order
                ∙ ap (◌++◌ v.taken) e
                ∙ sym (append_assoc v.taken (x ∷ []) xs)
                ∙ ap (◌++◌ (v.taken ++ x ∷ [])) (sym (ap (λ t. t.2) k));
          }

  send-Watched :
      (w : Watch) (b : MessageBuffer)
      → Watched size w
      → Watched size (send size w b)
        × (length (send size w b).accepted + (send size w b).skipped
            ≡ suc (length w.accepted + w.skipped))
  unfolding send send_to_monitoring Fifo.push
  send-Watched w b v =
      let x = stats_of b in
      let queued = items size blank w.queue in
      elim (Bool-cases (ltb (length queued) (size - 1))) [
        | inl room ↦
            let k = enqueue_refines s blank v.valid x ∙ if_true (false, queued) room in
            (
              record {
                valid = enqueue-IsValid s x v.valid;
                taken = v.taken;
                figures = v.figures;
                order =
                    if_true w.accepted (ap (λ t. t.0) k)
                    ∙ ap (λ l. l ++ x ∷ []) v.order
                    ∙ append_assoc v.taken queued (x ∷ [])
                    ∙ ap (◌++◌ v.taken) (sym (ap (λ t. t.1) k));
              },
              rw (ap (λ t. t.0) k) (omega (arith, length-append w.accepted (x ∷ []))),
            )
        | inr full ↦
            let k = enqueue_refines s blank v.valid x ∙ if_false (true, queued ++ x ∷ []) full in
            (
              record {
                valid = enqueue-IsValid s x v.valid;
                taken = v.taken;
                figures = v.figures;
                order =
                    if_false (w.accepted ++ x ∷ []) (ap (λ t. t.0) k)
                    ∙ v.order
                    ∙ ap (◌++◌ v.taken) (sym (ap (λ t. t.1) k));
              },
              rw (ap (λ t. t.0) k) (omega arith),
            )
      ]

  run-Watched :
      (steps : List Step) (w : Watch)
      → Watched size w
      → Watched size (run size w steps)
        × (length (run size w steps).accepted + (run size w steps).skipped
            ≡ length w.accepted + w.skipped + sent steps)
  unfolding run sent look
  run-Watched [] w v = (v, omega arith)
  run-Watched (sends b ∷ steps) w v =
      let once = send-Watched w b v in
      let rest = run-Watched steps (send size w b) once.0 in (rest.0, omega (arith, rest.1, once.1))
  run-Watched (looks ∷ steps) w v = run-Watched steps (look size w) (look-Watched w v)

  -- From a new statistics queue, after any messages of the worker and turns of the monitoring
  -- thread in any order: the figures are those of the statistics that were taken, and the counter
  -- is their number modulo 2 ^ 64; what the queue has accepted, in order, is what was taken
  -- followed by what is still queued; and what was accepted and what was skipped because the queue
  -- was full is together what the worker has sent.
  pub run_watches :
      (steps : List Step)
      → let w = run size (begin size) steps in
        (taken : List MessageStats) × (w.figures ≡ monitor_all start taken)
        × (w.figures.counter ≡ length taken % 2 ^ 64)
        × (w.accepted ≡ taken ++ items size blank w.queue)
        × (length w.accepted + w.skipped ≡ sent steps)
  unfolding begin monitor_all Spsc.new
  run_watches steps =
      let (v, counted) = run-Watched steps (begin size) (record {
        valid = new-IsValid s blank;
        taken = [];
        figures = refl;
        order = sym (contents_empty size blank (Spsc.new size blank).buffer 0 s.is_positive);
      }) in
      (
        v.taken,
        v.figures,
        ap (λ m. m.counter) v.figures
            ∙ monitor_all-counter v.taken start (omega arith)
            ∙ omega arith,
        v.order,
        omega (arith, counted),
      )
