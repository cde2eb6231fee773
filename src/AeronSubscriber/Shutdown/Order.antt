-- ===== src/AeronSubscriber/Shutdown/Order.antt =====
-- What the order of the resets and the loop decides.
use aeron_archive_replay.Base.{
  ◌≡◌, inl, inr, refl, Bool, true, false, not, ◌&&◌, ◌||◌, List, [], ◌∷◌, if_holds, if_both,
  if_false, subst, sym, ap, Bool-cases, arith,
}
use aeron_archive_replay.AeronSubscriber.Shutdown.{
  Handles, Receiver, testing, choosing, merging, asking_merged, asking_failed, releasing,
  trying_live, polling, left, crashed, Main, waiting, stopping, resetting_merge, joined, System,
  Answers, Turn, receiver_turn, main_turn, receive, proceed, step, run, start,
}

abbrev pub quiet : Answers
quiet = record { fatal = false; is_merged = false; has_failed = false }

-- The receiver looks at the flag and at the pointer it will follow; the signal comes, and the main
-- thread clears the flag and the pointers; the receiver follows its pointer.
abbrev pub late_reset : List Turn
late_reset =
    receiver_turn quiet
    ∷ receiver_turn quiet
    ∷ receiver_turn quiet
    ∷ main_turn true
    ∷ main_turn true
    ∷ main_turn true
    ∷ main_turn true
    ∷ receiver_turn quiet
    ∷ []

-- Where the subscriber runs with a `ReplayMerge` or a subscription, there is an order of the
-- accesses in which the receiving thread follows a null pointer: the main thread resets the
-- pointers of `shutdown` after that thread has tested them.
pub late_reset_crashes :
    (h : Handles)
    → h.running ≡ true
    → (h.replay_merge || h.subscription) ≡ true
    → (run (start h) late_reset).receiver ≡ crashed
unfolding run step receive proceed
late_reset_crashes h on some_one = elim (Bool-cases h.replay_merge) [
  | inl e ↦ rw (on, e) refl
  | inr e ↦ rw (on, e, live e) refl
]
  where
    live : h.replay_merge ≡ false → h.subscription ≡ true
    live e = ground arith

abbrev pub between_turns : Receiver → Bool
between_turns testing = true
between_turns left = true
between_turns _ = false

-- The first reset comes only where the receiver is not within a turn of its loop.
unfoldable pub in_order : Main → Receiver → Turn → Bool
in_order resetting_merge r (main_turn signal) = between_turns r
in_order _ r t = true

unfoldable pub orderly : System → List Turn → Bool
unfolding step in_order
orderly s [] = true
orderly s (t ∷ turns) = in_order s.main s.receiver t && orderly (step s t) turns

-- No pointer that the receiver is about to follow is null.
abbrev pub Follows : Receiver → Handles → Type 0
Follows merging h = h.replay_merge ≡ true
Follows asking_merged h = h.replay_merge ≡ true
Follows asking_failed h = h.replay_merge ≡ true
Follows polling h = h.subscription ≡ true
Follows crashed h = false ≡ true
Follows _ h = Unit

-- What holds between the accesses of an orderly run, by where the main thread stands.
abbrev pub Safe : Main → Receiver → Handles → Type 0
Safe waiting r h = Follows r h
Safe stopping r h = Follows r h
Safe resetting_merge r h = Follows r h × (h.running ≡ false)
Safe joined r h = (h.running ≡ false) × (r ≡ left)
Safe _ r h = (h.running ≡ false) × (between_turns r ≡ true)

pub receive-running :
    (r : Receiver) (h : Handles) (a : Answers)
    → h.running ≡ false
    → (receive r h a).1.running ≡ false
unfolding receive
receive-running testing h a off = off
receive-running choosing h a off = off
receive-running merging h a off =
    if_both h.replay_merge (λ (x : Receiver × Handles). x.1.running) (rw off refl) off
receive-running asking_merged h a off = off
receive-running asking_failed h a off = off
receive-running (releasing goes_on) h a off = off
receive-running trying_live h a off = off
receive-running polling h a off =
    if_both h.subscription (λ (x : Receiver × Handles). x.1.running) (rw off refl) off
receive-running left h a off = off
receive-running crashed h a off = off

pub receive-Follows :
    (r : Receiver) (h : Handles) (a : Answers)
    → Follows r h
    → Follows (receive r h a).0 (receive r h a).1
unfolding receive
receive-Follows testing h a v = if_holds h.running (λ x. Follows x h) (λ e. tt) (λ e. tt)
receive-Follows choosing h a v = if_holds h.replay_merge (λ x. Follows x h) (λ e. e) (λ e. tt)
receive-Follows merging h a v = rw v refl
receive-Follows asking_merged h a v =
    subst (λ x. Follows x h) (sym (if_false {b = not h.replay_merge} crashed (ap not v)))
      (if_holds a.is_merged (λ x. Follows x h) (λ e. tt) (λ e. v))
receive-Follows asking_failed h a v =
    subst (λ x. Follows x h) (sym (if_false {b = not h.replay_merge} crashed (ap not v)))
      (if_holds a.has_failed (λ x. Follows x h) (λ e. tt) (λ e. tt))
receive-Follows (releasing goes_on) h a v =
    if_holds goes_on (λ x. Follows x (record h { replay_merge = false })) (λ e. tt) (λ e. tt)
receive-Follows trying_live h a v = if_holds h.subscription (λ x. Follows x h) (λ e. e) (λ e. tt)
receive-Follows polling h a v = rw v tt
receive-Follows left h a v = tt
receive-Follows crashed h a v = v

pub receive-between_turns :
    (r : Receiver) (h : Handles) (a : Answers)
    → h.running ≡ false
    → between_turns r ≡ true
    → between_turns (receive r h a).0 ≡ true
unfolding receive
receive-between_turns testing h a off b = rw off refl
receive-between_turns left h a off b = refl
receive-between_turns _ h a off b = cc
