-- ===== src/AeronSubscriber/Shutdown/Safety.antt =====
-- What an orderly shutdown keeps, and the end of the loop.
use aeron_archive_replay.Base.{
  ℕ, suc, ◌≤◌, ◌≡◌, ◌≢◌, refl, Bool, true, false, not, and_both, List, [], ◌∷◌, if◌then◌else◌,
  if_holds, subst, sym, arith,
}
use aeron_archive_replay.AeronSubscriber.Shutdown.{
  Handles, Receiver, testing, choosing, merging, asking_merged, asking_failed, releasing,
  trying_live, polling, left, crashed, Main, waiting, stopping, resetting_merge,
  resetting_subscription, resetting_archive, resetting_aeron, joining, joined, System, Answers,
  Turn, receiver_turn, main_turn, receive, has_left, proceed, step, run, start,
}
use aeron_archive_replay.AeronSubscriber.Shutdown.Order.{
  in_order, orderly, Follows, Safe, receive-running, receive-Follows, receive-between_turns,
}

received-left : (r : Receiver) (h : Handles) (a : Answers) → r ≡ left → (receive r h a).0 ≡ left
unfolding receive
received-left r h a e = subst (λ r. (receive r h a).0 ≡ left) (sym e) refl

received-Safe :
    (m : Main) (r : Receiver) (h : Handles) (a : Answers)
    → Safe m r h
    → Safe m (receive r h a).0 (receive r h a).1
received-Safe waiting r h a v = receive-Follows r h a v
received-Safe stopping r h a v = receive-Follows r h a v
received-Safe resetting_merge r h a v = (receive-Follows r h a v.0, receive-running r h a v.1)
received-Safe joined r h a v = (receive-running r h a v.0, received-left r h a v.1)
received-Safe _ r h a v = (receive-running r h a v.0, receive-between_turns r h a v.0 v.1)

Follows-stop : (r : Receiver) (h : Handles) → Follows r h → Follows r (record h { running = false })
Follows-stop merging h v = v
Follows-stop _ h v = v

joining-Safe :
    (r : Receiver) (h : Handles)
    → Safe joining r h
    → Safe (if has_left r then joined else joining) r h
joining-Safe left h v = (v.0, refl)
joining-Safe _ h v = v

proceeded-Safe :
    (m : Main) (r : Receiver) (h : Handles) (signal : Bool)
    → in_order m r (main_turn signal) ≡ true
    → Safe m r h
    → Safe (proceed m r h signal).0 r (proceed m r h signal).1
unfolding proceed in_order
proceeded-Safe waiting r h signal o v = if_holds signal (λ m. Safe m r h) (λ e. v) (λ e. v)
proceeded-Safe stopping r h signal o v = (Follows-stop r h v, refl)
proceeded-Safe resetting_merge r h signal o v = (v.1, o)
proceeded-Safe joining r h signal o v = joining-Safe r h v
proceeded-Safe resetting_subscription r h signal o v = v
proceeded-Safe resetting_archive r h signal o v = v
proceeded-Safe resetting_aeron r h signal o v = v
proceeded-Safe joined r h signal o v = v

SafeSystem : System → Type 0
SafeSystem s = Safe s.main s.receiver s.handles

run-Safe :
    (turns : List Turn) (s : System)
    → SafeSystem s
    → orderly s turns ≡ true
    → SafeSystem (run s turns)
unfolding run orderly step SafeSystem
run-Safe [] s v o = v
run-Safe (receiver_turn a ∷ turns) s v o =
    run-Safe turns (step s (receiver_turn a)) (received-Safe s.main s.receiver s.handles a v)
      (and_both (in_order s.main s.receiver (receiver_turn a)) _ o).1
run-Safe (main_turn signal ∷ turns) s v o =
    let both = and_both (in_order s.main s.receiver (main_turn signal)) _ o in
    run-Safe turns (step s (main_turn signal))
      (proceeded-Safe s.main s.receiver s.handles signal both.0 v) both.1

Safe-alive : (m : Main) (r : Receiver) (h : Handles) → Safe m r h → r ≢ crashed
Safe-alive waiting crashed h v e = cc
Safe-alive stopping crashed h v e = cc
Safe-alive resetting_merge crashed h v e = cc
Safe-alive _ r h v e = cc

-- Where the resets of `shutdown` begin only while the receiving thread is between two turns of its
-- loop or has left it, that thread never follows a null pointer, whatever the order of the other
-- accesses.
pub orderly-alive :
    (h : Handles) (turns : List Turn)
    → orderly (start h) turns ≡ true
    → (run (start h) turns).receiver ≢ crashed
unfolding SafeSystem
orderly-alive h turns o = Safe-alive _ _ _ (run-Safe turns (start h) tt o)

-- How many accesses at most are left until the loop looks at the flag and ends.
unfoldable pub distance : Receiver → ℕ
distance choosing = 6
distance merging = 5
distance asking_merged = 4
distance asking_failed = 3
distance (releasing goes_on) = 2
distance trying_live = 3
distance polling = 2
distance testing = 1
distance _ = 0

unfoldable pub receiver_turns : List Turn → ℕ
receiver_turns [] = 0
receiver_turns (receiver_turn a ∷ turns) = suc (receiver_turns turns)
receiver_turns (main_turn signal ∷ turns) = receiver_turns turns

abbrev pub has_ended : Receiver → Bool
has_ended left = true
has_ended crashed = true
has_ended _ = false

receive-distance :
    (r : Receiver) (h : Handles) (a : Answers) (n : ℕ)
    → h.running ≡ false
    → distance r ≤ suc n
    → distance (receive r h a).0 ≤ n
unfolding receive distance
receive-distance testing h a n off d = rw off (omega arith)
receive-distance choosing h a n off d =
    if_holds h.replay_merge (λ x. distance x ≤ n) (λ e. omega arith) (λ e. omega arith)
receive-distance merging h a n off d =
    if_holds h.replay_merge (λ (x : Receiver × Handles). distance x.0 ≤ n) (λ e. omega arith)
      (λ e. omega arith)
receive-distance asking_merged h a n off d =
    if_holds (not h.replay_merge) (λ x. distance x ≤ n) (λ e. omega arith)
      (λ e. if_holds a.is_merged (λ x. distance x ≤ n) (λ k. omega arith) (λ k. omega arith))
receive-distance asking_failed h a n off d =
    if_holds (not h.replay_merge) (λ x. distance x ≤ n) (λ e. omega arith)
      (λ e. if_holds a.has_failed (λ x. distance x ≤ n) (λ k. omega arith) (λ k. omega arith))
receive-distance (releasing goes_on) h a n off d =
    if_holds goes_on (λ x. distance x ≤ n) (λ e. omega arith) (λ e. omega arith)
receive-distance trying_live h a n off d =
    if_holds h.subscription (λ x. distance x ≤ n) (λ e. omega arith) (λ e. omega arith)
receive-distance polling h a n off d =
    if_holds h.subscription (λ (x : Receiver × Handles). distance x.0 ≤ n) (λ e. omega arith)
      (λ e. omega arith)
receive-distance _ h a n off d = omega arith

proceed-running :
    (m : Main) (r : Receiver) (h : Handles) (signal : Bool)
    → h.running ≡ false
    → (proceed m r h signal).1.running ≡ false
unfolding proceed
proceed-running waiting r h signal off = off
proceed-running stopping r h signal off = refl
proceed-running _ r h signal off = off

ended : (r : Receiver) → distance r ≤ 0 → has_ended r ≡ true
unfolding distance
ended left d = refl
ended crashed d = refl
ended _ d = absurd (omega arith)

-- Once the flag is cleared, the receiving thread has left its loop, or followed a null pointer,
-- after as many accesses of its own as it is away from the end, six at most, whatever the main
-- thread does meanwhile.
pub run-has_ended :
    (turns : List Turn) (s : System)
    → s.handles.running ≡ false
    → distance s.receiver ≤ receiver_turns turns
    → has_ended (run s turns).receiver ≡ true
unfolding run step receiver_turns
run-has_ended [] s off d = ended s.receiver d
run-has_ended (receiver_turn a ∷ turns) s off d =
    run-has_ended turns (step s (receiver_turn a)) (receive-running s.receiver s.handles a off)
      (receive-distance s.receiver s.handles a (receiver_turns turns) off d)
run-has_ended (main_turn signal ∷ turns) s off d =
    run-has_ended turns (step s (main_turn signal))
      (proceed-running s.main s.receiver s.handles signal off) d
