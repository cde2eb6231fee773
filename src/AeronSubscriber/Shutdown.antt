-- ===== src/AeronSubscriber/Shutdown.antt =====
-- `run` on the subscriber's thread while the program's main thread waits for a signal, calls
-- `shutdown` and joins that thread, one access of a shared member at a time. A poll is one access:
-- that a reset frees an object within a poll is left out.
pub mod Order
pub mod Safety
use aeron_archive_replay.Base.{Bool, true, false, not, ◌&&◌, List, [], ◌∷◌, if◌then◌else◌}

-- The members that both threads use; a pointer is whether it is not null.
pub record Handles : Type 0 where
  pub running : Bool
  pub replay_merge : Bool
  pub subscription : Bool
  pub archive : Bool
  pub aeron : Bool

-- Where the subscriber's thread stands in the loop of `run`.
pub data Receiver : Type 0 where
  testing : Receiver  -- before `running_` is read
  choosing : Receiver  -- before the test of `replay_merge_`
  merging : Receiver  -- before `replay_merge_->poll`
  asking_merged : Receiver  -- before `replay_merge_->isMerged`
  asking_failed : Receiver  -- before `replay_merge_->hasFailed`
  releasing : (goes_on : Bool) → Receiver  -- before `replay_merge_.reset()`
  trying_live : Receiver  -- before the test of `subscription_`
  polling : Receiver  -- before `subscription_->poll`
  left : Receiver
  crashed : Receiver  -- a null pointer was followed

-- Where the main thread stands.
pub data Main : Type 0 where
  waiting : Main  -- for the signal
  stopping : Main  -- in `shutdown`, before `running_` is cleared
  resetting_merge : Main
  resetting_subscription : Main
  resetting_archive : Main
  resetting_aeron : Main
  joining : Main
  joined : Main

pub record System : Type 0 where
  pub handles : Handles
  pub receiver : Receiver
  pub main : Main

-- What the receiver's next access is told: whether a message met a subscriber without its pool, which
-- stops the loop, and what the `ReplayMerge` answers.
pub record Answers : Type 0 where
  pub fatal : Bool
  pub is_merged : Bool
  pub has_failed : Bool

pub data Turn : Type 0 where
  receiver_turn : Answers → Turn
  main_turn : (signal : Bool) → Turn

abbrev pub polled : Handles → Answers → Handles
polled h a = record h { running = h.running && not a.fatal }

unfoldable pub receive : Receiver → Handles → Answers → Receiver × Handles
receive testing h a = (if h.running then choosing else left, h)
receive choosing h a = (if h.replay_merge then merging else trying_live, h)
receive merging h a = if h.replay_merge then (asking_merged, polled h a) else (crashed, h)
receive asking_merged h a = (
  if not h.replay_merge then crashed else if a.is_merged then releasing true else asking_failed,
  h,
)
receive asking_failed h a =
    (if not h.replay_merge then crashed else if a.has_failed then releasing false else testing, h)
receive (releasing goes_on) h a =
    (if goes_on then testing else left, record h { replay_merge = false })
receive trying_live h a = (if h.subscription then polling else testing, h)
receive polling h a = if h.subscription then (testing, polled h a) else (crashed, h)
receive left h a = (left, h)
receive crashed h a = (crashed, h)

-- The join goes on only where the receiver has left.
abbrev pub has_left : Receiver → Bool
has_left left = true
has_left _ = false

unfoldable pub proceed : Main → Receiver → Handles → Bool → Main × Handles
proceed waiting r h signal = (if signal then stopping else waiting, h)
proceed stopping r h signal = (resetting_merge, record h { running = false })
proceed resetting_merge r h signal = (resetting_subscription, record h { replay_merge = false })
proceed resetting_subscription r h signal = (resetting_archive, record h { subscription = false })
proceed resetting_archive r h signal = (resetting_aeron, record h { archive = false })
proceed resetting_aeron r h signal = (joining, record h { aeron = false })
proceed joining r h signal = (if has_left r then joined else joining, h)
proceed joined r h signal = (joined, h)

unfoldable pub step : System → Turn → System
unfolding receive proceed
step s (receiver_turn a) =
    let r = receive s.receiver s.handles a in record s { receiver = r.0; handles = r.1 }
step s (main_turn signal) =
    let m = proceed s.main s.receiver s.handles signal in record s { main = m.0; handles = m.1 }

-- Any interleaving of the two threads, until the process dies.
unfoldable pub run : System → List Turn → System
unfolding step
run s [] = s
run s (t ∷ turns) = run (step s t) turns

abbrev pub start : Handles → System
start h = record { handles = h; receiver = testing; main = waiting }
