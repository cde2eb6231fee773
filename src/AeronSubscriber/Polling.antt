-- ===== src/AeronSubscriber/Polling.antt =====
-- `run`: the loop of the subscriber's thread.
use aeron_archive_replay.Base.{ℕ, Bool, true, false, not, ◌&&◌, List, [], ◌∷◌, if◌then◌else◌}
use aeron_archive_replay.AeronSubscriber.{System}
use aeron_archive_replay.AeronSubscriber.Recording.{Archive}
use aeron_archive_replay.AeronSubscriber.FastPath.{Fragment, handle_message}

-- What one turn of the loop meets: the fragments that the poll hands over, and what the `ReplayMerge`
-- says afterwards.
pub record Turn : Type 0 where
  pub fragments : List Fragment
  pub is_merged : Bool
  pub has_failed : Bool

module _ (pool_size queue_size : ℕ) (archive : Archive) where
  unfoldable pub handle_all : System → List Fragment → System
  unfolding handle_message
  handle_all s [] = s
  handle_all s (f ∷ fs) = handle_all (handle_message pool_size queue_size archive s f) fs

  -- One turn, and whether the loop goes on after it.
  unfoldable pub poll_once : System → Turn → Bool × System
  unfolding handle_all
  poll_once s t =
      let polled = handle_all s t.fragments in
      let released = record polled {
        subscriber = record polled.subscriber { replay_merge = false };
      } in
      if s.subscriber.replay_merge
      then (if t.is_merged
          then (true, released)
          else if t.has_failed
          then (false, released)
          else (true, polled))
      else if s.subscriber.subscription
      then (true, polled)
      else (true, s)

  -- The loop, until it ends or the turns are used up.
  unfoldable pub loop : System → List Turn → System
  unfolding poll_once
  loop s [] = s
  loop s (t ∷ turns) =
      let (more, next) = poll_once s t in
      let rest = loop next turns in
      if not s.subscriber.running then s else if more then rest else next

  unfoldable pub run : System → List Turn → System
  unfolding loop
  run s turns =
      if not s.subscriber.subscription && not s.subscriber.replay_merge then s else loop s turns
