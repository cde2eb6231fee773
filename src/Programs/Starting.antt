-- ===== src/Programs/Starting.antt =====
-- A subscriber whose Aeron answers runs.
use aeron_archive_replay.Base.{
  ℕ, ◌≡◌, ◌⊎◌, inl, inr, refl, ap, sym, ◌∙◌, subst, Bool, true, false, not, Option, none, some,
  List, slt, Bool-cases, if_true, if_false, arith,
}
use aeron_archive_replay.CheckpointManager
use aeron_archive_replay.AeronSubscriber.{
  AeronSubscriber, SubscriberConfig, new, initialize, initialize_zero_copy, enable_checkpoint,
}
use aeron_archive_replay.AeronSubscriber.Recording.{
  Archive, MergeAnswers, wait_for_subscription, start_live, start_replay_merge,
  start_replay_merge_auto, channel_of, find_latest_recording,
}
use aeron_archive_replay.Programs.{Outcome, continues}
use aeron_archive_replay.Programs.SubscriberMain.{
  SubscriberOptions, or_fail, or_live, start_position, checkpoint_position, start_receiving, launch,
}

-- The subscriber has what `run` works with, but for the subscription.
pub record IsReady (c : SubscriberConfig) (s : AeronSubscriber) : Type 0 where
  pub config : s.config ≡ c
  pub running : s.running ≡ true
  pub buffer_pool : s.buffer_pool ≡ true
  pub message_queue : s.message_queue ≡ true

-- Aeron's answers to a replay come to an end: it throws, or it finds the subscription.
abbrev pub IsAnswered : MergeAnswers → Type 0
IsAnswered m = (m.adds ≡ false) ⊎ (wait_for_subscription m.found ≡ true)

-- An answered start, from a ready subscriber: the answer true comes with a subscription.
abbrev Starts : SubscriberConfig → Option (Bool × AeronSubscriber) → Type 0
Starts c answer =
    (success : Bool) × (s : AeronSubscriber) × (answer ≡ some (success, s))
    × IsReady c s
    × (success ≡ true → s.subscription ≡ true)

refused-Starts :
    {c : SubscriberConfig} (s : AeronSubscriber) → IsReady c s → Starts c (some (false, s))
refused-Starts s r = (false, s, refl, r, λ e. absurd (ground arith))

still :
    {c : SubscriberConfig} (s : AeronSubscriber) (merge : Bool)
    → IsReady c s
    → IsReady c (record s { subscription = true; replay_merge = merge })
still s merge r = record {
  config = r.config;
  running = r.running;
  buffer_pool = r.buffer_pool;
  message_queue = r.message_queue;
}

module _ {c : SubscriberConfig} (s : AeronSubscriber) (m : MergeAnswers) (ready : IsReady c s)
    (answered : IsAnswered m) where
  start_replay_merge-Starts : (id position : ℕ) → Starts c (start_replay_merge s m id position)
  unfolding start_replay_merge
  start_replay_merge-Starts id position = elim (Bool-cases m.adds) [
    | inr e ↦ subst (Starts c) (sym (if_true _ (ap not e))) (refused-Starts s ready)
    | inl e ↦
        let found : wait_for_subscription m.found ≡ true = elim answered [
          | inl n ↦ absurd (let k = sym n ∙ e in ground arith)
          | inr f ↦ f
        ] in
        subst (Starts c) (sym (if_false _ (ap not e) ∙ if_false _ (ap not found)))
          (elim (Bool-cases m.builds) [
            | inr b ↦
                subst (Starts c) (sym (if_true _ (ap not b)))
                  (refused-Starts (record s { subscription = true }) (still s s.replay_merge ready))
            | inl b ↦ subst (Starts c) (sym (if_false _ (ap not b))) (
              true,
              record s { subscription = true; replay_merge = true },
              refl,
              still s true ready,
              λ k. refl,
            )
          ])
  ]

  start_replay_merge_auto-Starts :
      (a : Archive) (position : ℕ) → Starts c (start_replay_merge_auto a s m position)
  unfolding start_replay_merge_auto
  start_replay_merge_auto-Starts a position =
      let id =
        find_latest_recording a (channel_of s.config.subscription_channel)
          s.config.subscription_stream_id in
      elim (Bool-cases (slt id 0)) [
        | inl e ↦ subst (Starts c) (sym (if_true _ e)) (refused-Starts s ready)
        | inr e ↦ subst (Starts c) (sym (if_false _ e)) (start_replay_merge-Starts id position)
      ]

-- The program has come to its loop.
abbrev Runs : SubscriberConfig → Option (Outcome AeronSubscriber) → Type 0
Runs c result =
    (s : AeronSubscriber) × (result ≡ some (continues s)) × IsReady c s × (s.subscription ≡ true)

module _ {c : SubscriberConfig} (live : List Bool) (found : wait_for_subscription live ≡ true) where
  live-Runs : (s : AeronSubscriber) → IsReady c s → Runs c (or_fail (start_live s live))
  unfolding start_live or_fail
  live-Runs s ready = (
    record s { subscription = true },
    ap or_fail (if_true none found),
    still s s.replay_merge ready,
    refl,
  )

  or_live-Runs :
      (answer : Option (Bool × AeronSubscriber)) → Starts c answer → Runs c (or_live live answer)
  unfolding or_live
  or_live-Runs answer k = subst (λ o. Runs c (or_live live o)) (sym k.2) (by_success k.0 k.4)
    where
      by_success :
          (success : Bool)
          → (success ≡ true → k.1.subscription ≡ true)
          → Runs c (or_live live (some (success, k.1)))
      by_success true subscribed = (k.1, refl, k.3, subscribed refl)
      by_success false subscribed = live-Runs k.1 k.3

  -- Where the client connects, the live subscription is found in the end, and that of a replay is
  -- found in the end or is not added, the subscriber's program comes to its loop, with a replay or
  -- without: with its configuration, a pool, a queue and a subscription, and running.
  pub launch-Runs :
      (files : CheckpointManager.Files) (a : Archive) (m : MergeAnswers) (o : SubscriberOptions)
      → IsAnswered m
      → (s : AeronSubscriber) × (launch true files a m live o c ≡ some (continues s))
        × IsReady c s
        × (s.subscription ≡ true)
  unfolding launch initialize initialize_zero_copy enable_checkpoint start_receiving new
  launch-Runs files a m o answered = elim (Bool-cases o.replay_auto_mode) [
    | inl e ↦ subst (Runs c) (sym (if_true _ e)) (
        or_live-Runs _ (
          start_replay_merge_auto-Starts s m ready answered a
            (start_position o (checkpoint_position s))))
    | inr e ↦ subst (Runs c) (sym (if_false _ e)) (live-Runs s ready)
  ]
    where
      s : AeronSubscriber
      s =
          enable_checkpoint
            (record (new c) {
              archive = true;
              running = true;
              buffer_pool = true;
              message_queue = true;
            })
            files

      ready : IsReady c s
      ready = record { config = refl; running = refl; buffer_pool = refl; message_queue = refl }
