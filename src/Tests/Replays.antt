-- ===== src/Tests/Replays.antt =====
-- A replay of one recording, and the turn to the live stream.
use aeron_archive_replay.Base.{◌≡◌, refl, true, some, List, [], ◌∷◌}
use aeron_archive_replay.AeronSubscriber.Recording.{wait_for_subscription}
use aeron_archive_replay.ReplayToLiveHandler.{
  ReplayToLiveHandler, ReplayAnswers, Polled, replay, new, find_recording, replay_length,
  pre_create_live, with_session, start_replay,
}
use aeron_archive_replay.ReplayToLiveHandler.Following.{
  IsFollowing, poll_all, all_fragments, poll_all-start_replay,
}

abbrev answers : ReplayAnswers
answers = record {
  descriptors = record { recording_id = 4; stop_position = 4096; stream_id = 10 } ∷ [];
  lists = true;
  adds_replay = true;
  found_replay = true ∷ [];
  starts = λ recording_id start_position length. some 9;
  adds_live = true;
  found_live = true ∷ [];
}

abbrev replaying_4 : ReplayToLiveHandler
replaying_4 = record new {
  replay_subscription = true;
  live_subscription = true;
  mode = replay;
  replay_session_id = 9;
  last_replay_position = 1024;
  live_start_position = 4096;
}

starts_4 : start_replay new 10 1024 answers ≡ some (true, replaying_4)
unfolding start_replay find_recording replay_length with_session pre_create_live
    wait_for_subscription
starts_4 = refl

abbrev polls : List Polled
polls =
    record {
      fragments = record { bytes = 1 ∷ []; position = 2048 } ∷ [];
      images = 1;
      images_later = 1;
    }
    ∷ record { fragments = []; images = 0; images_later = 0 }
    ∷ record {
      fragments = record { bytes = 2 ∷ []; position = 4096 } ∷ [];
      images = 0;
      images_later = 0;
    }
    ∷ []

poll_all-start_replay_example :
    ((poll_all replaying_4 polls).0 ≡ all_fragments polls)
    × IsFollowing (poll_all replaying_4 polls).1
poll_all-start_replay_example = poll_all-start_replay new 10 1024 answers polls starts_4
