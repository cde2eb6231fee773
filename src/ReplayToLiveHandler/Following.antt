-- ===== src/ReplayToLiveHandler/Following.antt =====
-- A handler that has started to replay, under any polls.
use aeron_archive_replay.Base.{
  ℕ, ◌≡◌, refl, ap, ap₂, sym, ◌∙◌, subst, Bool, true, false, not, ◌&&◌, List, [], ◌∷◌, ◌++◌, Option,
  none, some, minus_one, ◌||◌, length, ◌==◌, if◌then◌else◌, if_holds, if_true, if_false, arith,
}
use aeron_archive_replay.AeronSubscriber.Recording.{wait_for_subscription}
use aeron_archive_replay.ReplayToLiveHandler.{
  replay, live, ReplayToLiveHandler, Fragment, Polled, is_replay, is_live, last_position,
  check_transition_to_live, poll, ReplayAnswers, find_recording, replay_length, pre_create_live,
  with_session, start_replay,
}

-- The handler replays with the live subscription at hand, or it follows the live stream.
pub data IsFollowing (h : ReplayToLiveHandler) : Type 0 where
  replaying :
      h.mode ≡ replay → h.replay_subscription ≡ true → h.live_subscription ≡ true → IsFollowing h
  following :
      h.mode ≡ live → h.replay_subscription ≡ false → h.live_subscription ≡ true → IsFollowing h

-- The messages of some polls, and the state after them.
unfoldable pub poll_all : ReplayToLiveHandler → List Polled → List Fragment × ReplayToLiveHandler
poll_all h [] = ([], h)
poll_all h (p ∷ polls) =
    let (fragments, read, next) = poll h p in
    let (more, last) = poll_all next polls in (fragments ++ more, last)

abbrev pub all_fragments : List Polled → List Fragment
all_fragments [] = []
all_fragments (p ∷ polls) = p.fragments ++ all_fragments polls

-- Once live, it stays live.
abbrev pub StaysLive : (h next : ReplayToLiveHandler) → Type 0
StaysLive h next = h.mode ≡ live → next.mode ≡ live

-- What one poll does.
record IsPolled (h : ReplayToLiveHandler) (p : Polled)
    (result : List Fragment × ℕ × ReplayToLiveHandler) : Type 0 where
  all : result.0 ≡ p.fragments
  still : IsFollowing result.2
  stays : StaysLive h result.2

check_transition_to_live-IsFollowing :
    (h : ReplayToLiveHandler) (images images_later : ℕ)
    → h.mode ≡ replay
    → h.replay_subscription ≡ true
    → h.live_subscription ≡ true
    → IsFollowing (check_transition_to_live h images images_later).1
unfolding check_transition_to_live
check_transition_to_live-IsFollowing h images images_later m r l =
    let P = λ (o : Bool × ReplayToLiveHandler). IsFollowing o.1 in
    let same : IsFollowing h = replaying m r l in
    let moved = record h { mode = live; replay_subscription = false } in
    let over : IsFollowing moved = following refl refl l in
    let once = if images_later == 0 then (true, moved) else (false, h) in
    let twice = if h.replay_subscription && images == 0 then once else (false, h) in
    if_holds (not (is_replay h.mode)) {x = (false, h)} {y = twice} P (λ t. same)
      (λ t.
        if_holds (h.replay_subscription && images == 0) {x = once} {y = (false, h)} P
          (λ u.
            if_holds (images_later == 0) {x = (true, moved)} {y = (false, h)} P (λ v. over)
              (λ v. same))
          (λ u. same))

poll-IsPolled : (h : ReplayToLiveHandler) (p : Polled) → IsFollowing h → IsPolled h p (poll h p)
unfolding poll
poll-IsPolled h p (replaying m r l) =
    let P = IsPolled h p in
    let moved = record h {
      last_replay_position = last_position h.last_replay_position p.fragments;
    } in
    let checked = (check_transition_to_live moved p.images p.images_later).1 in
    let reached = if length p.fragments == 0 then checked else moved in
    subst P (sym (if_true _ (ap₂ ◌&&◌ (ap is_replay m) r))) (record {
      all = refl;
      still =
          if_holds (length p.fragments == 0) {x = checked} {y = moved} IsFollowing
            (λ t. check_transition_to_live-IsFollowing moved p.images p.images_later m r l)
            (λ t. replaying m r l);
      stays = λ e. absurd (let clash = ap is_replay (sym m ∙ e) in ground arith);
    })
poll-IsPolled h p (following m r l) =
    subst (IsPolled h p)
      (sym (
        if_false _ (ap (λ b. b && h.replay_subscription) (ap is_replay m))
        ∙ if_true _ (ap₂ ◌&&◌ (ap is_live m) l)))
      (record { all = refl; still = following m r l; stays = λ e. e })

-- A handler that replays with the live subscription at hand, or follows the live stream, hands on all
-- fragments of any polls in their order, is again in one of these two states, and is live if it was.
pub poll_all-IsFollowing :
    (polls : List Polled) (h : ReplayToLiveHandler)
    → IsFollowing h
    → let result = poll_all h polls in
      (result.0 ≡ all_fragments polls)
      × IsFollowing result.1
      × (h.mode ≡ live → result.1.mode ≡ live)
unfolding poll_all
poll_all-IsFollowing [] h i = (refl, i, λ e. e)
poll_all-IsFollowing (p ∷ polls) h i =
    let once = poll-IsPolled h p i in
    let rest = poll_all-IsFollowing polls (poll h p).2 once.still in
    (ap₂ ◌++◌ once.all rest.0, rest.1, λ e. rest.2 (once.stays e))

-- A start that answers true leaves a handler that follows.
abbrev Follows : Option (Bool × ReplayToLiveHandler) → Type 0
Follows answer = (n : ReplayToLiveHandler) → answer ≡ some (true, n) → IsFollowing n

Follows-refused : (h : ReplayToLiveHandler) → Follows (some (false, h))
Follows-refused h n e = absurd (ground arith)

Follows-waiting : Follows none
Follows-waiting n e = absurd (ground arith)

Follows-done : (h : ReplayToLiveHandler) → IsFollowing h → Follows (some (true, h))
Follows-done h i n e = subst IsFollowing (ap (λ o. elim o [ none ↦ h | some q ↦ q.1 ]) e) i

pre_create_live-Follows :
    (h : ReplayToLiveHandler) (a : ReplayAnswers) (stop_position : ℕ)
    → h.mode ≡ replay
    → h.replay_subscription ≡ true
    → Follows (pre_create_live h a stop_position)
unfolding pre_create_live
pre_create_live-Follows h a stop_position m r =
    let done = record h { live_subscription = true; live_start_position = stop_position } in
    let i : IsFollowing done = replaying m r refl in
    let waited = if wait_for_subscription a.found_live then some (true, done) else none in
    if_holds (not a.adds_live) {x = some (false, h)} {y = waited} Follows (λ t. Follows-refused h)
      (λ t.
        if_holds (wait_for_subscription a.found_live) {x = some (true, done)} {y = none} Follows
          (λ u. Follows-done done i) (λ u. Follows-waiting))

with_session-Follows :
    (h : ReplayToLiveHandler) (a : ReplayAnswers) (start_position stop_position : ℕ)
    (session : Option ℕ)
    → h.mode ≡ replay
    → h.replay_subscription ≡ true
    → Follows (with_session h a start_position stop_position session)
unfolding with_session
with_session-Follows h a start_position stop_position none m r = Follows-refused h
with_session-Follows h a start_position stop_position (some id) m r =
    pre_create_live-Follows
      (record h { replay_session_id = id; last_replay_position = start_position }) a stop_position m
      r

start_replay-Follows :
    (h : ReplayToLiveHandler) (stream_id start_position : ℕ) (a : ReplayAnswers)
    → Follows (start_replay h stream_id start_position a)
unfolding start_replay
start_replay-Follows h stream_id start_position a =
    let replaying_now = record h { mode = replay } in
    let found = find_recording stream_id a.descriptors (minus_one, minus_one) in
    let started =
      with_session (record replaying_now { replay_subscription = true }) a start_position found.1
        (a.starts found.0 start_position (replay_length found.1 start_position)) in
    let waited = if wait_for_subscription a.found_replay then started else none in
    if_holds (not a.lists || found.0 == minus_one || not a.adds_replay)
      {x = some (false, replaying_now)} {y = waited} Follows (λ t. Follows-refused replaying_now)
      (λ t.
        if_holds (wait_for_subscription a.found_replay) {x = started} {y = none} Follows
          (λ u. with_session-Follows _ a start_position found.1 _ refl refl) (λ u. Follows-waiting))

-- After `startReplay` has returned true, under any polls: all their fragments are handed on, in
-- their order, and the handler replays with the live subscription at hand, or it is live without
-- the subscription of the replay.
pub poll_all-start_replay :
    (h : ReplayToLiveHandler) (stream_id start_position : ℕ) (a : ReplayAnswers)
    (polls : List Polled) {n : ReplayToLiveHandler}
    → start_replay h stream_id start_position a ≡ some (true, n)
    → ((poll_all n polls).0 ≡ all_fragments polls) × IsFollowing (poll_all n polls).1
poll_all-start_replay h stream_id start_position a polls {n} e =
    let k = poll_all-IsFollowing polls n (start_replay-Follows h stream_id start_position a n e) in
    (k.0, k.1)
