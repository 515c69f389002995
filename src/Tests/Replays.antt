-- ===== src/Tests/Replays.antt =====
-- A round of the replay at a concrete dead-letter stream.
use webspider.Services.Run.{State, issue, lift, pure, ◌>>=◌, ◌>>◌}
use webspider.Prelude.{arith, codes, [], All, ◌≡◌, refl, true, false, List, ◌∷◌, length, text_eq}
use webspider.Outcome.{ok}
use webspider.Services.{Services, Call}
use webspider.Replay.Loop.{replay_loop}
use webspider.Replay.Loop.Repeats.{Standing, Replayable, times, replay_loop-times}
use webspider.Replay.{Entry, replay_round, article_of, entry_url}
use webspider.Replay.Rounds.{replay_calls, replay_round-calls}
use webspider.Tests.World.{memory, small, libraries, up}

one_replayed : (replay_round memory small libraries 0 true false up).result ≡ ok (1, 1)
unfolding replay_round ◌>>=◌ issue text_eq lift ◌>>◌ pure
one_replayed = refl

-- A dry run counts no entry as replayed, only the skipped ones.
dry_counts : (replay_round memory small libraries 0 true true up).result ≡ ok (0, 1)
unfolding replay_round ◌>>=◌ issue text_eq lift pure
dry_counts = refl

replay_round-calls_example :
    (entries : List Entry) × ((memory.xrange small.dlq_stream 0 up.world).0 ≡ ok entries)
    × ((replay_round memory small libraries 0 true false up).calls
        ≡ Call.xrange small.dlq_stream 0 ∷ replay_calls small true entries)
    × (2 ≡ length entries)
replay_round-calls_example = replay_round-calls memory small libraries 0 true up (1, 1) one_replayed

-- A dead-letter stream with one entry, which stays.
abbrev kept_entry : List Entry
kept_entry =
    (codes "5-0", (codes "url", codes "https://a.example/2") ∷ (codes "article", codes "2") ∷ [])
    ∷ []

abbrev keeping : Services
keeping = record memory { xrange = λ stream n w. (ok kept_entry, w); xlen = λ stream w. (ok 1, w) }

keeping-Standing : Standing keeping small 300 kept_entry
keeping-Standing = record { read = λ w. refl; more = 0; left = λ w. refl; added = λ fields w. refl }

kept_entry-Replayable : All (Replayable libraries) kept_entry
unfolding article_of text_eq entry_url
kept_entry-Replayable = ((codes "2", codes "https://a.example/2", refl, refl), tt)

abbrev started : State keeping
started = record { world = record { sets = []; db_up = true }; seen = [] }

replay_loop-times_example :
    (replay_loop keeping small libraries 300 false false 40 started).calls
    ≡ times keeping small libraries 300 kept_entry keeping-Standing 40
replay_loop-times_example =
    replay_loop-times keeping small libraries 300 kept_entry keeping-Standing 40 started
      (omega arith) kept_entry-Replayable
