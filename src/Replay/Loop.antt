-- ===== src/Replay/Loop.antt =====
-- The rounds of `--loop` and `main` of py-processor/dlq_replay.py. The sleep between the rounds and
-- the printed lines are left out.
pub mod Repeats
use webspider.Prelude.{ℕ, zero, suc, ◌==◌, Bool, not, ◌&&◌, ◌||◌, if◌then◌else◌}
use webspider.Config.{Config}
use webspider.Services.{Services, Call}
use webspider.Services.Run.{M, pure, issue, ◌>>=◌, ◌>>◌}
use webspider.Pipeline.{Libraries}
use webspider.Replay.{replay_round}

-- The arguments of the command line.
pub record Arguments : Type 0 where
  pub limit : ℕ
  pub dry_run : Bool
  pub delete : Bool
  pub loop : Bool
  pub batch : ℕ
  pub max_rounds : ℕ

-- Whether another round follows: something was replayed, and entries remain.
unfoldable pub goes_on : Bool → ℕ → ℕ → Bool
goes_on dry_run replayed remaining = not (replayed == 0 || dry_run) && not (remaining == 0)

module _ (sv : Services) (cfg : Config) (lib : Libraries) where
  unfoldable pub dlq_length : M sv ℕ
  dlq_length = issue (Call.xlen cfg.dlq_stream) (sv.xlen cfg.dlq_stream)

  -- The loop with the given number of rounds left.
  unfoldable pub replay_loop : ℕ → Bool → Bool → ℕ → M sv (Unit {0})
  unfolding replay_round dlq_length goes_on
  replay_loop batch delete dry_run zero = pure tt
  replay_loop batch delete dry_run (suc rounds) = do
    (replayed, skipped) ← replay_round sv cfg lib batch delete dry_run
    remaining ← dlq_length
    if goes_on dry_run replayed remaining then replay_loop batch delete dry_run rounds else pure tt

  unfoldable pub replay_main : Arguments → M sv (Unit {0})
  unfolding replay_loop
  replay_main args = do
    _ ← dlq_length
    if args.loop
        then (do
          replay_loop args.batch args.delete args.dry_run args.max_rounds
          _ ← dlq_length
          pure tt)
        else (do _ ← replay_round sv cfg lib args.limit args.delete args.dry_run; pure tt)
