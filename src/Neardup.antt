-- ===== src/Neardup.antt =====
-- py-processor/neardup.py: the fingerprints of stored articles, in one Redis set for each value of
-- each band, and the near-duplicate test against them.
pub mod Laws
pub mod Recall
pub mod Sound
use webspider.Prelude.{
  ℕ, zero, suc, ◌+◌, ◌%◌, ◌<◌, Bool, true, false, List, [], ◌∷◌, ◌++◌, Option, none, some, Text,
  codes, leb, ltb, ◌==◌, if◌then◌else◌,
}
use webspider.Outcome.{Outcome, ok, raise}
use webspider.Config.{Config}
use webspider.Str.{decimal, parse_int}
use webspider.Dedupe.{Hashing, simhash, bucket_keys, hamming_int}
use webspider.Services.{Services, Command, sadd, expire, Call}
use webspider.Services.Run.{M, pure, lift, issue, ◌>>=◌, ◌>>◌}

-- `_band_key`
unfoldable pub band_key : ℕ → ℕ → Text
band_key i bv = codes "simhash:band:" ++ (decimal i ++ (codes ":" ++ decimal bv))

unfoldable pub is_close : Config → ℕ → Text → Bool
is_close cfg chash raw = elim (parse_int raw) [
  | none ↦ false
  | some existing ↦ leb (hamming_int chash existing) cfg.simhash_hamming
]

-- The loop over the members of one set.
unfoldable pub any_close : Config → ℕ → List Text → Bool
unfolding is_close
any_close cfg chash [] = false
any_close cfg chash (raw ∷ members) =
    if is_close cfg chash raw then true else any_close cfg chash members

-- What `index` and `warm_from_db` queue for one fingerprint, from band `i` on.
unfoldable pub index_commands : Config → ℕ → ℕ → List ℕ → List Command
index_commands cfg chash i [] = []
index_commands cfg chash i (bv ∷ bvs) =
    let rest = index_commands cfg chash (suc i) bvs in
    let key = band_key i bv in
    sadd key (decimal chash)
    ∷ (if ltb 0 cfg.neardup_ttl then expire key cfg.neardup_ttl ∷ rest else rest)

module _ (sv : Services) (hs : Hashing) (cfg : Config) where
  -- The loop over the bands; it returns at the first close member.
  unfoldable pub probe : ℕ → ℕ → List ℕ → M sv Bool
  unfolding any_close
  probe chash i [] = pure false
  probe chash i (bv ∷ bvs) = do
    members ← issue (Call.smembers (band_key i bv)) (sv.smembers (band_key i bv))
    if any_close cfg chash members then pure true else probe chash (suc i) bvs

  unfoldable pub is_duplicate : Text → M sv (Bool × ℕ)
  unfolding probe
  is_duplicate text =
      let chash = simhash hs text cfg.simhash_bits in
      do
        keys ← lift (bucket_keys chash cfg.simhash_bits cfg.simhash_bands)
        dup ← probe chash 0 keys
        pure (dup, chash)

  unfoldable pub index : ℕ → M sv (Unit {0})
  unfolding index_commands
  index chash = do
    keys ← lift (bucket_keys chash cfg.simhash_bits cfg.simhash_bands)
    issue (Call.execute (index_commands cfg chash 0 keys))
        (sv.execute (index_commands cfg chash 0 keys))

  unfoldable pub flush_pipe : List Command → M sv (Unit {0})
  flush_pipe pipe = issue (Call.execute pipe) (sv.execute pipe)

  -- The loop over the rows: the commands still queued, and the rows counted so far.
  unfoldable pub warm_rows : List Command → ℕ → List (Option ℕ) → M sv (List Command)
  unfolding index_commands flush_pipe
  warm_rows pipe count [] = pure pipe
  warm_rows pipe count (none ∷ rows) = warm_rows pipe count rows
  warm_rows pipe count (some chash ∷ rows) = do
    keys ← lift (bucket_keys chash cfg.simhash_bits cfg.simhash_bands)
    let queued = pipe ++ index_commands cfg chash 0 keys
    elim (suc count % 500 == 0) [
      | true ↦ flush_pipe queued >> warm_rows [] (suc count) rows
      | false ↦ warm_rows queued (suc count) rows
    ]

  unfoldable pub warm_from_db : M sv (Unit {0})
  unfolding warm_rows
  warm_from_db = do
    warmed ← issue (Call.exists (codes "simhash:warmed:v1")) (sv.exists (codes "simhash:warmed:v1"))
    elim warmed [
      | true ↦ pure tt
      | false ↦ do
        rows ← issue Call.select sv.select_hashes
        pipe ← warm_rows [] 0 rows
        flush_pipe pipe
        issue (Call.set_key (codes "simhash:warmed:v1"))
            (sv.set_key (codes "simhash:warmed:v1") (codes "1"))
    ]
