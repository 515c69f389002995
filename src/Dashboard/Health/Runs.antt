-- ===== src/Dashboard/Health/Runs.antt =====
-- About the heartbeats that `health` reports.
use mathlib.Core.Path.{subst}
use mathlib.Core.Option.{some-injective}
use mathlib.Core.List.{Perm}
use mathlib.Core.List.Perm
use webspider.Prelude.{
  ◌+◌, ◌*◌, ◌<◌, ◌≡◌, ◌↔◌, refl, sym, ap, ◌∙◌, arith, Bool, true, false, List, [], ◌∷◌, map, Option,
  none, some, Text, codes, All, if◌then◌else◌,
}
use webspider.Dedupe.{ℤ, pos, negsuc}
use webspider.Outcome.{Outcome, ok, raise, attribute_error, ok-injective}
use webspider.Dashboard.Health.{
  RunRecord, Loaded, malformed, no_object, object, Age, Run, minute, within, status_of, limit_of,
  run_of, add_run, text_leb, insert_run, sort_runs, age_of, with_age, runs_of,
}

-- `a <= b` holds one way or the other.
text_leb_total : (s t : Text) → text_leb s t ≡ false → text_leb t s ≡ true
unfolding text_leb
text_leb_total [] t e = let no : ⊥ = cc in elim no [ ]
text_leb_total (c ∷ s) [] e = refl
text_leb_total (c ∷ s) (d ∷ t) e = ground (arith, text_leb_total s t)

-- The sources go up from `low` on.
abbrev Chain : Text → List Run → Type 0
Chain low [] = Unit
Chain low (r ∷ rs) = (text_leb low r.source ≡ true) × Chain r.source rs

abbrev pub Ascending : List Run → Type 0
Ascending [] = Unit
Ascending (r ∷ rs) = Chain r.source rs

insert_run-Chain :
    (low : Text) (run : Run) (rs : List Run)
    → text_leb low run.source ≡ true
    → Chain low rs
    → Chain low (insert_run run rs)
unfolding insert_run
insert_run-Chain low run [] e h = (e, tt)
insert_run-Chain low run (r ∷ rs) e h =
    by (text_leb run.source r.source) refl (λ later. insert_run-Chain r.source run rs later h.1)
  where
    by :
        (b : Bool)
        → text_leb run.source r.source ≡ b
        → (text_leb r.source run.source ≡ true → Chain r.source (insert_run run rs))
        → Chain low (if b then run ∷ r ∷ rs else r ∷ insert_run run rs)
    by true first ih = (e, (first, h.1))
    by false after ih = (h.0, ih (text_leb_total run.source r.source after))

insert_run-Ascending : (run : Run) (rs : List Run) → Ascending rs → Ascending (insert_run run rs)
unfolding insert_run
insert_run-Ascending run [] h = tt
insert_run-Ascending run (r ∷ rs) h =
    by (text_leb run.source r.source) refl (λ later. insert_run-Chain r.source run rs later h)
  where
    by :
        (b : Bool)
        → text_leb run.source r.source ≡ b
        → (text_leb r.source run.source ≡ true → Chain r.source (insert_run run rs))
        → Ascending (if b then run ∷ r ∷ rs else r ∷ insert_run run rs)
    by true first ih = (first, h)
    by false after ih = ih (text_leb_total run.source r.source after)

sort_runs-Ascending : (rs : List Run) → Ascending (sort_runs rs)
unfolding sort_runs
sort_runs-Ascending [] = tt
sort_runs-Ascending (r ∷ rs) = insert_run-Ascending r (sort_runs rs) (sort_runs-Ascending rs)

insert_run-Perm : (run : Run) (rs : List Run) → Perm (insert_run run rs) (run ∷ rs)
unfolding insert_run
insert_run-Perm run [] = Perm.rfl
insert_run-Perm run (r ∷ rs) = by (text_leb run.source r.source) (insert_run-Perm run rs)
  where
    by :
        (b : Bool)
        → Perm (insert_run run rs) (run ∷ rs)
        → Perm (if b then run ∷ r ∷ rs else r ∷ insert_run run rs) (run ∷ r ∷ rs)
    by true ih = Perm.rfl
    by false ih = Perm.trans (Perm.cons r ih) (Perm.swap run r rs)

sort_runs-Perm : (rs : List Run) → Perm (sort_runs rs) rs
unfolding sort_runs
sort_runs-Perm [] = Perm.rfl
sort_runs-Perm (r ∷ rs) =
    Perm.trans (insert_run-Perm r (sort_runs rs)) (Perm.cons r (sort_runs-Perm rs))

-- An age in microseconds that is more than a number of minutes.
abbrev Beyond : ℤ → ℤ → Type 0
Beyond (pos a) (pos m) = m * minute < a
Beyond (pos a) (negsuc m) = Unit
Beyond (negsuc a) (pos m) = ⊥
Beyond (negsuc a) (negsuc m) = a + 1 < (m + 1) * minute

within_iff : (a m : ℤ) → (within a m ≡ false) ↔ Beyond a m
unfolding within
within_iff (pos a) (pos m) = ground arith
within_iff (pos a) (negsuc m) = (λ _. tt, λ _. refl)
within_iff (negsuc a) (pos m) = (λ e. cc, λ no. elim no [ ])
within_iff (negsuc a) (negsuc m) = ground arith

status_of_iff :
    (o : Option ℤ) (m : ℤ) → (status_of o m ≡ codes "stale") ↔ ((a : ℤ) × (o ≡ some a) × Beyond a m)
unfolding status_of
status_of_iff none m = (λ e. cc, λ (a, e, _). cc)
status_of_iff (some a) m = by (within a m) refl
  where
    by :
        (b : Bool)
        → within a m ≡ b
        → ((if b then codes "ok" else codes "stale") ≡ codes "stale")
          ↔ ((a' : ℤ) × (some a ≡ some a') × Beyond a' m)
    by true e = (
      λ same. let no : ⊥ = cc in elim no [ ],
      λ (a', ea, beyond).
          let late =
            (within_iff a m).1 (subst (λ z. Beyond z m) (sym (some-injective _ _ ea)) beyond) in
          let no : ⊥ = cc in elim no [ ],
    )
    by false e = (λ _. (a, refl, (within_iff a m).0 e), λ _. refl)

module _ (loads : Text → Loaded) (thresholds : List (Text × ℤ)) (since : Text → Age) where
  -- The sources whose heartbeat is JSON.
  abbrev source_of : Text → Loaded → List Text → List Text
  source_of src malformed rest = rest
  source_of src no_object rest = src ∷ rest
  source_of src (object rec) rest = src ∷ rest

  unfoldable pub readable : List (Text × Text) → List Text
  readable [] = []
  readable ((src, raw) ∷ entries) = source_of src (loads raw) (readable entries)

  -- Stale means that the run names its end, and that it is longer ago than the minutes of its source.
  abbrev pub Judged : Run → Type 0
  Judged run =
      (run.stale_after_minutes ≡ limit_of thresholds run.source)
      × ((run.status ≡ codes "stale") ↔ (
          (a : ℤ) × (age_of loads thresholds since run.last_run_at ≡ ok (some a))
          × Beyond a run.stale_after_minutes))

  abbrev Reported : List Text → List Run → Type 0
  Reported sources runs = (map (λ (r : Run). r.source) runs ≡ sources) × All Judged runs

  run_of-Judged :
      (src : Text) (rec : RunRecord) (o : Option ℤ)
      → age_of loads thresholds since rec.finished_at ≡ ok o
      → Judged (run_of thresholds src rec o)
  unfolding run_of
  run_of-Judged src rec o e =
      let (to, from) = status_of_iff o (limit_of thresholds src) in
      (
        refl,
        (
          λ stale. let (a, some_age, beyond) = to stale in (a, e ∙ ap ok some_age, beyond),
          λ (a, aged, beyond). from (a, ok-injective (sym e ∙ aged), beyond),
        ),
      )

  with_age-Reported :
      (src : Text) (rec : RunRecord) (sources : List Text) (rest : Outcome (List Run))
      (o : Outcome (Option ℤ)) (runs : List Run)
      → age_of loads thresholds since rec.finished_at ≡ o
      → ((rs : List Run) → rest ≡ ok rs → Reported sources rs)
      → with_age loads thresholds since src rec rest o ≡ ok runs
      → Reported (src ∷ sources) runs
  unfolding with_age add_run
  with_age-Reported src rec sources rest (raise x) runs e ih h = let no : ⊥ = cc in elim no [ ]
  with_age-Reported src rec sources (raise x) (ok o) runs e ih h = let no : ⊥ = cc in elim no [ ]
  with_age-Reported src rec sources (ok rs) (ok o) runs e ih h =
      let (named, judged) = ih rs refl in
      subst (Reported (src ∷ sources)) (ok-injective h)
        (ap (λ (l : List Text). src ∷ l) named, (run_of-Judged src rec o e, judged))

  runs_of-Reported :
      (entries : List (Text × Text)) (runs : List Run)
      → runs_of loads thresholds since entries ≡ ok runs
      → Reported (readable entries) runs
  unfolding runs_of readable
  runs_of-Reported [] runs e = subst (Reported []) (ok-injective e) (refl, tt)
  runs_of-Reported ((src, raw) ∷ entries) runs e = by (loads raw) refl (runs_of-Reported entries) e
    where
      by :
          (l : Loaded)
          → loads raw ≡ l
          → ((rs : List Run)
              → runs_of loads thresholds since entries ≡ ok rs
              → Reported (readable entries) rs)
          → elim l [
            | malformed ↦ runs_of loads thresholds since entries
            | no_object ↦ raise attribute_error
            | object rec ↦
                with_age loads thresholds since src rec
                  (runs_of loads thresholds since entries)
                  (age_of loads thresholds since rec.finished_at)
          ]
            ≡ ok runs
          → Reported (source_of src l (readable entries)) runs
      by malformed l ih e = ih runs e
      by no_object l ih e = let no : ⊥ = cc in elim no [ ]
      by (object rec) l ih e =
          with_age-Reported src rec (readable entries) (runs_of loads thresholds since entries)
            (age_of loads thresholds since rec.finished_at) runs refl ih e

  -- Where the heartbeats can be read, each that is JSON is reported once, in the order of the
  -- sources, and it is called stale exactly when it names its end and that is longer ago than the
  -- minutes of its source.
  pub runs-Reported :
      (entries : List (Text × Text)) (runs : List Run)
      → runs_of loads thresholds since entries ≡ ok runs
      → Ascending (sort_runs runs)
        × Perm (sort_runs runs) runs
        × (map (λ (r : Run). r.source) runs ≡ readable entries)
        × All Judged runs
  runs-Reported entries runs e =
      let (named, judged) = runs_of-Reported entries runs e in
      (sort_runs-Ascending runs, sort_runs-Perm runs, named, judged)
