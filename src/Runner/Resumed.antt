-- ===== src/Runner/Resumed.antt =====
-- A results directory through attempts at runs, some of which get killed.
use agentic_cloud_pipeline_g.Prelude.{
  ℕ, ◌≤◌, String, ◌≡◌, ◌∙◌, refl, ap, false, inl, inr, Option, none, some, List, [], ◌∷◌, ◌++◌,
  take, any, str_eq, count, count-append, count-eq-zero_of_any, length, take-length, All,
  All-append, arith, eq_iff, Bool-cases,
}
use mathlib.Core.Path.{subst}
use agentic_cloud_pipeline_g.Prelude.Dict.{Dict, lookup}
use agentic_cloud_pipeline_g.Campaign.Runs.{Run}
use agentic_cloud_pipeline_g.Runner.{
  Row, ManifestRecord, ResultsDir, Conditions, id_of, metric_rows, record_of, completed, is_listed,
}
use agentic_cloud_pipeline_g.Runner.Recorded.{
  rows_of, IsHeaded, rewritten, rows_of-other, rows_of_self, rewritten-IsHeaded,
}

module _ {V : Type 0} (c : Conditions V) where
  -- What an attempt at a run makes of the files: it ends before it writes rows, or when it has put
  -- some rows on disk, after those of an earlier attempt are removed, or it is listed in the manifest.
  -- Rows end up on disk whole, and the header with the file that it stands in: a kill between the
  -- creation of raw.csv and the first flush of its buffer, which leaves the file empty, is no attempt.
  pub data Attempt (r : Run) (d d' : ResultsDir V) : Type 0 where
    unwritten : d'.raw ≡ d.raw → d'.manifest ≡ d.manifest → Attempt r d d'
    unlisted :
        (n seed : ℕ) (m : Dict V)
        → d'.raw ≡ rewritten c r seed d.raw (take n (metric_rows c r seed m))
        → d'.manifest ≡ d.manifest
        → Attempt r d d'
    finished :
        (seed : ℕ) (m : Dict V) (mttr wall : V)
        → lookup "mttr_s" m ≡ some mttr
        → d'.raw ≡ rewritten c r seed d.raw (metric_rows c r seed m)
        → d'.manifest ≡ d.manifest ++ record_of c r seed mttr wall ∷ []
        → Attempt r d d'

  -- What attempts at runs that were not listed make of an empty directory.
  pub data Reach : ResultsDir V → Type 0 where
    fresh : (d : ResultsDir V) → d.raw ≡ none → d.manifest ≡ [] → Reach d
    again :
        (d d' : ResultsDir V) (r : Run)
        → Reach d
        → is_listed c (id_of c r) d ≡ false
        → Attempt r d d'
        → Reach d'

  -- A line of the manifest and the rows of its run: those of one harvest, whose time to recovery the
  -- line has.
  pub record IsRecorded (raw : Option (List Row)) (line : ManifestRecord V) : Type 0 where
    pub run : Run
    pub seed : ℕ
    pub metrics : Dict V
    pub named : line.run_id ≡ id_of c run
    pub timed : lookup "mttr_s" metrics ≡ some line.mttr
    pub rows : rows_of line.run_id raw ≡ metric_rows c run seed metrics

  pub record HasWholeRuns (d : ResultsDir V) : Type 0 where
    pub headed : IsHeaded d.raw
    pub recorded : All (IsRecorded d.raw) d.manifest
    pub once : (id : String) → count (str_eq id) (completed c d.manifest) ≤ 1

  -- A line keeps its rows when another run's are written.
  recorded_after :
      (r : Run) (n seed : ℕ) (m : Dict V) (raw : Option (List Row))
      → IsHeaded raw
      → (lines : List (ManifestRecord V)) → any (str_eq (id_of c r)) (completed c lines) ≡ false
      → All (IsRecorded raw) lines
      → All (IsRecorded (rewritten c r seed raw (take n (metric_rows c r seed m)))) lines
  recorded_after r n seed m raw h [] f k = tt
  recorded_after r n seed m raw h (line ∷ lines) f k = (
    record {
      run = k.0.run;
      seed = k.0.seed;
      metrics = k.0.metrics;
      named = k.0.named;
      timed = k.0.timed;
      rows =
          rows_of-other c r seed line.run_id raw n m h
            (λ e. ground (arith, f, e, eq_iff (id_of c r) line.run_id))
          ∙ k.0.rows;
    },
    recorded_after r n seed m raw h lines (ground (arith, f)) k.1,
  )

  recorded_after_all :
      (r : Run) (seed : ℕ) (m : Dict V) (raw : Option (List Row))
      → IsHeaded raw
      → (lines : List (ManifestRecord V)) → any (str_eq (id_of c r)) (completed c lines) ≡ false
      → All (IsRecorded raw) lines
      → All (IsRecorded (rewritten c r seed raw (metric_rows c r seed m))) lines
  recorded_after_all r seed m raw h lines f k =
      subst (λ rows. All (IsRecorded (rewritten c r seed raw rows)) lines)
        (take-length (metric_rows c r seed m))
        (recorded_after r (length (metric_rows c r seed m)) seed m raw h lines f k)

  completed-append :
      (lines : List (ManifestRecord V)) (line : ManifestRecord V)
      → completed c (lines ++ line ∷ []) ≡ completed c lines ++ line.run_id ∷ []
  completed-append [] line = refl
  completed-append (l ∷ lines) line = ap (λ xs. l.run_id ∷ xs) (completed-append lines line)

  once_after :
      (r : Run) (seed : ℕ) (mttr wall : V) (lines : List (ManifestRecord V))
      → any (str_eq (id_of c r)) (completed c lines) ≡ false
      → ((id : String) → count (str_eq id) (completed c lines) ≤ 1)
      → (id : String)
      → count (str_eq id) (completed c (lines ++ record_of c r seed mttr wall ∷ [])) ≤ 1
  once_after r seed mttr wall lines f h id = rw (completed-append lines _) (
      rw (count-append (str_eq id) (completed c lines) (id_of c r ∷ []))
        (elim (Bool-cases (str_eq id (id_of c r))) [
          | inl e ↦ ground (
            arith,
            e,
            eq_iff id (id_of c r),
            count-eq-zero_of_any (str_eq (id_of c r)) (completed c lines) f,
          )
          | inr e ↦ ground (arith, e, h id)
        ]))

  attempt-HasWholeRuns :
      (r : Run) (d d' : ResultsDir V)
      → is_listed c (id_of c r) d ≡ false
      → HasWholeRuns d
      → Attempt r d d'
      → HasWholeRuns d'
  attempt-HasWholeRuns r d d' f k (unwritten e1 e2) = record {
    headed = rw e1 k.headed;
    recorded = rw (e1, e2) k.recorded;
    once = rw e2 k.once;
  }
  attempt-HasWholeRuns r d d' f k (unlisted n seed m e1 e2) = record {
    headed = rw e1 (rewritten-IsHeaded c r seed d.raw _ k.headed);
    recorded = rw (e1, e2) (recorded_after r n seed m d.raw k.headed d.manifest f k.recorded);
    once = rw e2 k.once;
  }
  attempt-HasWholeRuns r d d' f k (finished seed m mttr wall t e1 e2) = record {
    headed = rw e1 (rewritten-IsHeaded c r seed d.raw _ k.headed);
    recorded =
        rw (e1, e2)
          (All-append _ d.manifest _
            (recorded_after_all r seed m d.raw k.headed d.manifest f k.recorded)
            (
              record {
                run = r;
                seed = seed;
                metrics = m;
                named = refl;
                timed = t;
                rows = rows_of_self c r seed d.raw m k.headed;
              },
              tt,
            ));
    once = rw e2 (once_after r seed mttr wall d.manifest f k.once);
  }

  -- A results directory that begins empty, through any sequence of attempts at runs that its
  -- manifest does not list, each of which writes nothing, or a number of its rows from the first on,
  -- whole and below a header, or all of them and its line: the manifest never lists a run twice, and
  -- raw.csv has for each run listed exactly the rows of one harvest, one for each metric, whatever
  -- rows such attempts at it had left. An attempt that leaves raw.csv without its header, by a
  -- kill before the first flush of the file that it creates, is not among these.
  pub Reach-HasWholeRuns : (d : ResultsDir V) → Reach d → HasWholeRuns d
  Reach-HasWholeRuns _ (fresh d e1 e2) = record {
    headed = rw e1 tt;
    recorded = rw e2 tt;
    once = rw e2 λ id. omega arith;
  }
  Reach-HasWholeRuns _ (again d d' r h f a) =
      attempt-HasWholeRuns r d d' f (Reach-HasWholeRuns d h) a
