-- ===== src/Quality/Scores.antt =====
-- The report's numbers are counts of the rows of its query.
use agentic_cloud_pipeline_g.Prelude.{
  ◌+◌, String, ◌≡◌, Bool, false, ◌&&◌, List, [], ◌∷◌, str_eq, if◌then◌else◌, count, length, arith,
  eq_iff, either_way,
}
use agentic_cloud_pipeline_g.Prelude.Dict.{Dict, insert, lookup-insert}
use agentic_cloud_pipeline_g.Quality.{
  Scored, Bucket, Quality, bucket_of, is_scored, is_mended, score_one, score, score_all, any_match,
  is_correct_live,
}

bucket_of-insert :
    (fault key : String) (b : Bucket) (d : Dict Bucket)
    → bucket_of fault (insert key b d) ≡ (if str_eq key fault then b else bucket_of fault d)
bucket_of-insert fault key b d = ground (arith, lookup-insert key fault b d)

-- Only what is scored is correct.
is_mended_scored : (r : Scored) → is_scored r ≡ false → is_mended r ≡ false
unfolding is_scored is_mended is_correct_live any_match
is_mended_scored r h = ground (arith, h)

module _ (fault : String) where
  abbrev pub is_scored_as : Scored → Bool
  is_scored_as r = str_eq r.fault_type fault && is_scored r

  abbrev pub is_mended_as : Scored → Bool
  is_mended_as r = str_eq r.fault_type fault && is_mended r

  -- The numbers of `q'` are those of `q` and the counts of some incidents.
  pub record Counts (rs : List Scored) (q q' : Quality) : Type 0 where
    pub in_bucket :
        (bucket_of fault q'.by_fault_type).total
        ≡ (bucket_of fault q.by_fault_type).total + count is_scored_as rs
    pub correct_in_bucket :
        (bucket_of fault q'.by_fault_type).correct
        ≡ (bucket_of fault q.by_fault_type).correct + count is_mended_as rs
    pub scored : q'.total ≡ q.total + count is_scored rs
    pub correct : q'.correct ≡ q.correct + count is_mended rs
    pub all_counted : q'.unscored + q'.total ≡ q.unscored + q.total + length rs

  score-Counts : (r : Scored) (q : Quality) → Counts (r ∷ []) q (score r q)
  unfolding score score_one
  score-Counts r q =
      either_way (Counts (r ∷ []) q) (is_scored r) _ _
        (λ h. record {
          in_bucket = ground (
            arith,
            h,
            bucket_of-insert fault r.fault_type
                (score_one (is_mended r) (bucket_of r.fault_type q.by_fault_type)) q.by_fault_type,
            eq_iff r.fault_type fault,
          );
          correct_in_bucket = ground (
            arith,
            h,
            bucket_of-insert fault r.fault_type
                (score_one (is_mended r) (bucket_of r.fault_type q.by_fault_type)) q.by_fault_type,
            eq_iff r.fault_type fault,
          );
          scored = ground (arith, h);
          correct = ground (arith, h);
          all_counted = omega arith;
        })
        (λ h. record {
          in_bucket = ground (arith, h);
          correct_in_bucket = ground (arith, h, is_mended_scored r h);
          scored = ground (arith, h);
          correct = ground (arith, h, is_mended_scored r h);
          all_counted = omega arith;
        })

  pub score_all-Counts : (rs : List Scored) (q : Quality) → Counts rs q (score_all rs q)
  unfolding score_all
  score_all-Counts [] q = record {
    in_bucket = omega arith;
    correct_in_bucket = omega arith;
    scored = omega arith;
    correct = omega arith;
    all_counted = omega arith;
  }
  score_all-Counts (r ∷ rs) q =
      let first = score-Counts r q in
      let rest = score_all-Counts rs (score r q) in
      record {
        in_bucket = omega (arith, first.in_bucket, rest.in_bucket);
        correct_in_bucket = omega (arith, first.correct_in_bucket, rest.correct_in_bucket);
        scored = omega (arith, first.scored, rest.scored);
        correct = omega (arith, first.correct, rest.correct);
        all_counted = omega (arith, first.all_counted, rest.all_counted);
      }
