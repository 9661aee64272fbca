-- ===== src/Worker/Tests.antt =====
-- The theorems on the worker at concrete inputs.
use system_uni.Prelude.{
  ℕ, ◌+◌, ◌*◌, ◌^◌, ◌≤◌, ◌≡◌, ◌≢◌, refl, inl, some, false, [], ◌∷◌, arith, if◌then◌else◌,
}
use system_uni.Models.{Db, jobs_ok, queued, failed}
use system_uni.Session.{World, Holds, sqlalchemy_error}
use system_uni.Services.Reports.{calculate_gpa, grade_points}
use system_uni.Services.Grades.{calculate_gpa_between}
use system_uni.Worker.Settings.{seconds}
use system_uni.Worker.Columns.{ClaimedJob, owns_job, failure_values, claimable}
use system_uni.Worker.Store.{get_job, find_report}
use system_uni.Worker.Claim.{claim_next_job, candidate, first_by_order, claim_candidate, sort_key}
use system_uni.Worker.Claim.Order.{lex_le}
use system_uni.Worker.Claim.Laws.{ClaimEnds, claim_next_job_ends, claim_respects_lease}
use system_uni.Worker.Failure.{
  already_processing, job_status, is_exhausted, retry_time, retry_delay, error_message,
  write_failure,
}
use system_uni.Worker.Fencing.{holds, Guarded}
use system_uni.Worker.Fencing.Outcomes.{write_failure_fenced, retry_time_bounds}
use system_uni.Worker.Process.{Execution, Returned, process_claimed_report}
use system_uni.Worker.Process.Result.{Returns, process_claimed_report-Returns}
use system_uni.Worker.Enqueue.{transcript_job, enqueue}
use system_uni.Worker.Follows.{Follows}
use system_uni.Worker.System.{SystemSteps, start, after, claims, enqueues}
use system_uni.Worker.System.Invariant.{IsSound}
use system_uni.Worker.System.Reachable.{SystemSteps-IsSound, SystemSteps-Follows}
use system_uni.Worker.Heartbeat.{heartbeat_loop}
use system_uni.Worker.Heartbeat.Laws.{Flags, heartbeat_loop-Flags}
use system_uni.Worker.Runner.{claim_with_retry}
use system_uni.Worker.Runner.Laws.{Answers, claim_with_retry-Answers}
use system_uni.Worker.Process.Guards.{standing_aside, process_claimed_report_stands_aside}
use system_uni.Worker.Sample.{
  settings, strict, steady, empty, running, two_jobs, mine, quiet, quiet-IsCalm, floats,
}

claims_waiting :
    (claim_next_job settings (λ k. false) 77 100 two_jobs).0
    ≡ some (record { job_id = 7; worker_token = 77; job_version = 1 })
unfolding claim_next_job candidate first_by_order claim_candidate claimable sort_key lex_le
claims_waiting = refl

claim_next_job_ends_example :
    ClaimEnds
      (λ k. false)
      77
      100
      (100 + seconds 120)
      two_jobs
      (claim_next_job settings (λ k. false) 77 100 two_jobs)
claim_next_job_ends_example =
    claim_next_job_ends settings (λ k. false) 77 100 two_jobs (unfold jobs_ok in refl)

claim_respects_lease_example : ◌≢◌ {A = ℕ} 7 8
claim_respects_lease_example =
    claim_respects_lease settings (λ k. false) 77 100 8 900 two_jobs running
      (unfold jobs_ok in refl) (unfold get_job in refl) refl refl (omega arith)
      (record { job_id = 7; worker_token = 77; job_version = 1 }) claims_waiting

write_failure_fenced_example :
    let e = sqlalchemy_error [] in
    let (s, d') = write_failure settings steady mine e false running 500 two_jobs in
    let has_failed = is_exhausted settings false running in
    (s ≡ (
      if holds mine (get_job 8 two_jobs)
      then job_status (if has_failed then failed else queued)
      else already_processing))
    × Guarded mine
        (failure_values has_failed
          (retry_time settings steady has_failed 500 running)
          (error_message e)
          500)
        two_jobs
        d'
write_failure_fenced_example =
    write_failure_fenced settings steady mine (sqlalchemy_error []) false running 500 two_jobs
      (unfold jobs_ok in refl)

retry_time_bounds_example :
    let delay = seconds 5 * 2 ^ 1 in (500 + delay ≤ 10000500) × (2 * 10000500 ≤ 2 * 500 + 3 * delay)
unfolding retry_delay
retry_time_bounds_example = retry_time_bounds settings steady 500 1 10000500 running refl refl

abbrev execution : ClaimedJob → Execution
execution c = record {
  settings = settings;
  postgres = strict;
  floats = floats;
  jitter = steady;
  claim = c;
  report_found = false;
  digits = λ n. [];
}

abbrev world : World
world = record { db = two_jobs; tick = 0 }

process_claimed_report-Returns_example :
    Holds
      (λ (ret : Returned). Returns 8 ret.result)
      (process_claimed_report quiet (execution mine) world)
process_claimed_report-Returns_example = process_claimed_report-Returns quiet (execution mine) world

-- The claim of an execution that has lost its lease.
abbrev lost : ClaimedJob
lost = record mine { job_version = 0 }

process_claimed_report_stands_aside_example :
    process_claimed_report quiet (execution lost) world
    ≡ standing_aside quiet (execution lost) world (get_job 8 two_jobs) (find_report 8 two_jobs)
process_claimed_report_stands_aside_example =
    process_claimed_report_stands_aside quiet (execution lost) world quiet-IsCalm
      (unfold get_job find_report owns_job in refl)

claim_with_retry-Answers_example : Answers (claim_with_retry quiet settings 3 world).0
claim_with_retry-Answers_example = claim_with_retry-Answers quiet settings 3 world (inl refl)

heartbeat_loop-Flags_example :
    Holds (Flags quiet settings mine) (heartbeat_loop quiet settings mine 4 world)
heartbeat_loop-Flags_example = heartbeat_loop-Flags quiet settings mine 4 world

empty-IsSound : IsSound empty
empty-IsSound = record {
  keys = unfold jobs_ok in refl;
  formed = λ k j h. unfold get_job in cc;
  reported = λ k j h. unfold get_job in cc;
  owned = λ k h. unfold find_report in refl;
}

abbrev one_claimed : Db
one_claimed =
    (claim_next_job settings (λ k. false) 77 100
      (enqueue strict (transcript_job 7 1 1 10) empty).1).1

history : SystemSteps empty one_claimed
history =
    after (after start (enqueues strict 7 1 1 10 refl)) (claims settings (λ k. false) 77 100 refl)

SystemSteps-IsSound_example : IsSound one_claimed
SystemSteps-IsSound_example = SystemSteps-IsSound history empty-IsSound

SystemSteps-Follows_example : Follows empty one_claimed
SystemSteps-Follows_example = SystemSteps-Follows history empty-IsSound

calculate_gpa_between_example :
    (10 * 33 ≤ calculate_gpa floats (95 ∷ 82 ∷ []))
    × (calculate_gpa floats (95 ∷ 82 ∷ []) ≤ 10 * 40)
calculate_gpa_between_example =
    calculate_gpa_between floats 33 40 95 (82 ∷ []) (unfold grade_points in omega arith)
