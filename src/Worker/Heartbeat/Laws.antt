-- ===== src/Worker/Heartbeat/Laws.antt =====
-- The heartbeat as a session, and the report that it flags.
use system_uni.Prelude.{ℕ, zero, suc, Option, none, some, Bool, true, false, refl}
use system_uni.Models.{Db, Report}
use system_uni.Session.{
  Session, Moment, World, Respects, Guarantees, statement, pure, Ensures, Holds, pure-Ensures,
  >>=-Ensures, statement-Ensures, try_except-Ensures, always,
}
use system_uni.Worker.Settings.{Settings}
use system_uni.Worker.Columns.{ClaimedJob}
use system_uni.Worker.Reconcile.{reconcile_reported_job}
use system_uni.Worker.Lease.{renew_lease}
use system_uni.Worker.Process.Delivery.{Delivered, Adopted, reconcile_reported_job-Adopted}
use system_uni.Worker.System.{SystemSteps, renews}
use system_uni.Worker.System.Programs.{return, sequence, attempt, reconcile, step}
use system_uni.Worker.Heartbeat.{
  Beat, found, lost, alive, beat_of, renew_unless, beat, go_on, heartbeat_loop,
}

module _ (env : ℕ → Moment) (settings : Settings) (claim : ClaimedJob) where
  renew_unless-SystemSteps :
      Respects SystemSteps env
      → (r : Option Report) → Guarantees SystemSteps (renew_unless env settings claim r)
  unfolding renew_unless
  renew_unless-SystemSteps rely (some r) = return found
  renew_unless-SystemSteps rely none =
      sequence _ _
        (step env rely (λ m d. renew_lease settings claim m.now d)
          (λ m d. renews settings claim m.now refl))
        (λ renewed. return _)

  beat-SystemSteps : Respects SystemSteps env → Guarantees SystemSteps (beat env settings claim)
  unfolding beat
  beat-SystemSteps rely =
      attempt _ _ (sequence _ _ (reconcile env rely claim.job_id) (renew_unless-SystemSteps rely))
        (λ e. return alive)

  go_on-SystemSteps :
      (rest : Session Bool) (b : Beat)
      → Guarantees SystemSteps rest
      → Guarantees SystemSteps (go_on env settings claim rest b)
  unfolding go_on
  go_on-SystemSteps rest found h = return true
  go_on-SystemSteps rest lost h = return false
  go_on-SystemSteps rest alive h = h

  -- The heartbeat makes steps of the queue's transition system only, if the others do.
  pub heartbeat_loop-SystemSteps :
      Respects SystemSteps env
      → (n : ℕ) → Guarantees SystemSteps (heartbeat_loop env settings claim n)
  unfolding heartbeat_loop
  heartbeat_loop-SystemSteps rely zero = return false
  heartbeat_loop-SystemSteps rely (suc n) =
      sequence _ _ (beat-SystemSteps rely)
        (λ b. go_on-SystemSteps _ b (heartbeat_loop-SystemSteps rely n))

  abbrev pub Flags : Bool → Db → Type 0
  Flags false d = Unit
  Flags true d = (r : Report) × Delivered claim.job_id r d

  abbrev BeatFlags : Beat → Db → Type 0
  BeatFlags found d = (r : Report) × Delivered claim.job_id r d
  BeatFlags lost d = Unit
  BeatFlags alive d = Unit

  beat_of-BeatFlags : (b : Bool) (d : Db) → BeatFlags (beat_of env settings claim b) d
  beat_of-BeatFlags true d = tt
  beat_of-BeatFlags false d = tt

  beat-BeatFlags : Ensures BeatFlags (beat env settings claim)
  unfolding beat
  beat-BeatFlags =
      try_except-Ensures BeatFlags _ _
        (>>=-Ensures BeatFlags (Adopted claim.job_id) _ (renew_unless env settings claim)
          (statement-Ensures (Adopted claim.job_id) env
            (λ m d. reconcile_reported_job claim.job_id m.now d)
            (λ m d. reconcile_reported_job-Adopted claim.job_id m.now d))
          chosen)
        (λ e. pure-Ensures BeatFlags alive (λ d. tt))
    where
      renewal : Ensures BeatFlags (renew_unless env settings claim none)
      renewal =
          unfold renew_unless in
          >>=-Ensures BeatFlags (λ (b : Bool) d. Unit {0})
            (statement env (λ m d. renew_lease settings claim m.now d))
            (λ b. pure (beat_of env settings claim b)) (always _)
            (λ b w u.
              (pure-Ensures BeatFlags (beat_of env settings claim b) (beat_of-BeatFlags b)).ensured
                w)

      chosen :
          (r : Option Report) (w : World)
          → Adopted claim.job_id r w.db
          → Holds BeatFlags (renew_unless env settings claim r w)
      chosen none w h = renewal.ensured w
      chosen (some r) w h = unfold renew_unless pure in (r, h)

  loop-Flags : (n : ℕ) → Ensures Flags (heartbeat_loop env settings claim n)
  unfolding heartbeat_loop
  loop-Flags zero = pure-Ensures Flags false (λ d. tt)
  loop-Flags (suc n) =
      >>=-Ensures Flags BeatFlags (beat env settings claim)
        (go_on env settings claim (heartbeat_loop env settings claim n)) beat-BeatFlags
        (λ b w h. go b w h (loop-Flags n))
    where
      go :
          (b : Beat) (w : World)
          → BeatFlags b w.db
          → Ensures Flags (heartbeat_loop env settings claim n)
          → Holds Flags (go_on env settings claim (heartbeat_loop env settings claim n) b w)
      go found w h ih = unfold go_on pure in h
      go lost w h ih = unfold go_on pure in tt
      go alive w h ih = unfold go_on in ih.ensured w

  -- However long the heartbeat runs, and whatever other sessions do: if it flags a report, then the
  -- job has a stored report and is completed at that moment.
  pub heartbeat_loop-Flags :
      (n : ℕ) (w : World) → Holds Flags (heartbeat_loop env settings claim n w)
  heartbeat_loop-Flags n w = (loop-Flags n).ensured w
