-- ===== src/Worker/Sample.antt =====
-- Sample data for the tests: settings, a database that enforces its constraints, and a table of two
-- jobs, one queued and one that is processing under a lease.
use system_uni.Prelude.{
  ℕ, zero, suc, ◌+◌, ◌/◌, ◌*◌, ◌<◌, ◌≤◌, ◌≡◌, refl, none, some, Bool, true, false, [], ◌∷◌, arith,
}
use system_uni.Models.{
  Db, Job, Postgres, Verdict, committed, violated, constraints, queued, processing,
}
use system_uni.Session.{IsCalm, Moment, Respects}
use system_uni.Services.Reports.{Rounding}
use system_uni.Worker.Settings.{Settings}
use system_uni.Worker.Columns.{ClaimedJob}
use system_uni.Worker.Failure.{Jitter}
use system_uni.Worker.System.{SystemSteps, start}

abbrev pub settings : Settings
settings = record {
  job_lease_seconds = 120;
  job_heartbeat_seconds = 30;
  job_max_attempts = 3;
  job_retry_base_seconds = 5;
  worker_retry_attempts = 3;
}

abbrev pub check : Bool → Verdict
check true = committed
check false = violated

pub check_accepts : (b : Bool) → check b ≡ committed → b ≡ true
check_accepts true h = refl
check_accepts false h = cc

pub check_rejects : (b : Bool) → check b ≡ violated → b ≡ false
check_rejects true h = cc
check_rejects false h = refl

-- A database that commits exactly the states that meet the constraints.
abbrev pub strict : Postgres
strict = record {
  verdict = λ d. check (constraints d);
  accepts = λ d. check_accepts (constraints d);
  rejects = λ d. check_rejects (constraints d);
}

abbrev pub steady : Jitter
steady = record { uniform = λ delay. 0; in_range = λ delay. omega arith }

abbrev pub empty : Db
empty = record {
  users = [];
  students = [];
  colleges = [];
  departments = [];
  courses = [];
  teachers = [];
  offerings = [];
  schedules = [];
  enrollments = [];
  jobs = [];
  reports = [];
}

abbrev pub waiting : Job
waiting = record {
  job_id = 7;
  job_version = 0;
  status = queued;
  owner_id = 1;
  worker_token = none;
  lease_until = none;
  report_type = "transcript";
  target_id = 1;
  attempt_count = 0;
  retry_at = none;
  last_error = none;
  created_at = 10;
  updated_at = 10;
}

abbrev pub running : Job
running = record {
  job_id = 8;
  job_version = 2;
  status = processing;
  owner_id = 1;
  worker_token = some 55;
  lease_until = some 900;
  report_type = "transcript";
  target_id = 1;
  attempt_count = 2;
  retry_at = none;
  last_error = none;
  created_at = 5;
  updated_at = 20;
}

abbrev pub two_jobs : Db
two_jobs = record empty { jobs = running ∷ waiting ∷ [] }

abbrev pub mine : ClaimedJob
mine = record { job_id = 8; worker_token = 55; job_version = 2 }

abbrev pub quiet : ℕ → Moment
quiet n = record {
  others = λ d. d;
  fault = none;
  now = 100 + n;
  serial = n;
  violation = [];
  uuid = 77 + n;
  locked = λ k. false;
}

pub quiet-Respects : Respects SystemSteps quiet
quiet-Respects n d = start

-- The mean of tenths, in hundredths, rounded to the nearest.
abbrev pub mean2 : ℕ → ℕ → ℕ
mean2 total zero = 0
mean2 total (suc n) = (20 * total + suc n) / (2 * suc n)

pub mean2_above :
    (total count : ℕ) → 0 < count → 20 * total ≤ 2 * (count * mean2 total count) + count
mean2_above total zero h = omega arith
mean2_above total (suc n) h = grind arith

pub mean2_below :
    (total count : ℕ) → 0 < count → 2 * (count * mean2 total count) ≤ 20 * total + count
mean2_below total zero h = omega arith
mean2_below total (suc n) h = grind arith

abbrev pub floats : Rounding
floats = record { mean2 = mean2; mean2_above = mean2_above; mean2_below = mean2_below }

pub quiet-IsCalm : IsCalm quiet
quiet-IsCalm = record { alone = λ n d. refl; faultless = λ n. refl }
