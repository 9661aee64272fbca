-- ===== src/Api/Reports/Access.antt =====
-- app/routers/reports.py: who is shown a student or a job.
use system_uni.Prelude.{ℕ, suc, ◌≡◌, refl, ap, Option, none, some, List, true, if◌then◌else◌, arith}
use system_uni.Models.{Db, User, Student, Job, Postgres}
use system_uni.Session.{
  Session, Moment, World, query, pure, statement, ◌>>=◌, Outcome, ok, raised, settle,
}
use system_uni.Services.Reports.{Rounding, get_student}
use system_uni.Crud.Response.{Response}
use system_uni.Worker.Store.{get_job}
use system_uni.Api.Reports.{
  hides, hides_job, transcript_student, get_transcript_endpoint, export_student,
  export_transcript_async, status_job, get_job_status, student_not_found, job_not_found,
}

-- The student or job that the endpoints show to a user.
abbrev pub shown : User → Option Student → Option Student
shown u none = none
shown u (some s) = if hides u s then none else some s

abbrev pub shown_job : User → Option Job → Option Job
shown_job u none = none
shown_job u (some j) = if hides_job u j then none else some j

module _ (env : ℕ → Moment) (w : World) where
  -- The state that the first statement of a request sees.
  abbrev pub seen : Db
  seen = (env w.tick).others w.db

  -- A request that ends after its first statement, with one answer and no write.
  abbrev pub Answers : {A : Type 0} → Response A → Outcome (Response A) × World → Type 0
  Answers answer r = r ≡ (ok answer, record { db = seen; tick = suc w.tick })

  query-Answers :
      {A B : Type 0} (f : Db → A) (rest : A → Session (Response B)) (answer : Response B)
      → (env w.tick).fault ≡ none
      → rest (f seen) ≡ pure answer
      → Answers answer ((query env f >>= rest) w)
  unfolding query statement pure ◌>>=◌
  query-Answers {A} {B} f rest answer calm e = go (env w.tick).fault calm
    where
      go :
          (x : Option (List ℕ))
          → x ≡ none
          → Answers answer (
              let (o, w') = settle {A = A} x (f seen, seen) seen w.tick in
              let r : Outcome (Response B) × World = elim o [
                | ok a ↦ rest a w'
                | raised t ↦ (raised t, w')
              ] in
              r)
      go none h = ap (λ (m : Session (Response B)). m (record { db = seen; tick = suc w.tick })) e
      go (some t) h = cc

hidden_student : (u : User) (s : Student) → shown u (some s) ≡ none → hides u s ≡ true
hidden_student u s h = ground arith

module _ (env : ℕ → Moment) (u : User) where
  transcript_student-hidden :
      (floats : Rounding) (k : ℕ) (r : Option Student)
      → shown u r ≡ none
      → transcript_student env u floats k r ≡ pure student_not_found
  unfolding transcript_student
  transcript_student-hidden floats k none h = refl
  transcript_student-hidden floats k (some s) h = rw (hidden_student u s h) refl

  export_student-hidden :
      (pg : Postgres) (k : ℕ) (r : Option Student)
      → shown u r ≡ none
      → export_student env u pg k r ≡ pure student_not_found
  unfolding export_student
  export_student-hidden pg k none h = refl
  export_student-hidden pg k (some s) h = rw (hidden_student u s h) refl

  status_job-hidden :
      (k : ℕ) (r : Option Job) → shown_job u r ≡ none → status_job env u k r ≡ pure job_not_found
  unfolding status_job
  status_job-hidden k none h = refl
  status_job-hidden k (some j) h =
      let hidden : hides_job u j ≡ true = ground arith in rw hidden refl

-- If the student of a request for a transcript or an export, or the job of a poll, is not there or is
-- not the caller's, and the first statement meets no fault, then the answer is the same 404 in either
-- case, and the request writes nothing.
pub hidden_rows_404 :
    (env : ℕ → Moment) (u : User) (w : World) (floats : Rounding) (pg : Postgres) (k n : ℕ)
    → (env w.tick).fault ≡ none
    → shown u (get_student k (seen env w)) ≡ none
    → shown_job u (get_job n (seen env w)) ≡ none
    → Answers env w student_not_found (get_transcript_endpoint env u floats k w)
      × Answers env w student_not_found (export_transcript_async env u pg k w)
      × Answers env w job_not_found (get_job_status env u n w)
unfolding get_transcript_endpoint export_transcript_async get_job_status
hidden_rows_404 env u w floats pg k n calm h j = (
  query-Answers env w (get_student k) (transcript_student env u floats k) student_not_found calm
      (transcript_student-hidden env u floats k (get_student k (seen env w)) h),
  query-Answers env w (get_student k) (export_student env u pg k) student_not_found calm
      (export_student-hidden env u pg k (get_student k (seen env w)) h),
  query-Answers env w (get_job n) (status_job env u n) job_not_found calm
      (status_job-hidden env u n (get_job n (seen env w)) j),
)
