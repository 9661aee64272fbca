-- ===== src/Crud/Students/Tests.antt =====
-- The theorems on app/crud/student.py at concrete inputs.
use system_uni.Prelude.{some, none, false, [], ◌∷◌, ◌≡◌, refl}
use system_uni.Models.{
  constraints, students_ok, colleges_ok, departments_ok, courses_ok, teachers_ok, offerings_ok,
  schedules_ok, enrollments_ok, jobs_ok, reports_ok, users_ok,
}
use system_uni.Session.{Holds}
use system_uni.Crud.Students.{StudentColumns, flush_student, write_student}
use system_uni.Crud.Students.Versions.{Replaces, flush_student_first_wins, flush_student-Replaces}
use system_uni.Worker.Sample.{quiet, strict}
use system_uni.Crud.Response.{flush, written, stale}
use system_uni.Crud.Students.{write_loaded}
use system_uni.Crud.Students.Links.{link_columns}
use system_uni.Crud.Students.Links.Laws.{Links, write_loaded-Links}
use system_uni.Crud.Students.Reads
use system_uni.Crud.Students.Reads.{Redis, Read, read_student, read_student-Shows}
use system_uni.Crud.Students.Cache.{Cached, load, store, start, after, IsFresh, cold, Run-IsFresh}
use system_uni.Crud.Sample.{ada, student, campus, world}

abbrev renamed : StudentColumns
renamed = record {
  name = some "Ada L.";
  age = none;
  email = none;
  department_id = none;
  user_id = none;
}

abbrev older : StudentColumns
older = record renamed { name = none; age = some 21 }

first_commits : (flush strict (flush_student 4 1 renamed campus) campus).0 ≡ written tt
unfolding flush_student write_student constraints users_ok students_ok colleges_ok departments_ok
    courses_ok teachers_ok offerings_ok schedules_ok enrollments_ok jobs_ok reports_ok
first_commits = refl

flush_student_first_wins_example :
    let d' = (flush strict (flush_student 4 1 renamed campus) campus).1 in
    flush strict (flush_student 4 1 older d') d' ≡ (stale, d')
flush_student_first_wins_example =
    flush_student_first_wins strict 4 1 renamed older campus refl refl first_commits

flush_student-Replaces_example :
    let (r, d') = flush strict (flush_student 4 1 renamed campus) campus in
    Replaces 4 1 renamed campus r d'
flush_student-Replaces_example =
    flush_student-Replaces strict 4 1 renamed campus (unfold students_ok in refl) refl

write_loaded-Links_example :
    Holds (Links 4 1) (write_loaded quiet strict (link_columns 1) student world)
write_loaded-Links_example = (write_loaded-Links quiet strict student 1).ensured world

abbrev offline : Redis
offline = record { connected = false; cached = λ k. none }

read_student-Shows_example :
    Holds
      (λ (r : Read) d. system_uni.Crud.Students.Reads.Shows offline 4 ada r.response d)
      (read_student quiet offline 4 ada world)
read_student-Shows_example = (read_student-Shows quiet offline 4 ada).ensured world

abbrev loaded_once : Cached
loaded_once = record (cold (some student)) { loads = student ∷ [] }

abbrev warm : Cached
warm = record (cold (some student)) { entry = some student }

Run-IsFresh_example : IsFresh warm
Run-IsFresh_example =
    Run-IsFresh (some student)
      (after {d = loaded_once} (after {d = cold (some student)} start (load student refl refl) refl)
        (store [] [] student refl refl) refl)
      refl
