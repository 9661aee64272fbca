-- ===== src/Crud/Catalogue/Schedules.antt =====
-- app/crud/courseschedule.py: a table whose create and update check the order of the times first.
use system_uni.Prelude.{
  ℕ, refl, String, Option, none, some, Bool, true, false, ◌&&◌, ◌==◌, str_eq, is_none, or_else,
  if◌then◌else◌,
}
use system_uni.Models.{CourseSchedule, Postgres}
use system_uni.Session.{Session, Moment, query, pure, raise, ◌>>=◌, type_error}
use system_uni.Worker.Failure.{codes}
use system_uni.Crud.Times.{Time, naive, is_not_after, equals_stored, stored_clock}
use system_uni.Crud.Columns.{net}
use system_uni.Crud.Response.{Response, http_error}
use system_uni.Crud.Catalogue.{Table, get_row, create_row, update_found}

pub record CourseScheduleCreate : Type 0 where
  pub day : String
  pub schedule_type : String
  pub start_time : Time
  pub end_time : Time
  pub room : String
  pub course_offering_id : ℕ

pub record CourseScheduleUpdate : Type 0 where
  pub day : Option String
  pub schedule_type : Option String
  pub start_time : Option Time
  pub end_time : Option Time
  pub room : Option String
  pub course_offering_id : Option ℕ

-- `new_course_schedule`, before the server gives the key and the time.
abbrev pub new_schedule : CourseScheduleCreate → Moment → CourseSchedule
new_schedule c m = record {
  id = m.serial;
  day = c.day;
  schedule_type = c.schedule_type;
  start_time = c.start_time.clock;
  end_time = c.end_time.clock;
  room = c.room;
  course_offering_id = c.course_offering_id;
  created_at = m.now;
}

abbrev pub net_time : Option Time → ℕ → Option Time
net_time none old = none
net_time (some t) old = if equals_stored t old then none else some t

abbrev pub net_schedule : CourseScheduleUpdate → CourseSchedule → CourseScheduleUpdate
net_schedule u r = record {
  day = net str_eq u.day r.day;
  schedule_type = net str_eq u.schedule_type r.schedule_type;
  start_time = net_time u.start_time r.start_time;
  end_time = net_time u.end_time r.end_time;
  room = net str_eq u.room r.room;
  course_offering_id = net ◌==◌ u.course_offering_id r.course_offering_id;
}

abbrev pub write_schedule : CourseScheduleUpdate → CourseSchedule → CourseSchedule
write_schedule u r = record r {
  day = or_else u.day r.day;
  schedule_type = or_else u.schedule_type r.schedule_type;
  start_time = stored_clock u.start_time r.start_time;
  end_time = stored_clock u.end_time r.end_time;
  room = or_else u.room r.room;
  course_offering_id = or_else u.course_offering_id r.course_offering_id;
}

abbrev pub course_schedules : Table CourseSchedule CourseScheduleCreate CourseScheduleUpdate
course_schedules = record {
  rows = λ d. d.schedules;
  with_rows = λ xs d. record d { schedules = xs };
  detach = λ k d. d;
  key = λ r. r.id;
  make = new_schedule;
  net_update = net_schedule;
  is_empty = λ u.
      is_none u.day
      && (is_none u.schedule_type
          && (is_none u.start_time
              && (is_none u.end_time && (is_none u.room && is_none u.course_offering_id))));
  write = write_schedule;
  not_found = "Course schedule not found";
  create_conflict = "Schedule conflict or constraint violation";
  update_conflict = "Schedule conflict or constraint violation";
  invalid = "Invalid course schedule data";
  delete_conflict = "Cannot delete course schedule due to constraints";
  deleted = "Course schedule deleted successfully";
  rows-with_rows = λ xs d. refl;
  key-write = λ u r. refl;
}

-- What the call does: it returns, or raises an HTTPException or a TypeError.
pub data OrderCheck : Type 0 where
  in_order out_of_order not_comparable : OrderCheck

abbrev pub order_of : Option Bool → OrderCheck
order_of none = not_comparable
order_of (some true) = out_of_order
order_of (some false) = in_order

unfoldable pub ensure_time_order : Time → Time → OrderCheck
ensure_time_order start_time end_time = order_of (is_not_after end_time start_time)

-- The error, or what follows.
abbrev pub unless :
    OrderCheck → Session (Response CourseSchedule) → Session (Response CourseSchedule)
unless in_order rest = rest
unless out_of_order rest = pure (http_error 422 "end_time must be strictly after start_time")
unless not_comparable rest =
    raise (type_error (codes "can't compare offset-naive and offset-aware times"))

-- A `time` is always true in Python, so `or` falls back just where none is given.
unfoldable pub update_order : CourseScheduleUpdate → CourseSchedule → OrderCheck
update_order u s =
    ensure_time_order (or_else u.start_time (naive s.start_time))
      (or_else u.end_time (naive s.end_time))

module _ (env : ℕ → Moment) (pg : Postgres) where
  unfoldable pub create_course_schedule : CourseScheduleCreate → Session (Response CourseSchedule)
  create_course_schedule c =
      unless (ensure_time_order c.start_time c.end_time) (create_row course_schedules env pg c)

  unfoldable pub schedule_found :
      CourseScheduleUpdate → ℕ → Option CourseSchedule → Session (Response CourseSchedule)
  schedule_found u k none = update_found course_schedules env pg u k none
  schedule_found u k (some s) =
      unless (update_order u s) (update_found course_schedules env pg u k (some s))

  unfoldable pub update_course_schedule :
      CourseScheduleUpdate → ℕ → Session (Response CourseSchedule)
  update_course_schedule u k = query env (get_row course_schedules k) >>= schedule_found u k
