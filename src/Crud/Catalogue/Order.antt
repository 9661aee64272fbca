-- ===== src/Crud/Catalogue/Order.antt =====
-- The order of the times in `update_course_schedule` of app/crud/courseschedule.py.
use system_uni.Prelude.{
  ℕ, suc, ◌≡◌, refl, ◌∙◌, ap, Option, none, some, Bool, true, false, ◌⊎◌, inl, inr, or_else, ltb,
  arith,
}
use system_uni.Models.{CourseSchedule, Postgres, constraints, in_time_order}
use system_uni.Session.{
  World, Outcome, ok, raised, Moment, pure, raise, ◌>>=◌, query, type_error, IsCalm,
  statement-IsCalm,
}
use system_uni.Worker.Failure.{codes}
use system_uni.Crud.Times.{Time, naive, is_not_after, stored_clock}
use system_uni.Crud.Response.{Response, http_error}
use system_uni.Crud.Catalogue.{get_row}
use system_uni.Crud.Catalogue.Updates.{updating, update_found-updating}
use system_uni.Crud.Catalogue.Assignments.{assign_course_schedule}
use system_uni.Crud.Catalogue.Keys.{course_schedules-Keyed}
use system_uni.Crud.Catalogue.Schedules.{
  CourseScheduleUpdate, course_schedules, OrderCheck, in_order, out_of_order, not_comparable,
  ensure_time_order, update_order, order_of, schedule_found, update_course_schedule,
}

abbrev pub has_offset : Option Time → Bool
has_offset none = false
has_offset (some t) = elim t.offset [ none ↦ false | some o ↦ true ]

module _ (pg : Postgres) (u : CourseScheduleUpdate) (k : ℕ) (w : World) where
  -- The update, if the row with the assigned times would be in order, and else the error, before any
  -- write.
  abbrev pub if_in_order : Bool → CourseSchedule → Outcome (Response CourseSchedule) × World
  if_in_order true s = updating course_schedules assign_course_schedule pg (some s) u k w
  if_in_order false s = (
    ok (http_error 422 "end_time must be strictly after start_time"),
    record { db = w.db; tick = suc w.tick },
  )

  abbrev pub ordering : Option CourseSchedule → Outcome (Response CourseSchedule) × World
  ordering none = updating course_schedules assign_course_schedule pg none u k w
  ordering (some s) = if_in_order (in_time_order (assign_course_schedule u s)) s

abbrev checked : Bool → OrderCheck
checked true = in_order
checked false = out_of_order

or_else-stored :
    (u : Option Time) (old : ℕ)
    → has_offset u ≡ false
    → or_else u (naive old) ≡ naive (stored_clock u old)
or_else-stored none old h = refl
or_else-stored (some t) old h = go t.offset refl
  where
    clash : {o : ℕ} → t.offset ≡ some o → ⊥
    clash e = let k : true ≡ false = rw e at h in cc

    go : (o : Option ℕ) → t.offset ≡ o → t ≡ naive t.clock
    go none e = ap (λ (x : Option ℕ). record { clock = t.clock; offset = x }) e
    go (some o) e = absurd (clash e)

ensure_time_order-naive : (a b : ℕ) → ensure_time_order (naive a) (naive b) ≡ checked (ltb a b)
unfolding ensure_time_order
ensure_time_order-naive a b = ground arith

update_order-checked :
    (u : CourseScheduleUpdate) (s : CourseSchedule)
    → has_offset u.start_time ≡ false
    → has_offset u.end_time ≡ false
    → update_order u s ≡ checked (in_time_order (assign_course_schedule u s))
unfolding update_order
update_order-checked u s h k =
    rw (or_else-stored u.start_time s.start_time h, or_else-stored u.end_time s.end_time k)
      (ensure_time_order-naive (stored_clock u.start_time s.start_time)
        (stored_clock u.end_time s.end_time))

-- A time with an offset and a stored one.
mixed_start :
    (u : Option Time) (a b : ℕ)
    → has_offset u ≡ true
    → ensure_time_order (or_else u (naive a)) (naive b) ≡ not_comparable
unfolding ensure_time_order
mixed_start none a b h = cc
mixed_start (some t) a b h = go t.offset refl
  where
    go : (o : Option ℕ) → t.offset ≡ o → order_of (is_not_after (naive b) t) ≡ not_comparable
    go none e = let k : false ≡ true = rw e at h in cc
    go (some o) e = rw e refl

mixed_end :
    (u : Option Time) (a b : ℕ)
    → has_offset u ≡ true
    → ensure_time_order (naive a) (or_else u (naive b)) ≡ not_comparable
unfolding ensure_time_order
mixed_end none a b h = cc
mixed_end (some t) a b h = go t.offset refl
  where
    go : (o : Option ℕ) → t.offset ≡ o → order_of (is_not_after t (naive a)) ≡ not_comparable
    go none e = let k : false ≡ true = rw e at h in cc
    go (some o) e = rw e refl

update_order-not_comparable :
    (u : CourseScheduleUpdate) (s : CourseSchedule)
    → ((has_offset u.start_time ≡ true) × (u.end_time ≡ none))
      ⊎ ((u.start_time ≡ none) × (has_offset u.end_time ≡ true))
    → update_order u s ≡ not_comparable
unfolding update_order
update_order-not_comparable u s (inl (h, e)) =
    rw e (mixed_start u.start_time s.start_time s.end_time h)
update_order-not_comparable u s (inr (e, h)) = rw e (mixed_end u.end_time s.start_time s.end_time h)

module _ (env : ℕ → Moment) (pg : Postgres) (u : CourseScheduleUpdate) (k : ℕ) (w : World)
    (calm : IsCalm env) where
  update_course_schedule-found :
      update_course_schedule env pg u k w
      ≡ schedule_found env pg u k
          (get_row course_schedules k w.db)
          (record { db = w.db; tick = suc w.tick })
  unfolding update_course_schedule query ◌>>=◌
  update_course_schedule-found =
      ap (λ x. ((λ (v : World). x) >>= schedule_found env pg u k) w)
        (statement-IsCalm env (λ m d. (get_row course_schedules k d, d)) w calm)

  -- `update_course_schedule` with times without an offset, where no other session and no fault
  -- interferes and the state meets the constraints: without the row the answer is 404; if the row with
  -- the given times assigned does not meet the constraint on their order, the answer is 422 and nothing
  -- is written; and else the row is updated by the given columns, as the database's verdict allows.
  pub update_course_schedule-ordering :
      constraints w.db ≡ true
      → has_offset u.start_time ≡ false
      → has_offset u.end_time ≡ false
      → update_course_schedule env pg u k w ≡ ordering pg u k w (get_row course_schedules k w.db)
  update_course_schedule-ordering valid h1 h2 =
      update_course_schedule-found ∙ go (get_row course_schedules k w.db) refl
    where
      found :
          (s : CourseSchedule) (b : Bool)
          → get_row course_schedules k w.db ≡ some s
          → update_order u s ≡ checked b
          → schedule_found env pg u k (some s) (record { db = w.db; tick = suc w.tick })
            ≡ if_in_order pg u k w b s
      found s true e c =
          unfold schedule_found in
          rw c (
            update_found-updating course_schedules assign_course_schedule course_schedules-Keyed env
              pg calm u k w (some s) valid e)
      found s false e c = unfold schedule_found pure in rw c refl

      go :
          (r : Option CourseSchedule)
          → get_row course_schedules k w.db ≡ r
          → schedule_found env pg u k r (record { db = w.db; tick = suc w.tick })
            ≡ ordering pg u k w r
      go none e =
          unfold schedule_found in
          update_found-updating course_schedules assign_course_schedule course_schedules-Keyed env
            pg calm u k w none valid e
      go (some s) e =
          found s (in_time_order (assign_course_schedule u s)) e (update_order-checked u s h1 h2)

  -- If just one time is given, with an offset, and no other session and no fault interferes,
  -- `update_course_schedule` raises a TypeError for any row that is there, and writes nothing: the
  -- stored time has no offset.
  pub update_course_schedule-type_error :
      (s : CourseSchedule)
      → get_row course_schedules k w.db ≡ some s
      → ((has_offset u.start_time ≡ true) × (u.end_time ≡ none))
        ⊎ ((u.start_time ≡ none) × (has_offset u.end_time ≡ true))
      → update_course_schedule env pg u k w ≡ (
        raised (type_error (codes "can't compare offset-naive and offset-aware times")),
        record { db = w.db; tick = suc w.tick },
      )
  update_course_schedule-type_error s there given =
      update_course_schedule-found
      ∙ ap (λ r. schedule_found env pg u k r (record { db = w.db; tick = suc w.tick })) there
      ∙ unfold schedule_found raise in rw (update_order-not_comparable u s given) refl
