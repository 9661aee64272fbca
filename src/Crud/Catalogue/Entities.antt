-- ===== src/Crud/Catalogue/Entities.antt =====
-- The update handlers of app/crud/college.py, course.py, teacher.py, department.py, courseoffering.py
-- and courseschedule.py, without the check of the times of the last.
use system_uni.Models.{College, Course, Teacher, Department, CourseOffering, CourseSchedule}
use system_uni.Crud.Catalogue.{Table}
use system_uni.Crud.Catalogue.Tables.{
  CollegeCreate, CollegeUpdate, CourseCreate, CourseUpdate, TeacherCreate, TeacherUpdate, colleges,
  courses, teachers,
}
use system_uni.Crud.Catalogue.Departments.{DepartmentCreate, DepartmentUpdate, departments}
use system_uni.Crud.Catalogue.Offerings.{
  CourseOfferingCreate, CourseOfferingUpdate, course_offerings,
}
use system_uni.Crud.Catalogue.Schedules.{
  CourseScheduleCreate, CourseScheduleUpdate, course_schedules,
}
use system_uni.Crud.Catalogue.Assignments.{
  assign_college, assign_course, assign_teacher, assign_department, assign_course_offering,
  assign_course_schedule,
}

-- The six tables.
pub data Entity : Type 0 where
  college course teacher department course_offering course_schedule : Entity

abbrev pub Row : Entity → Type 0
Row college = College
Row course = Course
Row teacher = Teacher
Row department = Department
Row course_offering = CourseOffering
Row course_schedule = CourseSchedule

abbrev pub Create : Entity → Type 0
Create college = CollegeCreate
Create course = CourseCreate
Create teacher = TeacherCreate
Create department = DepartmentCreate
Create course_offering = CourseOfferingCreate
Create course_schedule = CourseScheduleCreate

abbrev pub Update : Entity → Type 0
Update college = CollegeUpdate
Update course = CourseUpdate
Update teacher = TeacherUpdate
Update department = DepartmentUpdate
Update course_offering = CourseOfferingUpdate
Update course_schedule = CourseScheduleUpdate

abbrev pub table_of : (e : Entity) → Table (Row e) (Create e) (Update e)
table_of college = colleges
table_of course = courses
table_of teacher = teachers
table_of department = departments
table_of course_offering = course_offerings
table_of course_schedule = course_schedules

abbrev pub assign_columns : (e : Entity) → Update e → Row e → Row e
assign_columns college = assign_college
assign_columns course = assign_course
assign_columns teacher = assign_teacher
assign_columns department = assign_department
assign_columns course_offering = assign_course_offering
assign_columns course_schedule = assign_course_schedule
