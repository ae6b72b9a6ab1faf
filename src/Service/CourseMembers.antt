-- ===== src/Service/CourseMembers.antt =====
-- pkg/grpc/course.go: courses and their members, who are listed under the user and under the
-- course.
pub mod Agreement
pub mod Joining
pub mod Codes
use autograder_server.Service.Access.{is_staff}
use autograder_server.Repository.Users.{get_course_member, remove_course_member, add_course}
use autograder_server.Repository.Sequencer.{KvSequencer}
use autograder_server.Repository.Courses.{
  unbind_join_code, create_course, remove_user, add_user, get_course, get_course_id_by_join_code,
  bind_join_code, update_course,
}
use autograder_server.Repository.Batch.{Batches}
use autograder_server.Repository.Merger.{Mergeable}
use autograder_server.Repository.Codec.{Codec}
use autograder_server.Repository.Pebble.{Pebble}
use autograder_server.Repository.Messages.{
  CourseRole, Course, CourseMember, User, instructor, student,
}
use autograder_server.Repository.Stored.{created, Created, create_error, created}
use autograder_server.Service.Model.{
  Outcome, refused, done, ErrorCode, Code, code_update_course, code_get_course, code_create_course,
  code_description, code_short_name, code_name, code_member_not_found, code_add_user,
  code_add_course, code_already_in_course, code_invalid_join_code, code_invalid_course_id,
  already_exists, internal, not_found, invalid_argument,
}
use autograder_server.Base.{
  ◌&&◌, bytes_eq, ◌||◌, ◌==◌, length, not, if◌then◌else◌, Bool, Option, List, ℕ, ◌∷◌, [], some,
  none, false, true, ◌≡◌,
}

module _ (p : Pebble) (cm : Codec Mergeable) (us : Codec User) (ms : Codec CourseMember)
    (cs : Codec Course) (b : Batches cm p) where
  open p use {Db}

  -- `AddCourse` and then `AddUser`, with the code of their errors.
  unfoldable pub add_both : Db → CourseMember → Code → Db × Outcome Unit
  add_both d m code =
      let (d', ok) = add_course p cm us ms b d m in
      let (d'', ok') = add_user p cs ms d' m in
      if not ok
      then (d', refused code code_add_course)
      else if not ok'
      then (d'', refused code code_add_user)
      else (d'', done tt)

  abbrev update_found : Db → CourseRole → Option CourseMember → Db × Outcome Unit
  update_found d role none = (d, refused not_found code_member_not_found)
  update_found d role (some m) = add_both d (record m { role = role }) invalid_argument

  unfoldable pub update_course_member : Db → ℕ → ℕ → CourseRole → Db × Outcome Unit
  unfolding add_both
  update_course_member d course user role =
      update_found d role (get_course_member p cm us ms b d user course)

  -- Errors of the removals are logged.
  unfoldable pub remove_course_members : Db → ℕ → ℕ → List ℕ → Db × List ℕ
  remove_course_members d current course [] = (d, [])
  remove_course_members d current course (user ∷ r) =
      let skipped = remove_course_members d current course r in
      let d' = (remove_course_member p cm us ms b d user course).0 in
      let d'' = (remove_user p cs ms d' course user).0 in
      let (d''', removed) = remove_course_members d'' current course r in
      if current == user then skipped else (d''', user ∷ removed)

  abbrev join_new : Db → ℕ → ℕ → Option CourseMember → Db × Outcome ℕ
  join_new d course user (some m) = (d, refused already_exists code_already_in_course)
  join_new d course user none =
      let (d', result) =
        add_both d (record { user_id = user; role = student; course_id = course }) internal in
      (d', elim result [ done u ↦ done course | refused code error ↦ refused code error ])

  abbrev join_found : Db → ℕ → ℕ → List ℕ → Option Course → Db × Outcome ℕ
  join_found d course user join_code none = (d, refused invalid_argument code_invalid_course_id)
  join_found d course user join_code (some c) =
      if not c.allows_join || not (bytes_eq c.join_code join_code)
      then (d, refused invalid_argument code_invalid_join_code)
      else join_new d course user (get_course_member p cm us ms b d user course)

  abbrev or_decoded : Option ℕ → ℕ → ℕ
  or_decoded none decoded = decoded
  or_decoded (some id) decoded = id

  -- `decode` is `Base30Decode`.
  unfoldable pub join_course : (List ℕ → ℕ) → Db → ℕ → List ℕ → Db × Outcome ℕ
  unfolding add_both
  join_course decode d user join_code =
      let course = or_decoded (get_course_id_by_join_code p cs ms d join_code) (decode join_code) in
      join_found d course user join_code (get_course p cs ms d course)

  abbrev created_course : Db × KvSequencer × Created → ℕ → Course → Db × KvSequencer × Outcome ℕ
  created_course (d, q, create_error) user course = (d, q, refused internal code_create_course)
  created_course (d, q, created id) user course =
      let m : CourseMember = record { user_id = user; role = instructor; course_id = id } in
      let (d', ok) = add_user p cs ms d m in
      let (d'', ok') = add_course p cm us ms b d' m in
      if not ok
      then (d', q, refused internal code_add_user)
      else if not ok'
      then (d'', q, refused internal code_add_course)
      else (d'', q, done id)

  unfoldable pub create_course_checked :
      Db → KvSequencer → ℕ → List ℕ → List ℕ → List ℕ → Db × KvSequencer × Outcome ℕ
  create_course_checked d q user name short_name description =
      let course : Course = record {
        name = name;
        short_name = short_name;
        term = [];
        description = description;
        join_code = [];
        allows_join = false;
      } in
      if length name == 0
      then (d, q, refused invalid_argument code_name)
      else if length short_name == 0
      then (d, q, refused invalid_argument code_short_name)
      else if length description == 0
      then (d, q, refused invalid_argument code_description)
      else created_course (create_course p cs ms d q course) user course

  -- The join code of the course is shown to its staff only.
  unfoldable pub shown_course : Course → CourseRole → Course
  shown_course course role = if is_staff role then course else record course { join_code = [] }

  abbrev updated : Db × Bool → Db × Outcome Unit
  updated (d, false) = (d, refused internal code_update_course)
  updated (d, true) = (d, done tt)

  abbrev allows_found : Db → ℕ → Bool → Option Course → Db × Outcome Unit
  allows_found d id allows none = (d, refused internal code_get_course)
  allows_found d id allows (some course) =
      updated (update_course p cs ms d id (record course { allows_join = allows }))

  unfoldable pub change_allows_join_course : Db → ℕ → Bool → Db × Outcome Unit
  change_allows_join_course d id allows = allows_found d id allows (get_course p cs ms d id)

  abbrev described : Db → ℕ → List ℕ → List ℕ → List ℕ → Option Course → Db × Outcome Unit
  described d id name short_name description none = (d, refused not_found code_invalid_course_id)
  described d id name short_name description (some course) = updated (
      update_course p cs ms d id
        (record course { name = name; short_name = short_name; description = description }))

  unfoldable pub update_course_fields : Db → ℕ → List ℕ → List ℕ → List ℕ → Db × Outcome Unit
  update_course_fields d id name short_name description =
      described d id name short_name description (get_course p cs ms d id)

  abbrev rebound : Db × Bool → ℕ → List ℕ → Db × Outcome (List ℕ)
  rebound (d, false) id code = (d, refused internal code_update_course)
  rebound (d, true) id code =
      let (d', ok) = bind_join_code p cs ms d code id in
      (d', if ok then done code else refused internal code_update_course)

  abbrev generated : Db → ℕ → List ℕ → Option Course → Db × Outcome (List ℕ)
  generated d id code none = (d, refused internal code_get_course)
  generated d id code (some course) =
      let d' =
        if not (length course.join_code == 0) && not (bytes_eq course.join_code code)
        then (unbind_join_code p cs ms d course.join_code).0
        else d in
      rebound (update_course p cs ms d' id (record course { join_code = code })) id code

  -- `code` is what `Base30Encode` returns for the id.
  unfoldable pub generate_join_code : Db → ℕ → List ℕ → Db × Outcome (List ℕ)
  generate_join_code d id code = generated d id code (get_course p cs ms d id)
