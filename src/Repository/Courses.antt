-- ===== src/Repository/Courses.antt =====
-- pkg/repository/course.go: courses, their members, assignments and join codes.
pub mod Membership
use autograder_server.Repository.Users.{indexed_id}
use autograder_server.Repository.Stored.{Created, create_error, created, put_message, read_message}
use autograder_server.Repository.Messages.{CourseMember, Course}
use autograder_server.Repository.Decimal.{atoi, decimal}
use autograder_server.Repository.Codec.{Codec}
use autograder_server.Repository.Prefix.{big_endian_uint64, prefix_iter_options, uint64_to_bytes}
use autograder_server.Repository.Pebble.{Entries, Pebble}
use autograder_server.Repository.Keys.{numbered}
use autograder_server.Repository.Sequencer.{
  next_id, next_id, get_next_id, NextId, KvSequencer, out_of_fuel, write_error, next_id,
}
use autograder_server.Base.{
  if◌then◌else◌, drop, length, codes, ◌++◌, Bool, Option, List, ℕ, ◌∷◌, [], some, none, ◌>>=◌,
}

unfoldable pub get_course_id_key : ℕ → List ℕ
get_course_id_key id = codes "course:id:" ++ decimal id

unfoldable pub get_join_code_key : List ℕ → List ℕ
get_join_code_key join_code = codes "course:join_code:" ++ join_code

unfoldable pub get_user_prefix : ℕ → List ℕ
get_user_prefix course_id = numbered (codes "course:users:") course_id []

unfoldable pub get_user_key : ℕ → ℕ → List ℕ
unfolding get_user_prefix
get_user_key course_id user_id = get_user_prefix course_id ++ uint64_to_bytes user_id

unfoldable pub get_course_assignment_prefix : ℕ → List ℕ
get_course_assignment_prefix course_id = numbered (codes "course:assignments:") course_id []

unfoldable pub get_course_assignment_key : ℕ → ℕ → List ℕ
unfolding get_course_assignment_prefix
get_course_assignment_key course_id assignment_id =
    get_course_assignment_prefix course_id ++ uint64_to_bytes assignment_id

module _ (p : Pebble) (cs : Codec Course) (ms : Codec CourseMember) where
  open p use {Db, get, put, delete, scan}

  abbrev id_or_zero : Option ℕ → ℕ
  id_or_zero none = 0
  id_or_zero (some id) = id

  unfoldable pub courses_of : Entries → Option (List (Course × ℕ))
  courses_of [] = some []
  courses_of ((key, raw) ∷ r) = do
    course ← cs.unmarshal raw
    courses ← courses_of r
    some ((course, id_or_zero (atoi (drop (length (codes "course:id:")) key))) ∷ courses)

  unfoldable pub get_all_courses : Db → Option (List (Course × ℕ))
  unfolding courses_of
  get_all_courses d = do
    entries ← scan d (prefix_iter_options (codes "course:id:"))
    courses_of entries

  unfoldable pub remove_user : Db → ℕ → ℕ → Db × Bool
  remove_user d course_id user_id = delete d (get_user_key course_id user_id)

  unfoldable pub add_assignment : Db → ℕ → ℕ → Db × Bool
  add_assignment d course_id assignment_id =
      put d (get_course_assignment_key course_id assignment_id) []

  abbrev ids_of : ℕ → Entries → List ℕ
  ids_of prefix_len [] = []
  ids_of prefix_len ((key, raw) ∷ r) = big_endian_uint64 (drop prefix_len key) ∷ ids_of prefix_len r

  -- No ids when the iterator fails.
  unfoldable pub scan_ids : Db → List ℕ → List ℕ
  scan_ids d prefix = elim (scan d (prefix_iter_options prefix)) [
    | none ↦ []
    | some entries ↦ ids_of (length prefix) entries
  ]

  unfoldable pub get_assignments_by_course : Db → ℕ → List ℕ
  unfolding scan_ids
  get_assignments_by_course d course_id = scan_ids d (get_course_assignment_prefix course_id)

  unfoldable pub course_members : Entries → Option (List CourseMember)
  course_members [] = some []
  course_members ((key, raw) ∷ r) = do
    member ← ms.unmarshal raw
    members ← course_members r
    some (member ∷ members)

  unfoldable pub get_users_by_course : Db → ℕ → Option (List CourseMember)
  unfolding course_members
  get_users_by_course d course_id = do
    entries ← scan d (prefix_iter_options (get_user_prefix course_id))
    course_members entries

  unfoldable pub add_user : Db → CourseMember → Db × Bool
  add_user d m = put_message p ms d (get_user_key m.course_id m.user_id) (ms.marshal m)

  unfoldable pub bind_join_code : Db → List ℕ → ℕ → Db × Bool
  bind_join_code d join_code course_id =
      put d (get_join_code_key join_code) (uint64_to_bytes course_id)

  unfoldable pub unbind_join_code : Db → List ℕ → Db × Bool
  unbind_join_code d join_code = delete d (get_join_code_key join_code)

  unfoldable pub get_course_id_by_join_code : Db → List ℕ → Option ℕ
  get_course_id_by_join_code d join_code = indexed_id (get d (get_join_code_key join_code))

  unfoldable pub update_course : Db → ℕ → Course → Db × Bool
  update_course d id course = put_message p cs d (get_course_id_key id) (cs.marshal course)

  unfoldable pub create_numbered : Db × KvSequencer × NextId → Course → Db × KvSequencer × Created
  unfolding update_course
  create_numbered (d, q, next_id id) course =
      let (d', ok) = update_course d id course in (d', q, if ok then created id else create_error)
  create_numbered (d, q, write_error) course = (d, q, create_error)
  create_numbered (d, q, out_of_fuel) course = (d, q, create_error)

  unfoldable pub create_course : Db → KvSequencer → Course → Db × KvSequencer × Created
  create_course d q course = create_numbered (get_next_id p 2 d q) course

  unfoldable pub get_course : Db → ℕ → Option Course
  get_course d id = read_message p cs (get d (get_course_id_key id))
