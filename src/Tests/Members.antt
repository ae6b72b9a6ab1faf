-- ===== src/Tests/Members.antt =====
-- Users, courses, leaderboards and verification codes in memory.
use autograder_server.Repository.Users.Index.{create_user-found}
use autograder_server.Repository.Decimal.{decimal}
use autograder_server.Service.CourseMembers.Agreement.{Agrees, listed_member}
use autograder_server.Repository.Prefix.{big_endian_uint64, uint64_to_bytes}
use autograder_server.Service.CourseMembers.Joining.{
  update_course_member-Agrees, member_at, join_course-IsJoined, IsJoined,
}
use autograder_server.Tests.Batch.{batches, counter_codec}
use autograder_server.Tests.Codecs.{plain_user, member_codec, user_codec, course_codec}
use autograder_server.Repository.Codec.{Codec}
use autograder_server.Repository.Courses.{
  get_user_prefix, get_course_id_by_join_code, get_join_code_key, get_user_key, add_user,
  get_course_id_key, get_course,
}
use autograder_server.Repository.VerificationCode.Once.{Event, validate-once, stored_code}
use autograder_server.Repository.VerificationCode.Once
use autograder_server.Tests.Store.{in_memory}
use autograder_server.Repository.Pebble.{Entries}
use autograder_server.Repository.Sequencer.{get_next_id, KvSequencer}
use autograder_server.Repository.Leaderboard.Marker.{delete_leaderboard_entry-IsMarked, IsMarked}
use autograder_server.Repository.Leaderboard.{
  delete_leaderboard_entry, get_marker_id, get_assignment_prefix, get_assignment_user_key,
}
use autograder_server.Repository.Users.{
  get_user_by_email, add_course, get_course_prefix, get_course_key, get_user_by_username,
  create_user, get_course_member,
}
use autograder_server.Repository.Messages.{
  ta, as_time, student, VerificationCodeMetadata, CourseMember, Course,
}
use autograder_server.Repository.VerificationCode.{
  delete_code, check_code, read_error, checked, get_prefix, get_key, issue,
}
use autograder_server.Service.CourseMembers.{update_course_member, add_both, join_course}
use autograder_server.Repository.Stored.{created, created, Created, created}
use autograder_server.Service.Model.{done, done, Outcome, done}
use autograder_server.Base.{
  ◌⊎◌, false, ◌==◌, if◌then◌else◌, ◌^◌, ◌<◌, ◌&&◌, bytes_eq, ◌≤◌, codes, eq_of_some, subst, Option,
  List, ℕ, arith, ◌∷◌, [], some, none, true, refl, ◌≡◌,
}

-- Course 2 is open to the code K.
abbrev one_course : Entries
one_course =
    (get_course_id_key 2, codes "K") ∷ (get_join_code_key (codes "K"), uint64_to_bytes 2) ∷ []

no_members :
    (u c : ℕ)
    → get_course_member in_memory counter_codec user_codec member_codec batches one_course u c
      ≡ listed_member in_memory counter_codec user_codec member_codec course_codec batches
          one_course c u
unfolding get_course_member get_course_key get_course_prefix get_user_key get_user_prefix
    get_course_id_key get_join_code_key bytes_eq
no_members u c = refl

abbrev joined : Entries × Outcome ℕ
joined =
    join_course in_memory counter_codec user_codec member_codec course_codec batches (λ code. 0)
      one_course 3 (codes "K")

has_joined : joined.1 ≡ done 2
unfolding join_course add_both add_course add_user get_course get_course_id_by_join_code
    get_course_member get_course_key get_course_prefix get_user_key get_user_prefix
    get_course_id_key get_join_code_key bytes_eq uint64_to_bytes big_endian_uint64 decimal
has_joined = refl

join_course-IsJoined_example :
    ((target : Course) × (get_course in_memory course_codec member_codec one_course 2 ≡ some target)
      × (target.allows_join ≡ true)
      × (target.join_code ≡ codes "K"))
    × IsJoined in_memory counter_codec user_codec member_codec course_codec batches one_course
        joined.0 3 2
join_course-IsJoined_example =
    join_course-IsJoined in_memory counter_codec user_codec member_codec course_codec batches
      (λ code. 0) one_course 3 2 (codes "K") (omega arith) (omega arith)
      (λ u c su sc. no_members u c) has_joined

abbrev student_3 : CourseMember
student_3 = record { user_id = 3; role = student; course_id = 2 }

abbrev sequencer_5 : KvSequencer
sequencer_5 = record { key = codes "user:next_id"; next = 5; limit = 11 }

abbrev created_5 : Entries × KvSequencer × Created
created_5 =
    create_user in_memory counter_codec user_codec member_codec batches [] sequencer_5
      (plain_user 120 121 none) 9

is_created : created_5.2 ≡ created 5
unfolding create_user get_next_id
is_created = refl

create_user-found_example :
    (get_user_by_username in_memory counter_codec user_codec member_codec batches created_5.0
        (120 ∷ [])
      ≡ some (plain_user 120 121 (some 9), 5))
    × (get_user_by_email in_memory counter_codec user_codec member_codec batches created_5.0
          (121 ∷ [])
        ≡ some (plain_user 120 121 (some 9), 5))
create_user-found_example =
    create_user-found in_memory counter_codec user_codec member_codec batches [] sequencer_5
      (plain_user 120 121 none) 9 5 refl (omega arith) is_created

-- No entry, and the marker of assignment 5.
abbrev marked : Entries
marked = (get_marker_id 5, []) ∷ []

is_marked : IsMarked in_memory marked
unfolding get_assignment_user_key get_assignment_prefix get_marker_id bytes_eq
is_marked b v s = cc

delete_leaderboard_entry-IsMarked_example :
    IsMarked in_memory (delete_leaderboard_entry in_memory marked 5 3).0
delete_leaderboard_entry-IsMarked_example =
    delete_leaderboard_entry-IsMarked in_memory marked 5 3 is_marked

abbrev code_read : List ℕ → Option VerificationCodeMetadata
code_read (i ∷ e ∷ code) = some (record { code = code; issued_at = some i; expired_at = some e })
code_read _ = none

abbrev code_raw : List ℕ → Option ℕ → Option ℕ → Option (List ℕ)
code_raw code (some i) (some e) = some (i ∷ e ∷ code)
code_raw code none e = none
code_raw code (some i) none = none

code_back :
    (code : List ℕ) (i e : Option ℕ) (raw : List ℕ)
    → code_raw code i e ≡ some raw
    → code_read raw ≡ some (record { code = code; issued_at = i; expired_at = e })
code_back code (some i) (some e) raw h =
    subst (λ t. code_read t ≡ code_read (i ∷ e ∷ code)) (eq_of_some h) refl
code_back code none e raw h = cc
code_back code (some i) none raw h = cc

code_codec : Codec VerificationCodeMetadata
code_codec = record {
  marshal = λ m. code_raw m.code m.issued_at m.expired_at;
  unmarshal = code_read;
  unmarshal-marshal = λ m raw e. code_back m.code m.issued_at m.expired_at raw e;
}

abbrev issued : Entries
issued = (issue in_memory code_codec [] (codes "t") (codes "k") (codes "1") 10 0).0

is_accepted :
    (check_code in_memory code_codec issued (codes "t") (codes "k") (codes "1") 5).0 ≡ checked true
unfolding issue check_code code_codec get_key get_prefix bytes_eq
is_accepted = refl

validate-once_example :
    ((metadata : VerificationCodeMetadata) × (stored_code in_memory code_codec issued
          (codes "t")
          (codes "k")
        ≡ some metadata)
      × (metadata.code ≡ codes "1")
      × (5 ≤ as_time metadata.expired_at))
    × (((in_memory.delete issued (get_key (codes "t") (codes "k"))).1 ≡ false)
        ⊎ ((es : List (Event in_memory code_codec)) (other : List ℕ) (later : ℕ)
            → let after =
                delete_code in_memory code_codec issued
                  (codes "t")
                  (codes "k")
                  (check_code in_memory code_codec issued
                    (codes "t")
                    (codes "k")
                    (codes "1")
                    5).1 in
              (check_code in_memory code_codec
                (Once.run in_memory code_codec after es)
                (codes "t")
                (codes "k")
                other
                later).0
              ≡ read_error))
validate-once_example =
    validate-once in_memory code_codec issued issued (codes "t") (codes "k") (codes "1") 5
      is_accepted

joined-Agrees : Agrees in_memory counter_codec user_codec member_codec course_codec batches joined.0
joined-Agrees =
    (join_course-IsJoined in_memory counter_codec user_codec member_codec course_codec batches
      (λ code. 0) one_course 3 2 (codes "K") (omega arith) (omega arith)
      (λ u c su sc. no_members u c) has_joined).1.0

is_student :
    member_at in_memory counter_codec user_codec member_codec course_codec batches joined.0 3 2
    ≡ some student_3
unfolding join_course add_both add_course add_user get_course get_course_id_by_join_code
    get_course_member get_course_key get_course_prefix get_user_key get_user_prefix
    get_course_id_key get_join_code_key bytes_eq uint64_to_bytes big_endian_uint64 decimal
is_student = refl

abbrev promoted : Entries × Outcome Unit
promoted =
    update_course_member in_memory counter_codec user_codec member_codec course_codec batches
      joined.0 2 3 ta

is_promoted : promoted.1 ≡ done tt
unfolding update_course_member join_course add_both add_course add_user get_course
    get_course_id_by_join_code get_course_member get_course_key get_course_prefix get_user_key
    get_user_prefix get_course_id_key get_join_code_key bytes_eq uint64_to_bytes big_endian_uint64
    decimal
is_promoted = refl

update_course_member-Agrees_example :
    Agrees in_memory counter_codec user_codec member_codec course_codec batches promoted.0
    × ((u c : ℕ)
        → u < 2 ^ 64
        → c < 2 ^ 64
        → member_at in_memory counter_codec user_codec member_codec course_codec batches promoted.0
            u c
          ≡ (if 3 == u && 2 == c
              then some (record { user_id = 3; role = ta; course_id = 2 })
              else member_at in_memory counter_codec user_codec member_codec course_codec batches
                  joined.0 u c))
update_course_member-Agrees_example =
    update_course_member-Agrees in_memory counter_codec user_codec member_codec course_codec batches
      joined.0 2 3 ta student_3 (omega arith) (omega arith) joined-Agrees is_student refl refl
      is_promoted
