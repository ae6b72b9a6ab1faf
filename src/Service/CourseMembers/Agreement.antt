-- ===== src/Service/CourseMembers/Agreement.antt =====
-- The two listings of the members of courses, under the handlers of pkg/grpc/course.go.
use autograder_server.Repository.Users.Membership.{get_course_member-add_course}
use autograder_server.Repository.Courses.Membership.{
  bytes_eq-user_keys, bytes_eq-listings, bytes_eq-listings',
}
use autograder_server.Service.Model.{done, code_add_course, code_add_user, code_add_course}
use autograder_server.Service.CourseMembers.{ErrorCode, add_both, Code}
use autograder_server.Service.Model.{done, Outcome, refused, done}
use autograder_server.Repository.Users.{get_course_key, get_course_member, add_course}
use autograder_server.Repository.Courses.{get_user_key, add_user}
use autograder_server.Repository.Stored.{read-put_message, put_message-other, read_message}
use autograder_server.Repository.Batch.{Batches}
use autograder_server.Repository.Messages.{Course, CourseMember, User}
use autograder_server.Repository.Merger.{Mergeable}
use autograder_server.Repository.Codec.{Codec}
use autograder_server.Repository.Pebble.{Pebble}
use autograder_server.Base.{
  ◌∙◌, Bool-cases, sym, ap, Bool, inr, inl, false, refl, ◌&&◌, ◌==◌, if◌then◌else◌, ◌^◌, ◌<◌,
  Option, ℕ, some, true, ◌≡◌,
}

pub never_done :
    (code : Code) (error : ErrorCode) → Path (Outcome Unit) (refused code error) (done tt) → ⊥
never_done code error e = cc

module _ (p : Pebble) (cm : Codec Mergeable) (us : Codec User) (ms : Codec CourseMember)
    (cs : Codec Course) (b : Batches cm p) where
  open p use {Db, get, delete}

  -- The member that is listed under a course.
  abbrev pub listed_member : Db → ℕ → ℕ → Option CourseMember
  listed_member d course user = read_message p ms (get d (get_user_key course user))

  abbrev pub Agrees : Db → Type 0
  Agrees d =
      (u c : ℕ)
      → u < 2 ^ 64
      → c < 2 ^ 64
      → get_course_member p cm us ms b d u c ≡ listed_member d c u

  -- A member that is read of a store where the two listings are one.
  abbrev pub Reads : Db → ℕ → ℕ → Option CourseMember → Type 0
  Reads d u c o = (get_course_member p cm us ms b d u c ≡ o) × (listed_member d c u ≡ o)

  same_read :
      (x y : Bool) (o o' : Option CourseMember)
      → o ≡ o'
      → (m : Option CourseMember) → (if y && x then m else o') ≡ (if x && y then m else o)
  same_read true true o o' e m = refl
  same_read true false o o' e m = sym e
  same_read false true o o' e m = sym e
  same_read false false o o' e m = sym e

  pub added-Reads :
      (d : Db) (m : CourseMember) (u c : ℕ)
      → m.user_id < 2 ^ 64
      → m.course_id < 2 ^ 64
      → u < 2 ^ 64
      → c < 2 ^ 64
      → (add_course p cm us ms b d m).1 ≡ true
      → let d' = (add_course p cm us ms b d m).0 in
        (add_user p cs ms d' m).1 ≡ true
        → Agrees d
        → Reads (add_user p cs ms d' m).0 u c (
            if m.user_id == u && m.course_id == c
            then some m
            else get_course_member p cm us ms b d u c)
  unfolding add_user
  added-Reads d m u c hmu hmc hu hc ok ok' h =
      let d' = (add_course p cm us ms b d m).0 in
      let d'' = (add_user p cs ms d' m).0 in
      let under_user : get_course_member p cm us ms b d'' u c
          ≡ get_course_member p cm us ms b d' u c =
        (unfold get_course_member in
          ap (read_message p ms) (
            put_message-other p ms d' (get_user_key m.course_id m.user_id) (get_course_key u c)
              (ms.marshal m) (bytes_eq-listings' u c m.course_id m.user_id))) in
      let before : listed_member d' c u ≡ listed_member d c u =
        (unfold add_course in
          ap (read_message p ms) (
            put_message-other p ms d (get_course_key m.user_id m.course_id) (get_user_key c u)
              (ms.marshal m) (bytes_eq-listings m.user_id m.course_id c u))) in
      (
        under_user ∙ get_course_member-add_course p cm us ms b d m u c hmc hc ok,
        rw
            (
              read-put_message p ms d' (get_user_key m.course_id m.user_id) (get_user_key c u) m
                  ok',
              bytes_eq-user_keys m.course_id m.user_id c u hmu hu,
              before,
            )
            (same_read (m.user_id == u) (m.course_id == c) (get_course_member p cm us ms b d u c) _
              (h u c hu hc) (some m)),
      )

  -- The outcome of `AddCourse` and `AddUser`.
  pub added_both :
      (d : Db) (m : CourseMember) (code : Code)
      → (add_both p cm us ms cs b d m code).1 ≡ done tt
      → ((add_course p cm us ms b d m).1 ≡ true)
        × ((add_user p cs ms (add_course p cm us ms b d m).0 m).1 ≡ true)
        × ((add_both p cm us ms cs b d m code).0
            ≡ (add_user p cs ms (add_course p cm us ms b d m).0 m).0)
  unfolding add_both
  added_both d m code e = elim (Bool-cases (add_course p cm us ms b d m).1) [
    | inr bad ↦ absurd (never_done code code_add_course (rw bad at e))
    | inl ok ↦ elim (Bool-cases (add_user p cs ms (add_course p cm us ms b d m).0 m).1) [
      | inr bad ↦ absurd (never_done code code_add_user (rw (ok, bad) at e))
      | inl ok' ↦ (ok, ok', rw (ok, ok') refl)
    ]
  ]
