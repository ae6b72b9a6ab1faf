-- ===== src/Service/CourseMembers/Joining.antt =====
-- Joining a course and changing a member's role, over the two listings of members.
use autograder_server.Service.CourseMembers.Agreement.{added-Reads, Reads, added_both, Agrees}
use autograder_server.Service.CourseMembers.{
  get_course_id_by_join_code, or_decoded, code_invalid_join_code, get_course, join_new, join_course,
  join_found, add_both, update_course_member,
}
use autograder_server.Service.Model.{done, Outcome, refused, done}
use autograder_server.Repository.Users.{get_course_member}
use autograder_server.Repository.Batch.{Batches}
use autograder_server.Repository.Messages.{student, student, CourseRole, Course, CourseMember, User}
use autograder_server.Repository.Merger.{Mergeable}
use autograder_server.Repository.Codec.{Codec}
use autograder_server.Repository.Pebble.{Pebble}
use autograder_server.Service.Model.{internal, internal, invalid_argument, Code, invalid_argument}
use autograder_server.Base.{
  eq_of_bytes_eq, bytes_eq, Bool-cases, List, inr, inl, none, true, ◌∙◌, sym, subst, ◌&&◌, ◌==◌,
  if◌then◌else◌, ◌^◌, ◌<◌, Option, ℕ, some, refl, ◌≡◌,
}

module _ (p : Pebble) (cm : Codec Mergeable) (us : Codec User) (ms : Codec CourseMember)
    (cs : Codec Course) (b : Batches cm p) where
  open p use {Db}

  abbrev Agree : Db → Type 0
  Agree d = Agrees p cm us ms cs b d

  abbrev pub member_at : Db → ℕ → ℕ → Option CourseMember
  member_at d u c = get_course_member p cm us ms b d u c

  -- What `AddCourse` and `AddUser` leave when neither has an error.
  added-Agrees :
      (d : Db) (m : CourseMember) (code : Code)
      → m.user_id < 2 ^ 64
      → m.course_id < 2 ^ 64
      → (add_both p cm us ms cs b d m code).1 ≡ done tt
      → Agree d
      → Agree (add_both p cm us ms cs b d m code).0
        × ((u c : ℕ)
            → u < 2 ^ 64
            → c < 2 ^ 64
            → member_at (add_both p cm us ms cs b d m code).0 u c
              ≡ (if m.user_id == u && m.course_id == c then some m else member_at d u c))
  added-Agrees d m code hu hc e h =
      let (ok, ok', same) = added_both p cm us ms cs b d m code e in
      let reads = λ (u c : ℕ) (su : u < 2 ^ 64) (sc : c < 2 ^ 64).
        subst
          (λ t.
            Reads p cm us ms cs b t u c
              (if m.user_id == u && m.course_id == c then some m else member_at d u c))
          (sym same) (added-Reads p cm us ms cs b d m u c hu hc su sc ok ok' h) in
      (λ u c su sc. (reads u c su sc).0 ∙ sym (reads u c su sc).1, λ u c su sc. (reads u c su sc).0)

  -- Where the listings of users and courses agree on ids below 2 ^ 64, and the stored member has the
  -- ids that it is stored under, an update without an error changes its role on both listings, no
  -- other membership changes, and the listings still agree.
  pub update_course_member-Agrees :
      (d : Db) (course user : ℕ) (role : CourseRole) (m : CourseMember)
      → user < 2 ^ 64
      → course < 2 ^ 64
      → Agree d
      → member_at d user course ≡ some m
      → m.user_id ≡ user
      → m.course_id ≡ course
      → (update_course_member p cm us ms cs b d course user role).1 ≡ done tt
      → Agree (update_course_member p cm us ms cs b d course user role).0
        × ((u c : ℕ)
            → u < 2 ^ 64
            → c < 2 ^ 64
            → member_at (update_course_member p cm us ms cs b d course user role).0 u c ≡ (
                if user == u && course == c
                then some (record m { role = role })
                else member_at d u c))
  unfolding update_course_member
  update_course_member-Agrees d course user role m hu hc h at eu ec e =
      let m' = record m { role = role } in
      let found' : (add_both p cm us ms cs b d m' invalid_argument).1 ≡ done tt = rw at at e in
      let (agree, read) =
        added-Agrees d m' invalid_argument (subst (λ t. t < 2 ^ 64) (sym eu) hu)
          (subst (λ t. t < 2 ^ 64) (sym ec) hc) found' h in
      rw at (agree, λ u c su sc. read u c su sc ∙ rw (eu, ec) refl)

  -- The effect of a join that is answered with a course.
  abbrev pub IsJoined : Db → Db → ℕ → ℕ → Type 0
  IsJoined d d' user course =
      Agree d'
      × (member_at d user course ≡ none)
      × ((u c : ℕ)
          → u < 2 ^ 64
          → c < 2 ^ 64
          → member_at d' u c ≡ (
              if user == u && course == c
              then some (record { user_id = user; role = student; course_id = course })
              else member_at d u c))

  joined_done :
      (o : Outcome Unit) (course c : ℕ)
      → (elim o [ done u ↦ done course | refused code error ↦ refused code error ]) ≡ done c
      → (o ≡ done tt) × (course ≡ c)
  joined_done (done u) course c e =
      (refl, let h : Path (Outcome ℕ) (done course) (done c) = e in cc)
  joined_done (refused code error) course c e = cc

  new-IsJoined :
      (d : Db) (course user c : ℕ) (o : Option CourseMember)
      → user < 2 ^ 64
      → c < 2 ^ 64
      → Agree d
      → member_at d user course ≡ o
      → (join_new p cm us ms cs b d course user o).1 ≡ done c
      → (course ≡ c) × IsJoined d (join_new p cm us ms cs b d course user o).0 user course
  new-IsJoined d course user c (some m) hu hc h at e = cc
  new-IsJoined d course user c none hu hc h at e =
      let m : CourseMember = record { user_id = user; role = student; course_id = course } in
      let (added, same) = joined_done (add_both p cm us ms cs b d m internal).1 course c e in
      let (agree, read) =
        added-Agrees d m internal hu (subst (λ t. t < 2 ^ 64) (sym same) hc) added h in
      (same, (agree, at, read))

  found-IsJoined :
      (d : Db) (course user c : ℕ) (join_code : List ℕ) (o : Option Course)
      → user < 2 ^ 64
      → c < 2 ^ 64
      → Agree d
      → (join_found p cm us ms cs b d course user join_code o).1 ≡ done c
      → (target : Course) × (o ≡ some target)
        × (target.allows_join ≡ true)
        × (target.join_code ≡ join_code)
        × (course ≡ c)
        × IsJoined d (join_found p cm us ms cs b d course user join_code o).0 user course
  found-IsJoined d course user c join_code none hu hc h e = cc
  found-IsJoined d course user c join_code (some x) hu hc h e = elim (Bool-cases x.allows_join) [
    | inr closed ↦ absurd (
        let never : Path (Outcome ℕ) (refused invalid_argument code_invalid_join_code) (done c) =
          rw closed at e in
        cc)
    | inl open' ↦ elim (Bool-cases (bytes_eq x.join_code join_code)) [
      | inr wrong ↦ absurd (
          let never : Path (Outcome ℕ) (refused invalid_argument code_invalid_join_code) (done c) =
            rw (open', wrong) at e in
          cc)
      | inl right ↦
          let (same, joined) =
            new-IsJoined d course user c (get_course_member p cm us ms b d user course) hu hc h refl
              (rw (open', right) at e) in
          (
            x,
            refl,
            open',
            eq_of_bytes_eq x.join_code join_code right,
            same,
            rw (open', right) joined,
          )
    ]
  ]

  -- With listings that agree and ids below 2 ^ 64, a user who is answered with a course has joined it
  -- as a student on both listings, was no member of it before, and gave the join code of a course
  -- that allows joining; no other membership changes.
  pub join_course-IsJoined :
      (decode : List ℕ → ℕ) (d : Db) (user c : ℕ) (join_code : List ℕ)
      → user < 2 ^ 64
      → c < 2 ^ 64
      → Agree d
      → (join_course p cm us ms cs b decode d user join_code).1 ≡ done c
      → ((target : Course) × (get_course p cs ms d c ≡ some target)
          × (target.allows_join ≡ true)
          × (target.join_code ≡ join_code))
        × IsJoined d (join_course p cm us ms cs b decode d user join_code).0 user c
  unfolding join_course
  join_course-IsJoined decode d user c join_code hu hc h e =
      let course =
        or_decoded p cm us ms cs b (get_course_id_by_join_code p cs ms d join_code)
          (decode join_code) in
      let (target, at, open', code, same, joined) =
        found-IsJoined d course user c join_code (get_course p cs ms d course) hu hc h e in
      let d' = (join_course p cm us ms cs b decode d user join_code).0 in
      (
        (target, subst (λ t. get_course p cs ms d t ≡ some target) same at, open', code),
        subst (λ t. IsJoined d d' user t) same joined,
      )
