-- ===== src/Service/CourseMembers/Codes.antt =====
-- Join codes: GenerateJoinCode and then JoinCourse.
use autograder_server.Service.CourseMembers.{
  generate_join_code, generated, rebound, join_new, join_course, add_both,
}
use autograder_server.Repository.Courses.{
  add_user, bind_join_code, unbind_join_code, update_course, get_course, get_course_id_by_join_code,
  get_course_id_key, get_join_code_key,
}
use autograder_server.Repository.Users.{add_course, get_course_member, indexed_id}
use autograder_server.Repository.Prefix.Words.{big_endian-uint64_to_bytes}
use autograder_server.Repository.Stored.{put-other, read-put_message, read_message}
use autograder_server.Repository.Prefix.{uint64_to_bytes}
use autograder_server.Repository.Batch.{Batches}
use autograder_server.Repository.Messages.{student, Course, CourseMember, User}
use autograder_server.Repository.Merger.{Mergeable}
use autograder_server.Repository.Codec.{Codec}
use autograder_server.Repository.Pebble.{Pebble}
use autograder_server.Service.Model.{
  code_add_user, internal, code_add_user, code_add_course, code_update_course, code_update_course,
  done, done, Outcome, refused, internal,
}
use autograder_server.Base.{
  ◌&&◌, ◌==◌, length, not, if◌then◌else◌, sym, ℕ, ℕ, List, Bool, true, false, Option, some, none,
  ◌≡◌, refl, ◌<◌, ◌^◌, ◌⊎◌, inl, inr, bytes_eq, bytes_eq_refl, Bool-cases, eq_of_some, ap, ◌∙◌,
  subst,
}

module _ (p : Pebble) (cm : Codec Mergeable) (us : Codec User) (ms : Codec CourseMember)
    (cs : Codec Course) (b : Batches cm p) where
  open p use {Db, get, put}

  join_code_key-id_key :
      (code : List ℕ) (id : ℕ) → bytes_eq (get_join_code_key code) (get_course_id_key id) ≡ false
  unfolding get_join_code_key get_course_id_key bytes_eq
  join_code_key-id_key code id = refl

  -- The course under its id with its code, and the code's entry in the index.
  abbrev IsCoded : Db → ℕ → List ℕ → Course → Type 0
  IsCoded d id code course =
      (get_course p cs ms d id ≡ some (record course { join_code = code }))
      × (get_course_id_by_join_code p cs ms d code ≡ some id)

  abbrev bound : Db → ℕ → List ℕ → Db × Bool
  bound d id code = put d (get_join_code_key code) (uint64_to_bytes id)

  rebound_ok :
      (r : Db × Bool) (id : ℕ) (code shown : List ℕ)
      → (rebound p cm us ms cs b r id code).1 ≡ done shown
      → (r.1 ≡ true)
        × ((bound r.0 id code).1 ≡ true)
        × (rebound p cm us ms cs b r id code ≡ ((bound r.0 id code).0, done code))
  unfolding bind_join_code
  rebound_ok (d, false) id code shown e = cc
  rebound_ok (d, true) id code shown e = elim (Bool-cases (bound d id code).1) [
    | inl ok ↦ (refl, ok, rw ok refl)
    | inr bad ↦ absurd (
        let never : Path (Outcome (List ℕ)) (refused internal code_update_course) (done shown) =
          rw bad at e in
        cc)
  ]

  bound-IsCoded :
      (d : Db) (id : ℕ) (code : List ℕ) (course : Course)
      → id < 2 ^ 64
      → let r = update_course p cs ms d id (record course { join_code = code }) in
        r.1 ≡ true → (bound r.0 id code).1 ≡ true → IsCoded (bound r.0 id code).0 id code course
  unfolding update_course get_course get_course_id_by_join_code
  bound-IsCoded d id code course small ok ok' =
      let course' = record course { join_code = code } in
      let r = update_course p cs ms d id course' in
      let key = get_course_id_key id in
      let index = get_join_code_key code in
      (
        ap (read_message p cs)
              (put-other p r.0 index (uint64_to_bytes id) key (join_code_key-id_key code id))
            ∙ read-put_message p cs d key key course' ok
            ∙ rw (bytes_eq_refl key) refl,
        ap indexed_id (p.get-put r.0 index (uint64_to_bytes id) index ok')
            ∙ rw (bytes_eq_refl index) (ap some (big_endian-uint64_to_bytes id small)),
      )

  -- Without the code that the course had.
  abbrev dropped : Db → List ℕ → Course → Db
  dropped d code course =
      if not (length course.join_code == 0) && not (bytes_eq course.join_code code)
      then (unbind_join_code p cs ms d course.join_code).0
      else d

  generated-IsCoded :
      (d : Db) (id : ℕ) (code shown : List ℕ) (o : Option Course)
      → id < 2 ^ 64
      → (generated p cm us ms cs b d id code o).1 ≡ done shown
      → (shown ≡ code)
        × ((course : Course) × (o ≡ some course)
            × IsCoded (generated p cm us ms cs b d id code o).0 id code course)
  generated-IsCoded d id code shown none small e = cc
  generated-IsCoded d id code shown (some course) small e =
      let course' = record course { join_code = code } in
      let d' = dropped d code course in
      let r = update_course p cs ms d' id course' in
      let (ok, ok', same) = rebound_ok r id code shown e in
      let done_code : Path (Outcome (List ℕ)) (done code) (done shown) =
        ap (λ x. x.1) (sym same) ∙ e in
      (
        cc,
        (
          course,
          refl,
          subst (λ t. IsCoded t.0 id code course) (sym same)
              (bound-IsCoded d' id code course small ok ok'),
        ),
      )

  abbrev new_student : ℕ → ℕ → CourseMember
  new_student id user = record { user_id = user; role = student; course_id = id }

  -- What a user who joins is answered, by the two writes of the membership: under the user, and then
  -- under the course.
  abbrev pub JoinedUnlessFailed : Db → ℕ → ℕ → Outcome ℕ → Type 0
  JoinedUnlessFailed d id user answer =
      let under_user = add_course p cm us ms b d (new_student id user) in
      let under_course = add_user p cs ms under_user.0 (new_student id user) in
      ((answer ≡ done id) × (under_user.1 ≡ true) × (under_course.1 ≡ true))
      ⊎ ((answer ≡ refused internal code_add_course) × (under_user.1 ≡ false))
      ⊎ ((answer ≡ refused internal code_add_user)
          × (under_user.1 ≡ true)
          × (under_course.1 ≡ false))

  new_joined :
      (d : Db) (id user : ℕ)
      → JoinedUnlessFailed d id user (join_new p cm us ms cs b d id user none).1
  unfolding add_both
  new_joined d id user =
      let m = new_student id user in
      let under_user = add_course p cm us ms b d m in
      let answer = λ (o : Outcome Unit). elim o as (λ x. Outcome ℕ) [
        | done u ↦ done id
        | refused code error ↦ refused code error
      ] in
      let both = add_both p cm us ms cs b d m internal in
      elim (Bool-cases under_user.1) [
        | inr bad ↦
            let refused_first : both.1 ≡ refused internal code_add_course = rw bad refl in
            inr (inl (ap answer refused_first, bad))
        | inl ok ↦ elim (Bool-cases (add_user p cs ms under_user.0 m).1) [
          | inr bad ↦
              let refused_second : both.1 ≡ refused internal code_add_user = rw (ok, bad) refl in
              inr (inr (ap answer refused_second, ok, bad))
          | inl ok' ↦
              let is_done : both.1 ≡ done tt = rw (ok, ok') refl in inl (ap answer is_done, ok, ok')
        ]
      ]

  joined_coded :
      (d : Db) (id user : ℕ) (decode : List ℕ → ℕ) (code : List ℕ) (course : Course)
      → IsCoded d id code course
      → course.allows_join ≡ true
      → get_course_member p cm us ms b d user id ≡ none
      → join_course p cm us ms cs b decode d user code ≡ join_new p cm us ms cs b d id user none
  unfolding join_course
  joined_coded d id user decode code course (there, index) open' new =
      rw (index, there, open', bytes_eq_refl code, new) refl

  -- After the join code of a course that allows joining has been generated without an error, the
  -- code answered is the new one, and a user who is no member yet and joins with it is answered with
  -- the course when the writes of the membership under the user and under the course succeed, and
  -- with an error for the first of the two that fails, whatever the code decodes to.
  pub join_course-generate_join_code :
      (decode : List ℕ → ℕ) (d : Db) (id user : ℕ) (code shown : List ℕ) (course : Course)
      → id < 2 ^ 64
      → get_course p cs ms d id ≡ some course
      → course.allows_join ≡ true
      → (generate_join_code p cm us ms cs b d id code).1 ≡ done shown
      → let d' = (generate_join_code p cm us ms cs b d id code).0 in
        get_course_member p cm us ms b d' user id ≡ none
        → (shown ≡ code)
          × JoinedUnlessFailed d' id user (join_course p cm us ms cs b decode d' user shown).1
  unfolding generate_join_code
  join_course-generate_join_code decode d id user code shown course small there open' e new =
      let d' = (generated p cm us ms cs b d id code (get_course p cs ms d id)).0 in
      let (same, target) = generated-IsCoded d id code shown (get_course p cs ms d id) small e in
      let (found_course, at, coded) = target in
      let same_course : course ≡ found_course = eq_of_some (sym there ∙ at) in
      let coded_course : IsCoded d' id code course =
        subst (IsCoded d' id code) (sym same_course) coded in
      let joins = joined_coded d' id user decode code course coded_course open' new in
      (same, rw (same, joins) (new_joined d' id user))
