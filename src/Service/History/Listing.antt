-- ===== src/Service/History/Listing.antt =====
-- What `getSubmissionHistory` lists.
use autograder_server.Service.History.{
  cons_submitter, code_not_found, Submitter, SubmissionInfo, insert_newer, newest_first, graded,
  submitters_of, info_of, cons_info, with_submitters, with_submission, history_loop,
  get_submission_history,
}
use autograder_server.Hub.Model.{running, SubmissionBriefReport}
use autograder_server.Repository.Batch.{Batches}
use autograder_server.Repository.Codec.{Codec}
use autograder_server.Repository.Merger.{Mergeable}
use autograder_server.Repository.Messages.{Submission, User, CourseMember}
use autograder_server.Repository.Pebble.{Pebble}
use autograder_server.Repository.SubmissionReport.{get_submission_brief_report}
use autograder_server.Repository.Submissions.{
  get_submissions_by_user_and_assignment, get_submission,
}
use autograder_server.Repository.Users.{get_user_by_id}
use autograder_server.Service.Model.{Outcome, done, refused, not_found, code_not_found}
use autograder_server.Base.{
  ◌∙◌, eq_of_some, sym, ap, Option-cases, subst, inr, inl, if◌then◌else◌, ℕ, arith, ℕ, List, [],
  ◌∷◌, Option, none, some, ◌≡◌, ◌≤◌, ◌+◌, ◌==◌, All, map, refl,
}

-- How often an id stands in a list.
abbrev pub count : ℕ → List ℕ → ℕ
count x [] = 0
count x (y ∷ r) = (if y == x then 1 else 0) + count x r

abbrev Descending : ℕ → List ℕ → Type 0
Descending hi [] = Unit
Descending hi (x ∷ r) = (x ≤ hi) × Descending x r

abbrev pub NewestFirst : List ℕ → Type 0
NewestFirst [] = Unit
NewestFirst (x ∷ r) = Descending x r

count-insert_newer :
    (x a : ℕ) (ids : List ℕ)
    → count x (insert_newer a ids) ≡ (if a == x then 1 else 0) + count x ids
count-insert_newer x a [] = refl
count-insert_newer x a (b ∷ r) = ground (arith, count-insert_newer x a r)

count-newest_first : (x : ℕ) (ids : List ℕ) → count x (newest_first ids) ≡ count x ids
unfolding newest_first
count-newest_first x [] = refl
count-newest_first x (a ∷ r) =
    ground (arith, count-insert_newer x a (newest_first r), count-newest_first x r)

insert_newer-Descending :
    (hi a : ℕ) (ids : List ℕ) → a ≤ hi → Descending hi ids → Descending hi (insert_newer a ids)
insert_newer-Descending hi a [] h k = (h, tt)
insert_newer-Descending hi a (b ∷ r) h k = ground (arith, insert_newer-Descending b a r)

insert_newer-NewestFirst :
    (a : ℕ) (ids : List ℕ) → NewestFirst ids → NewestFirst (insert_newer a ids)
insert_newer-NewestFirst a [] h = tt
insert_newer-NewestFirst a (b ∷ r) h = ground (arith, insert_newer-Descending b a r)

newest_first-NewestFirst : (ids : List ℕ) → NewestFirst (newest_first ids)
unfolding newest_first
newest_first-NewestFirst [] = tt
newest_first-NewestFirst (a ∷ r) =
    insert_newer-NewestFirst a (newest_first r) (newest_first-NewestFirst r)

module _ (p : Pebble) (bc : Codec SubmissionBriefReport) (cm : Codec Mergeable) (us : Codec User)
    (ms : Codec CourseMember) (sc : Codec Submission) (b : Batches cm p) where
  open p use {Db}

  -- What an entry shows of a brief, or where there is none.
  abbrev pub ShowsBrief : Option SubmissionBriefReport → SubmissionInfo → Type 0
  ShowsBrief none i = (i.score ≡ 0) × (i.max_score ≡ 0) × (i.status ≡ running)
  ShowsBrief (some brief) i =
      (i.score ≡ brief.score) × (i.max_score ≡ brief.max_score) × (i.status ≡ brief.status)

  -- A submitter shows the names and the student id of the stored user.
  abbrev pub ShowsUser : Db → Submitter → Type 0
  ShowsUser d u =
      (user : User) × (get_user_by_id p cm us ms b d u.user_id ≡ some user)
      × (u.username ≡ user.username)
      × (u.nickname ≡ user.nickname)
      × (u.student_id ≡ user.student_id)

  -- An entry shows the stored submission, its submitters, and its brief.
  abbrev pub IsInfo : Db → SubmissionInfo → Type 0
  IsInfo d i =
      (s : Submission) × (get_submission p cm sc b d i.submission_id ≡ some s)
      × (i.submitted_at ≡ s.submitted_at)
      × (map (λ u. u.user_id) i.submitters ≡ s.submitters)
      × All (ShowsUser d) i.submitters
      × ShowsBrief (get_submission_brief_report p bc d i.submission_id) i

  shows_brief :
      (o : Option SubmissionBriefReport) (id : ℕ) (s : Submission) (submitters : List Submitter)
      → ShowsBrief o (info_of p bc cm us ms sc b id s submitters (graded o))
  shows_brief none id s submitters = (refl, refl, refl)
  shows_brief (some brief) id s submitters = (refl, refl, refl)

  abbrev AreShown : Db → List ℕ → List Submitter → Type 0
  AreShown d ids submitters = (map (λ u. u.user_id) submitters ≡ ids) × All (ShowsUser d) submitters

  submitter_shown :
      (d : Db) (id : ℕ) (ids : List ℕ) (o : Option User) (o' : Option (List Submitter))
      (submitters : List Submitter)
      → get_user_by_id p cm us ms b d id ≡ o
      → ((others : List Submitter) → o' ≡ some others → AreShown d ids others)
      → cons_submitter p bc cm us ms sc b id o o' ≡ some submitters
      → AreShown d (id ∷ ids) submitters
  submitter_shown d id ids none o' submitters at rest e = cc
  submitter_shown d id ids (some user) none submitters at rest e = cc
  submitter_shown d id ids (some user) (some others) submitters at rest e =
      let (same, all) = rest others refl in
      subst (AreShown d (id ∷ ids)) (eq_of_some e)
        (ap (λ t. id ∷ t) same, ((user, at, refl, refl, refl), all))

  submitters_shown :
      (d : Db) (ids : List ℕ) (submitters : List Submitter)
      → submitters_of p bc cm us ms sc b d ids ≡ some submitters
      → AreShown d ids submitters
  unfolding submitters_of
  submitters_shown d [] submitters e = subst (AreShown d []) (eq_of_some e) (refl, tt)
  submitters_shown d (id ∷ r) submitters e =
      submitter_shown d id r (get_user_by_id p cm us ms b d id)
        (submitters_of p bc cm us ms sc b d r) submitters refl (submitters_shown d r) e

  cons_done :
      (info : SubmissionInfo) (o : Outcome (List SubmissionInfo)) (infos : List SubmissionInfo)
      → cons_info p bc cm us ms sc b info o ≡ done infos
      → (rest : List SubmissionInfo) × (o ≡ done rest) × (infos ≡ info ∷ rest)
  cons_done info (done rest) infos e = (
    rest,
    refl,
    let same : Path (Outcome (List SubmissionInfo)) (done (info ∷ rest)) (done infos) = e in cc,
  )
  cons_done info (refused code error) infos e = cc

  -- The first entry of a history, and the others.
  abbrev Consed : Db → ℕ → Outcome (List SubmissionInfo) → List SubmissionInfo → Type 0
  Consed d id o infos =
      (info : SubmissionInfo) × (rest : List SubmissionInfo) × (o ≡ done rest)
      × (infos ≡ info ∷ rest)
      × (info.submission_id ≡ id)
      × IsInfo d info

  submitters-Consed :
      (d : Db) (id : ℕ) (s : Submission) (o : Option (List Submitter))
      (rest : Outcome (List SubmissionInfo)) (infos : List SubmissionInfo)
      → get_submission p cm sc b d id ≡ some s
      → submitters_of p bc cm us ms sc b d s.submitters ≡ o
      → with_submitters p bc cm us ms sc b d id s o rest ≡ done infos
      → Consed d id rest infos
  submitters-Consed d id s none rest infos at read e = cc
  submitters-Consed d id s (some submitters) rest infos at read e =
      let shown = graded (get_submission_brief_report p bc d id) in
      let info = info_of p bc cm us ms sc b id s submitters shown in
      let (others, same, split) = cons_done info rest infos e in
      let shown_submitters = submitters_shown d s.submitters submitters read in
      (
        info,
        others,
        same,
        split,
        refl,
        (
          s,
          at,
          refl,
          shown_submitters.0,
          shown_submitters.1,
          shows_brief (get_submission_brief_report p bc d id) id s submitters,
        ),
      )

  submission-Consed :
      (d : Db) (id : ℕ) (o : Option Submission) (rest : Outcome (List SubmissionInfo))
      (infos : List SubmissionInfo)
      → get_submission p cm sc b d id ≡ o
      → with_submission p bc cm us ms sc b d id o rest ≡ done infos
      → Consed d id rest infos
  submission-Consed d id none rest infos at e = cc
  submission-Consed d id (some s) rest infos at e =
      submitters-Consed d id s (submitters_of p bc cm us ms sc b d s.submitters) rest infos at refl
        e

  loop_listed :
      (d : Db) (ids : List ℕ) (infos : List SubmissionInfo)
      → history_loop p bc cm us ms sc b d ids ≡ done infos
      → (map (λ i. i.submission_id) infos ≡ ids) × All (IsInfo d) infos
  unfolding history_loop
  loop_listed d [] infos e =
      let none_left : [] ≡ infos =
        let same : Path (Outcome (List SubmissionInfo)) (done []) (done infos) = e in cc in
      subst (λ t. (map (λ i. i.submission_id) t ≡ []) × All (IsInfo d) t) none_left (refl, tt)
  loop_listed d (id ∷ r) infos e =
      let (info, rest, at, split, same, shown) =
        submission-Consed d id (get_submission p cm sc b d id) (history_loop p bc cm us ms sc b d r)
          infos refl e in
      let (ids, all) = loop_listed d r rest at in
      subst (λ t. (map (λ i. i.submission_id) t ≡ id ∷ r) × All (IsInfo d) t) (sym split)
        (ap (λ t. t ∷ map (λ i. i.submission_id) rest) same ∙ ap (λ t. id ∷ t) ids, (shown, all))

  -- A history that is read is that of all submissions listed for the user in the assignment, as often
  -- as they are listed, the newest first; each entry shows the time of the stored submission, its
  -- submitters with the names and the student ids of the stored users, and the score, the maximum and
  -- the status of its brief, or two zeros and that it runs where no brief is read.
  pub get_submission_history-listed :
      (d : Db) (user assignment : ℕ) (infos : List SubmissionInfo)
      → get_submission_history p bc cm us ms sc b d user assignment ≡ done infos
      → (ids : List ℕ) × (get_submissions_by_user_and_assignment p cm sc b d user assignment
          ≡ some ids)
        × ((x : ℕ) → count x (map (λ i. i.submission_id) infos) ≡ count x ids)
        × NewestFirst (map (λ i. i.submission_id) infos)
        × All (IsInfo d) infos
  unfolding get_submission_history
  get_submission_history-listed d user assignment infos e =
      elim (Option-cases (get_submissions_by_user_and_assignment p cm sc b d user assignment)) [
        | inl missing ↦ absurd (
            let never : Path (Outcome (List SubmissionInfo)) (refused not_found code_not_found)
                (done infos) =
              rw missing at e in
            cc)
        | inr (ids, at) ↦
            let (same, all) = loop_listed d (newest_first ids) infos (rw at at e) in
            (
              ids,
              at,
              (λ x. ap (count x) same ∙ count-newest_first x ids),
              subst NewestFirst (sym same) (newest_first-NewestFirst ids),
              all,
            )
      ]
