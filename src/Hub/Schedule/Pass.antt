-- ===== src/Hub/Schedule/Pass.antt =====
-- `schedulePass` of pkg/grader/grpc/graderhub_service.go as a whole.
use autograder_server.Hub.Schedule.Walked.{go_on-handed, Walked, go_on-kept}
use autograder_server.Hub.Schedule.Walk.{
  or_true, next_At-removed, removed, or_false, next_At, first_At, At, whole,
}
use autograder_server.Hub.Schedule.Cursor.{length-remove_at_present}
use autograder_server.Hub.Schedule.Placement.{handed, kept, Outcome, place_request-Outcome, Idle}
use autograder_server.Hub.Schedule.{
  GraderStatusMetadata, schedule_pass, snapshot_grader_loads, go_on, Placed, pass_loop, head_of,
}
use autograder_server.Hub.Pick.{GraderLoad, Loads}
use autograder_server.Hub.Pending.Ranks.{remove_pending_grade_request-IsValid, IsValid}
use autograder_server.Hub.State.{Hub}
use autograder_server.Repository.Pebble.{Pebble}
use autograder_server.Hub.Pending.{behind, PendingList, Element}
use autograder_server.Base.{
  All-always, suc, zero, false≢true, ◌∙◌, subst, ap, sym, ◌==◌, Bool-cases, All, ◌⊎◌, lookup, ◌<◌,
  ◌≡◌, length, Bool, Option, ◌∷◌, [], inr, inl, some, none, false, true, refl, List, ℕ, arith,
}

none_online :
    (loads : Loads) (j : ℕ) (l : GraderLoad)
    → (length loads == 0) ≡ true
    → lookup j loads ≡ some l
    → ⊥
none_online [] j l e el = cc
none_online (x ∷ loads) j l e el = ground arith

snapshot-free :
    (p : Pebble) (graders : List (ℕ × GraderStatusMetadata)) (d : p.Db)
    → lookup 0 graders ≡ none
    → lookup 0 (snapshot_grader_loads p d graders) ≡ none
snapshot-free p [] d e = refl
snapshot-free p ((id, grader) ∷ r) d e = elim (Bool-cases (id == 0)) [
  | inl zero' ↦ absurd (let never : some grader ≡ none = rw zero' at e in cc)
  | inr other ↦ rw other (snapshot-free p r d (rw other at e))
]

strictly : {a b : ℕ} → (false ≡ true) ⊎ (a < b) → a < b
strictly (inl e) = absurd (false≢true e)
strictly (inr less) = less

module _ (p : Pebble) {R : Type 0} where
  abbrev LoopEnds :
      (o : Option (Hub p.Db R × Bool)) (h : Hub p.Db R) → Loads → Option Element → Bool → Type 0
  LoopEnds o h loads cur progressed =
      (r : Hub p.Db R × Bool) × (o ≡ some r) × Walked p h loads cur progressed r

  after_place :
      (fuel : ℕ) (h : Hub p.Db R) (loads : Loads) (cur : Element) (progressed : Bool)
      → IsValid h.pending
      → At (suc fuel) (some cur) h.pending.queued_list
      → ((h' : Hub p.Db R) (loads' : Loads) (progressed' : Bool)
          → IsValid h'.pending
          → lookup 0 loads' ≡ none
          → At fuel (head_of (behind cur.address h.pending.queued_list)) h'.pending.queued_list
          → LoopEnds
              (pass_loop p fuel h' loads'
                (head_of (behind cur.address h.pending.queued_list))
                progressed')
              h'
              loads'
              (head_of (behind cur.address h.pending.queued_list))
              progressed')
      → (r : Placed p.Db R) → Outcome p h loads cur.request r
      → lookup 0 r.1 ≡ none
      → LoopEnds
          (go_on p progressed (some r) (λ h' loads' progressed'.
            pass_loop p fuel h' loads'
              (head_of (behind cur.address h.pending.queued_list))
              progressed'))
          h
          loads
          (some cur)
          progressed
  after_place fuel h loads cur progressed v at rest _ (kept h1 loads1 e1 e2 idle left) free =
      let next =
        next_At fuel cur.address h.pending.next_address h.pending.queued_list v.rising
          (omega (arith, at.1)) in
      let w = rest h1 loads1 progressed (subst IsValid (sym e1) v) free (
        subst
          (λ (l : PendingList).
            At fuel (head_of (behind cur.address h.pending.queued_list)) l.queued_list)
          (sym e1) next.0) in
      (
        w.0,
        ap (λ b. pass_loop p fuel h1 loads1 (head_of (behind cur.address h.pending.queued_list)) b)
              (or_false progressed)
            ∙ w.1,
        go_on-kept p fuel h loads cur progressed h1 loads1 w.0 e1 e2 idle left next.1 w.2,
      )
  after_place fuel h loads cur progressed v at rest _
        (handed h1 loads1 id k queue d el ok eq open' e1 e2 e3 e4) free =
      let same = ap (λ (l : PendingList). l.queued_list) e4 ∙ removed h.pending cur v at.0 in
      let w =
        rest h1 loads1 true
          (subst IsValid (sym e4)
            (remove_pending_grade_request-IsValid h.pending cur.request.submission_id v))
          free
          (subst (At fuel (head_of (behind cur.address h.pending.queued_list))) (sym same) (
            next_At-removed fuel cur.address h.pending.next_address h.pending.queued_list v.rising
              (omega (arith, at.1)))) in
      (
        w.0,
        ap (λ b. pass_loop p fuel h1 loads1 (head_of (behind cur.address h.pending.queued_list)) b)
              (or_true progressed)
            ∙ w.1,
        go_on-handed p fuel h loads cur progressed h1 loads1 _ w.0
            (subst (λ q. length q < length h.pending.queued_list) (sym same)
              (length-remove_at_present cur.address cur.request.submission_id h.pending.queued_list
                at.0))
            w.2,
      )

  pass_loop-Walked :
      (fuel : ℕ) (h : Hub p.Db R) (loads : Loads) (cur : Option Element) (progressed : Bool)
      → IsValid h.pending
      → lookup 0 loads ≡ none
      → At fuel cur h.pending.queued_list
      → LoopEnds (pass_loop p fuel h loads cur progressed) h loads cur progressed
  unfolding pass_loop
  pass_loop-Walked fuel h loads none progressed v free at = (
    (h, progressed),
    refl,
    record {
      valid = v;
      shorter = omega arith;
      stays = λ e. e;
      moved = λ e. inl e;
      idle = λ e. (refl, tt);
    },
  )
  pass_loop-Walked zero h loads (some cur) progressed v free at = absurd (omega (arith, at.1))
  pass_loop-Walked (suc fuel) h loads (some cur) progressed v free at =
      let (r, e, out, free') =
        place_request-Outcome p (suc (length loads)) h loads cur.request (omega arith) free in
      rw e (
        after_place fuel h loads cur progressed v at
          (λ h' loads' progressed' v' free2 at'.
            pass_loop-Walked fuel h' loads' _ progressed' v' free2 at')
          r out free')

  -- A pass that reports no progress leaves the pending list and no request that an eligible grader
  -- of the snapshot could take; one that reports progress makes the list shorter.
  pub data Passed (h : Hub p.Db R) : Hub p.Db R × Bool → Type 0 where
    no_progress :
        (h' : Hub p.Db R)
        → h'.pending ≡ h.pending
        → All
            (λ (e : Element). Idle p h (snapshot_grader_loads p h.db h.online_graders) e.request)
            h.pending.queued_list
        → Passed h (h', false)
    progress :
        (h' : Hub p.Db R)
        → IsValid h'.pending
        → length h'.pending.queued_list < length h.pending.queued_list
        → Passed h (h', true)

  passed :
      (h : Hub p.Db R) (r : Hub p.Db R × Bool)
      → Walked p h
          (snapshot_grader_loads p h.db h.online_graders)
          (head_of h.pending.queued_list)
          false
          r
      → Passed h r
  passed h (h', false) w =
      no_progress h' (w.idle refl).0 (subst (All _) (whole h.pending.queued_list) (w.idle refl).1)
  passed h (h', true) w = progress h' w.valid (strictly (w.moved refl))

  -- On a valid pending list, unless an online grader has the id 0, a pass ends. Either it reports
  -- no progress: then it leaves the list, and no waiting request has an eligible grader in the
  -- snapshot with an open outbox; or it reports progress: then the list is shorter and still
  -- valid.
  pub schedule_pass-Passed :
      (h : Hub p.Db R)
      → IsValid h.pending
      → lookup 0 h.online_graders ≡ none
      → (r : Hub p.Db R × Bool) × (schedule_pass p h ≡ some r) × Passed h r
  unfolding schedule_pass pass_loop
  schedule_pass-Passed h v free =
      elim (Bool-cases (length (snapshot_grader_loads p h.db h.online_graders) == 0)) [
        | inl empty ↦ rw empty (
          (h, false),
          refl,
          no_progress h refl (
              All-always _ (λ e j l queue el ok eq. absurd (none_online _ j l empty el))
                h.pending.queued_list),
        )
        | inr some_loads ↦ rw some_loads (
            let (r, e, w) =
              pass_loop-Walked (length h.pending.queued_list) h _ _ false v
                (snapshot-free p h.online_graders h.db free) (first_At h.pending.queued_list) in
            (r, e, passed h r w))
      ]
