-- ===== src/Hub/Mailbox/State.antt =====
-- The reports of a mailbox of pkg/grader/grpc/subscription.go folded into what a subscriber knows.
use mathlib.Core.List.{append_assoc, append-nil}
use autograder_server.Base.{
  ◌∙◌, ap, refl, sym, ◌≡◌, ◌++◌, if◌then◌else◌, Bool, Option, List, ℕ, arith, ◌∷◌, [], some, none,
  false, true, suc,
}
use autograder_server.Hub.Model.{GradeReport}
use autograder_server.Hub.Mailbox.{
  or_older, ReportMailbox, coalesce_reports, publish_loop, publish, close, receive, Published,
}

pub data Event (R : Type 0) : Type 0 where
  publishes : List Bool → GradeReport R → Event R
  closes receives : Event R

-- The newer value of a field, where there is one.
abbrev pub newer_of : {A : Type 0} → Option A → Option A → Option A
newer_of (some new) old = some new
newer_of none old = old

newer_of-or_older :
    {A : Type 0} (new old known : Option A)
    → newer_of (or_older new old) known ≡ newer_of new (newer_of old known)
newer_of-or_older none old known = refl
newer_of-or_older (some a) old known = refl

module _ {R : Type 0} where
  -- What a subscriber knows of a field after some reports, from what it knew of it.
  abbrev pub latest :
      {A : Type 0} → (GradeReport R → Option A) → Option A → List (GradeReport R) → Option A
  latest field known [] = known
  latest field known (r ∷ rs) = latest field (newer_of (field r) known) rs

  -- What it knows of all fields.
  unfoldable pub known : GradeReport R → List (GradeReport R) → GradeReport R
  known k rs = record {
    report = latest (λ r. r.report) k.report rs;
    brief = latest (λ r. r.brief) k.brief rs;
    docker_metadata = latest (λ r. r.docker_metadata) k.docker_metadata rs;
    pending_rank = latest (λ r. r.pending_rank) k.pending_rank rs;
  }

  abbrev pub slot : Option (GradeReport R) → List (GradeReport R)
  slot none = []
  slot (some r) = r ∷ []

  abbrev after_publish :
      ReportMailbox R × List (GradeReport R)
      → Option (ReportMailbox R × List (GradeReport R))
      → ReportMailbox R × List (GradeReport R)
  after_publish m none = m
  after_publish m (some r) = r

  -- The mailbox and the reports that the subscriber received.
  unfoldable pub step : ReportMailbox R → Event R → ReportMailbox R × List (GradeReport R)
  unfolding publish close receive
  step m (publishes raced r) = after_publish (m, []) (publish 2 raced m r)
  step m closes = (close m, [])
  step m receives = let (m', o) = receive m in (m', slot o)

  -- Whether the mailbox is closed after an event, and the report that counts as accepted in it.
  abbrev closed_by : Bool → Event R → Bool
  closed_by closed (publishes raced r) = closed
  closed_by closed closes = true
  closed_by closed receives = closed

  abbrev accepted : Bool → Event R → List (GradeReport R)
  accepted closed (publishes raced r) = if closed then [] else r ∷ []
  accepted closed closes = []
  accepted closed receives = []

  -- A coalesced report tells what the two tell one after the other.
  known-coalesce_reports :
      (k older newer : GradeReport R)
      → known k (coalesce_reports older newer ∷ []) ≡ known k (older ∷ newer ∷ [])
  unfolding known coalesce_reports
  known-coalesce_reports k older newer = ground arith

  -- Two reports coalesced are what the older one tells and then the newer.
  pub coalesce_reports-known :
      (older newer : GradeReport R) → coalesce_reports older newer ≡ known older (newer ∷ [])
  unfolding known coalesce_reports
  coalesce_reports-known older newer = refl

  -- With two rounds of fuel the loop ends, and whether or not the subscriber gets in between
  -- nothing of the stale report is lost.
  pub publish_loop_lem :
      (fuel : ℕ) (raced : List Bool) (ch : Option (GradeReport R)) (r k : GradeReport R)
      → (p : Published R) × (publish_loop (suc (suc fuel)) raced ch r ≡ some p)
        × (known k (p.0 ++ slot p.1) ≡ known k (slot ch ++ r ∷ []))
  unfolding publish_loop
  publish_loop_lem fuel raced none r k = (([], some r), refl, refl)
  publish_loop_lem fuel [] (some stale) r k =
      (([], some (coalesce_reports stale r)), refl, known-coalesce_reports k stale r)
  publish_loop_lem fuel (true ∷ raced) (some stale) r k = ((stale ∷ [], some r), refl, refl)
  publish_loop_lem fuel (false ∷ raced) (some stale) r k =
      (([], some (coalesce_reports stale r)), refl, known-coalesce_reports k stale r)

  known-append :
      (k : GradeReport R) (xs ys : List (GradeReport R))
      → known k (xs ++ ys) ≡ known (known k xs) ys
  unfolding known
  known-append k [] ys = refl
  known-append k (x ∷ xs) ys = known-append (known k (x ∷ [])) xs ys

  publish_lem :
      (raced : List Bool) (m : ReportMailbox R) (r k : GradeReport R) (b : Bool)
      → m.closed ≡ b
      → (p : ReportMailbox R × List (GradeReport R)) × (publish 2 raced m r ≡ some p)
        × (p.0.closed ≡ b)
        × (known k (p.1 ++ slot p.0.ch) ≡ known k (slot m.ch ++ accepted b (publishes raced r)))
  unfolding publish
  publish_lem raced m r k true e = ((m, []), rw e, e, ap (known k) (sym (append-nil (slot m.ch))))
  publish_lem raced m r k false e =
      let (p, ends, same) = publish_loop_lem 0 raced m.ch r k in
      ((record m { ch = p.1 }, p.0), rw (e, ends), e, same)

  step_lem :
      (m : ReportMailbox R) (e : Event R) (k : GradeReport R)
      → ((step m e).0.closed ≡ closed_by m.closed e)
        × (known k ((step m e).1 ++ slot (step m e).0.ch)
            ≡ known k (slot m.ch ++ accepted m.closed e))
  unfolding step
  step_lem m closes k = (refl, ap (known k) (sym (append-nil (slot m.ch))))
  step_lem m receives k = (refl, refl)
  step_lem m (publishes raced r) k =
      let (p, ends, stays, same) = publish_lem raced m r k m.closed refl in rw ends (stays, same)

  unfoldable pub run : ReportMailbox R → List (Event R) → ReportMailbox R
  run m [] = m
  run m (e ∷ es) = run (step m e).0 es

  unfoldable pub all_received : ReportMailbox R → List (Event R) → List (GradeReport R)
  all_received m [] = []
  all_received m (e ∷ es) = (step m e).1 ++ all_received (step m e).0 es

  -- The reports that are published before the first close.
  unfoldable pub all_accepted : Bool → List (Event R) → List (GradeReport R)
  all_accepted closed [] = []
  all_accepted closed (e ∷ es) = accepted closed e ++ all_accepted (closed_by closed e) es

  -- Over any history of publishes, receives and closes, in which the subscriber may get between the
  -- selects of every publish, the reports received and the one in the slot leave the subscriber, in
  -- each field, with the latest value that the report in the slot at the start and the reports
  -- published before the first close gave it; a mailbox closed from the start accepts none.
  pub run-known :
      (m : ReportMailbox R) (es : List (Event R)) (k : GradeReport R)
      → known k (all_received m es ++ slot (run m es).ch)
        ≡ known k (slot m.ch ++ all_accepted m.closed es)
  unfolding run all_received all_accepted
  run-known m [] k = ap (known k) (sym (append-nil (slot m.ch)))
  run-known m (e ∷ es) k =
      let m' = (step m e).0 in
      let got = (step m e).1 in
      let (stays, same) = step_lem m e k in
      let rest = all_accepted (closed_by m.closed e) es in
      ap (known k) (append_assoc got (all_received m' es) _)
      ∙ known-append k got _
      ∙ run-known m' es (known k got)
      ∙ ap (λ t. known (known k got) (slot m'.ch ++ all_accepted t es)) stays
      ∙ known-append (known k got) (slot m'.ch) _
      ∙ ap (λ t. known t rest) (sym (known-append k got (slot m'.ch)) ∙ same)
      ∙ sym (known-append k (slot m.ch ++ accepted m.closed e) _)
      ∙ ap (known k) (append_assoc (slot m.ch) (accepted m.closed e) _)
