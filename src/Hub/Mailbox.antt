-- ===== src/Hub/Mailbox.antt =====
-- ReportMailbox of pkg/grader/grpc/subscription.go: a channel with one slot. The mutex keeps other
-- publishers out; the subscriber may receive between the two selects of a round.
pub mod State
use autograder_server.Base.{
  zero, if◌then◌else◌, Bool, Option, List, ℕ, ◌∷◌, [], some, none, false, true, suc,
}
use autograder_server.Hub.Model.{GradeReport}

pub record ReportMailbox (R : Type 0) : Type 0 where
  pub ch : Option (GradeReport R)
  pub closed : Bool

-- A field of the newer report, or of the older one where that is nil.
abbrev pub or_older : {A : Type 0} → Option A → Option A → Option A
or_older none o = o
or_older (some a) o = some a

-- What a call did: the reports that the subscriber received meanwhile, and the slot.
abbrev pub Published : Type 0 → Type 0
Published R = List (GradeReport R) × Option (GradeReport R)

module _ {R : Type 0} where
  unfoldable pub new_report_mailbox : ReportMailbox R
  new_report_mailbox = record { ch = none; closed = false }

  unfoldable pub coalesce_reports : GradeReport R → GradeReport R → GradeReport R
  coalesce_reports older newer = record {
    report = or_older newer.report older.report;
    brief = or_older newer.brief older.brief;
    docker_metadata = or_older newer.docker_metadata older.docker_metadata;
    pending_rank = or_older newer.pending_rank older.pending_rank;
  }

  abbrev receive_first : GradeReport R → Option (Published R) → Option (Published R)
  receive_first stale none = none
  receive_first stale (some (got, ch)) = some (stale ∷ got, ch)

  -- The loop of `Publish`, on fuel; `raced` says for each round whether the subscriber receives the
  -- stale report before the second select does. none means that the fuel ran out.
  unfoldable pub publish_loop :
      ℕ → List Bool → Option (GradeReport R) → GradeReport R → Option (Published R)
  publish_loop zero raced ch report = none
  publish_loop (suc fuel) raced none report = some ([], some report)
  publish_loop (suc fuel) [] (some stale) report =
      publish_loop fuel [] none (coalesce_reports stale report)
  publish_loop (suc fuel) (true ∷ raced) (some stale) report =
      receive_first stale (publish_loop fuel raced none report)
  publish_loop (suc fuel) (false ∷ raced) (some stale) report =
      publish_loop fuel raced none (coalesce_reports stale report)

  abbrev published :
      ReportMailbox R → Option (Published R) → Option (ReportMailbox R × List (GradeReport R))
  published m none = none
  published m (some (got, ch)) = some (record m { ch = ch }, got)

  unfoldable pub publish :
      ℕ
      → List Bool
      → ReportMailbox R
      → GradeReport R
      → Option (ReportMailbox R × List (GradeReport R))
  unfolding publish_loop coalesce_reports
  publish fuel raced m report =
      if m.closed then some (m, []) else published m (publish_loop fuel raced m.ch report)

  -- The slot is still there to receive after a close.
  unfoldable pub close : ReportMailbox R → ReportMailbox R
  close m = record m { closed = true }

  -- A receive by the subscriber from `Chan`, when there is a report.
  unfoldable pub receive : ReportMailbox R → ReportMailbox R × Option (GradeReport R)
  receive m = (record m { ch = none }, m.ch)
