-- ===== src/Hub/Subscribers.antt =====
-- The subscribers of pkg/grader/grpc/graderhub_service.go: `Subscribe`, `Unsubscribe`,
-- `sendGradeReport` and `closeAllSubmissionSubscribers`. Mailboxes are shared by pointer, so they
-- stand in a store of their own and the subscriptions hold addresses.
pub mod Delivery
use autograder_server.Base.{
  none, ◌+◌, ◌==◌, ◌++◌, delete_key, if◌then◌else◌, insert, lookup, Option, List, ℕ, ◌∷◌, [], some,
}
use autograder_server.Hub.Model.{GradeReport}
use autograder_server.Hub.Mailbox.{ReportMailbox}
use autograder_server.Hub.Mailbox

pub record Subscribers (R : Type 0) : Type 0 where
  pub submission_subs : List (ℕ × List ℕ)
  pub mailboxes : List (ℕ × ReportMailbox R)
  pub next_mailbox : ℕ

abbrev pub subs_of : Option (List ℕ) → List ℕ
subs_of none = []
subs_of (some l) = l

abbrev remove_first : ℕ → List ℕ → List ℕ
remove_first a [] = []
remove_first a (b ∷ r) = if b == a then r else b ∷ remove_first a r

abbrev store_subs : ℕ → List ℕ → List (ℕ × List ℕ) → List (ℕ × List ℕ)
store_subs submission_id [] m = delete_key submission_id m
store_subs submission_id (a ∷ r) m = insert submission_id (a ∷ r) m

module _ {R : Type 0} where
  unfoldable pub no_subscribers : Subscribers R
  no_subscribers = record { submission_subs = []; mailboxes = []; next_mailbox = 0 }

  -- The new mailbox is returned by its address.
  unfoldable pub subscribe : Subscribers R → ℕ → Subscribers R × ℕ
  subscribe s submission_id =
      let a = s.next_mailbox in
      (
        record {
          submission_subs =
              insert submission_id (subs_of (lookup submission_id s.submission_subs) ++ a ∷ [])
                s.submission_subs;
          mailboxes = insert a Mailbox.new_report_mailbox s.mailboxes;
          next_mailbox = a + 1;
        },
        a,
      )

  -- One publish; with no rival reader in between it takes the two rounds that it is given.
  abbrev after_publish :
      ReportMailbox R → Option (ReportMailbox R × List (GradeReport R)) → ReportMailbox R
  after_publish m none = m
  after_publish m (some (m', got)) = m'

  abbrev at_mailbox :
      (ReportMailbox R → ReportMailbox R)
      → ℕ
      → List (ℕ × ReportMailbox R)
      → List (ℕ × ReportMailbox R)
  at_mailbox f a [] = []
  at_mailbox f a ((b, m) ∷ r) = if b == a then (b, f m) ∷ r else (b, m) ∷ at_mailbox f a r

  abbrev at_mailboxes :
      (ReportMailbox R → ReportMailbox R)
      → List ℕ
      → List (ℕ × ReportMailbox R)
      → List (ℕ × ReportMailbox R)
  at_mailboxes f [] ms = ms
  at_mailboxes f (a ∷ as') ms = at_mailboxes f as' (at_mailbox f a ms)

  unfoldable pub publish_one : GradeReport R → ReportMailbox R → ReportMailbox R
  publish_one report m = after_publish m (Mailbox.publish 2 [] m report)

  unfoldable pub send_grade_report : Subscribers R → ℕ → GradeReport R → Subscribers R
  send_grade_report s submission_id report = record s {
    mailboxes =
        at_mailboxes (publish_one report) (subs_of (lookup submission_id s.submission_subs))
          s.mailboxes;
  }

  unfoldable pub close_all_submission_subscribers : Subscribers R → ℕ → Subscribers R
  close_all_submission_subscribers s submission_id = record s {
    submission_subs = delete_key submission_id s.submission_subs;
    mailboxes =
        at_mailboxes Mailbox.close (subs_of (lookup submission_id s.submission_subs)) s.mailboxes;
  }

  unfoldable pub unsubscribe : Subscribers R → ℕ → ℕ → Subscribers R
  unsubscribe s submission_id mailbox = record s {
    submission_subs =
        store_subs submission_id
          (remove_first mailbox (subs_of (lookup submission_id s.submission_subs)))
          s.submission_subs;
    mailboxes = at_mailbox Mailbox.close mailbox s.mailboxes;
  }
