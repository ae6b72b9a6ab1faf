-- ===== src/Hub/Pending.antt =====
-- The pending list of pkg/grader/grpc/graderhub_service.go: `queuedList` with its ranks and
-- `queuedListIndex`. A list element is known by an address, since the index keeps pointers.
pub mod Ranks
pub mod Pushes
pub mod Queue
pub mod Twice
use autograder_server.Base.{
  lookup, delete_key, ◌+◌, ◌++◌, ◌==◌, if◌then◌else◌, length, ◌-◌, Option, List, ℕ, ◌∷◌, [], some,
  none,
}
use autograder_server.Hub.Model.{GradeRequest}

pub record Element : Type 0 where
  pub address : ℕ
  pub rank : ℕ
  pub request : GradeRequest

-- The index maps a submission to an address; of two pairs with one key the first counts.
pub record PendingList : Type 0 where
  pub queued_list : List Element
  pub queued_list_index : List (ℕ × ℕ)
  pub next_address : ℕ

-- A call of `onPendingRankChanged`.
pub record RankChange : Type 0 where
  pub submission_id : ℕ
  pub new_rank : ℕ
  pub total : ℕ

unfoldable pub new_pending_list : PendingList
new_pending_list = record { queued_list = []; queued_list_index = []; next_address = 0 }

-- The loop over the elements behind the removed one: every rank goes down and is announced.
abbrev pub lower_ranks : List Element → List Element
lower_ranks [] = []
lower_ranks (p ∷ r) = record p { rank = p.rank - 1 } ∷ lower_ranks r

abbrev pub announced : ℕ → List Element → List RankChange
announced total [] = []
announced total (p ∷ r) =
    record { submission_id = p.request.submission_id; new_rank = p.rank - 1; total = total }
    ∷ announced total r

-- The elements before an address and behind it; the element itself is left out.
abbrev pub remove_at : ℕ → List Element → List Element
remove_at a [] = []
remove_at a (p ∷ r) = let rest = p ∷ remove_at a r in if p.address == a then lower_ranks r else rest

abbrev pub behind : ℕ → List Element → List Element
behind a [] = []
behind a (p ∷ r) = let rest = behind a r in if p.address == a then r else rest

abbrev remove_indexed : PendingList → ℕ → Option ℕ → PendingList × List RankChange
remove_indexed l submission_id none = (l, [])
remove_indexed l submission_id (some a) = (
  record l {
    queued_list = remove_at a l.queued_list;
    queued_list_index = delete_key submission_id l.queued_list_index;
  },
  announced (length l.queued_list - 1) (behind a l.queued_list),
)

unfoldable pub remove_pending_grade_request : PendingList → ℕ → PendingList × List RankChange
remove_pending_grade_request l submission_id =
    remove_indexed l submission_id (lookup submission_id l.queued_list_index)

unfoldable pub push_pending_grade_queue : PendingList → GradeRequest → PendingList × List RankChange
push_pending_grade_queue l request =
    let n = length l.queued_list in
    (
      record l {
        queued_list =
            l.queued_list
            ++ record { address = l.next_address; rank = n + 1; request = request } ∷ [];
        queued_list_index = (request.submission_id, l.next_address) ∷ l.queued_list_index;
        next_address = l.next_address + 1;
      },
      record { submission_id = request.submission_id; new_rank = n + 1; total = n + 1 } ∷ [],
    )

abbrev rank_at : ℕ → List Element → ℕ
rank_at a [] = 0
rank_at a (p ∷ r) = if p.address == a then p.rank else rank_at a r

abbrev pending_rank : PendingList → Option ℕ → ℕ × ℕ
pending_rank l none = (0, 0)
pending_rank l (some a) = (rank_at a l.queued_list, length l.queued_list)

-- The rank and the total; both are 0 for a submission that is not queued.
unfoldable pub get_pending_rank : PendingList → ℕ → ℕ × ℕ
get_pending_rank l submission_id = pending_rank l (lookup submission_id l.queued_list_index)
