-- ===== src/Tests/Pending.antt =====
-- Runs of the pending list of pkg/grader/grpc/graderhub_service.go.
use autograder_server.Hub.Pending.Twice.{pushed_twice_stays}
use autograder_server.Tests.Data.{request_7, request_8}
use autograder_server.Hub.Pending.{
  PendingList, push_pending_grade_queue, new_pending_list, remove_pending_grade_request,
  get_pending_rank,
}
use autograder_server.Hub.Pending.Ranks
use autograder_server.Hub.Pending.Pushes
use autograder_server.Hub.Pending.Queue.{
  get_pending_rank-place, requests-remove_pending_grade_request, place, without, requests,
}
use autograder_server.Base.{lookup, none, ◌++◌, ◌≡◌, ◌∷◌, [], refl}

empty-IsValid : Ranks.IsValid new_pending_list
unfolding new_pending_list
empty-IsValid = record { ranked = tt; rising = tt; indexed = tt; present = λ s a e. cc }

-- Submission 7, and then 8, waits.
abbrev pub one_pending : PendingList
one_pending = (push_pending_grade_queue new_pending_list request_7).0

abbrev pub two_pending : PendingList
two_pending = (push_pending_grade_queue one_pending request_8).0

pub one-IsValid : Ranks.IsValid one_pending
unfolding push_pending_grade_queue new_pending_list
one-IsValid = Pushes.push_pending_grade_queue-IsValid new_pending_list request_7 empty-IsValid refl

pub two-IsValid : Ranks.IsValid two_pending
unfolding push_pending_grade_queue new_pending_list
two-IsValid = Pushes.push_pending_grade_queue-IsValid one_pending request_8 one-IsValid refl

requests-remove_pending_grade_request_example :
    requests (remove_pending_grade_request two_pending 7).0.queued_list
    ≡ without 7 (requests two_pending.queued_list)
requests-remove_pending_grade_request_example =
    requests-remove_pending_grade_request two_pending 7 two-IsValid

get_pending_rank-place_example :
    get_pending_rank two_pending 8 ≡ place 8 (requests two_pending.queued_list)
get_pending_rank-place_example = get_pending_rank-place two_pending 8 two-IsValid

pushed_twice_stays_example :
    let twice =
      (push_pending_grade_queue
        (push_pending_grade_queue new_pending_list request_7).0
        request_7).0 in
    let l' = (remove_pending_grade_request twice 7).0 in
    (requests l'.queued_list ≡ requests new_pending_list.queued_list ++ request_7 ∷ [])
    × (lookup 7 l'.queued_list_index ≡ none)
    × (remove_pending_grade_request l' 7 ≡ (l', []))
pushed_twice_stays_example = pushed_twice_stays new_pending_list request_7 request_7 empty-IsValid
