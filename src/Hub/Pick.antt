-- ===== src/Hub/Pick.antt =====
-- The choice of a grader in pkg/grader/grpc/graderhub_service.go: `graderLoad`, `graderHasTags` and
-- `pickGrader`. A Go map is a list of pairs, of which the first with a key counts.
pub mod Best
use autograder_server.Base.{
  lookup, ◌^◌, ◌%◌, ◌+◌, not, ◌==◌, leb, bytes_eq, ltb, if◌then◌else◌, Bool, Option, List, ℕ, ◌∷◌,
  [], some, none, false, true,
}
use autograder_server.Hub.Model.{GradeRequest}

pub record GraderLoad : Type 0 where
  pub concurrency : ℕ
  pub tags : List (List ℕ)
  pub running : ℕ

abbrev pub Loads : Type 0
Loads = List (ℕ × GraderLoad)

-- A loop over the grader's tags for each tag of the request.
abbrev has_tag : List (List ℕ) → List ℕ → Bool
has_tag [] tag = false
has_tag (gt ∷ r) tag = if bytes_eq gt tag then true else has_tag r tag

unfoldable pub grader_has_tags : List (List ℕ) → List (List ℕ) → Bool
grader_has_tags grader_tags [] = true
grader_has_tags grader_tags (tag ∷ r) =
    if has_tag grader_tags tag then grader_has_tags grader_tags r else false

-- sort.Slice over the ids of the map.
insert_id : ℕ → List ℕ → List ℕ
insert_id a [] = a ∷ []
insert_id a (b ∷ r) = if ltb b a then b ∷ insert_id a r else a ∷ b ∷ r

unfoldable pub sorted_ids : Loads → List ℕ
unfolding insert_id
sorted_ids [] = []
sorted_ids ((j, l) ∷ r) = insert_id j (sorted_ids r)

-- The variables `best` and `bestLoad` of the loop.
pub record Candidate : Type 0 where
  pub best : ℕ
  pub load : GraderLoad

abbrev is_less_loaded : GraderLoad → Option Candidate → Bool
is_less_loaded load none = true
is_less_loaded load (some c) = ltb load.running c.load.running

-- One round of the loop; every id has a load.
abbrev pub consider : List (List ℕ) → ℕ → Option GraderLoad → Option Candidate → Option Candidate
consider request_tags id none c = c
consider request_tags id (some load) c =
    if leb load.concurrency load.running
    then c
    else if not (grader_has_tags load.tags request_tags)
    then c
    else if is_less_loaded load c
    then some (record { best = id; load = load })
    else c

pub pick_loop : List (List ℕ) → Loads → List ℕ → Option Candidate → Option Candidate
pick_loop request_tags loads [] c = c
pick_loop request_tags loads (id ∷ ids) c =
    pick_loop request_tags loads ids (consider request_tags id (lookup id loads) c)

-- bestLoad.running++, through the pointer that the map holds.
unfoldable pub count_running : ℕ → Loads → Loads
count_running id [] = []
count_running id ((j, l) ∷ r) =
    if j == id
    then (j, record l { running = (l.running + 1) % 2 ^ 64 }) ∷ r
    else (j, l) ∷ count_running id r

abbrev picked : Loads → Option Candidate → ℕ × Loads
picked loads none = (0, loads)
picked loads (some c) = (c.best, count_running c.best loads)

unfoldable pub pick_grader : GradeRequest → Loads → ℕ × Loads
unfolding pick_loop sorted_ids
pick_grader request loads = picked loads (pick_loop request.tags loads (sorted_ids loads) none)
