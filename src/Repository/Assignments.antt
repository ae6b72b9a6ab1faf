-- ===== src/Repository/Assignments.antt =====
-- pkg/repository/assignment.go: the assignments by id.
use autograder_server.Repository.Decimal.{decimal}
use autograder_server.Repository.Messages.{Assignment}
use autograder_server.Repository.Codec.{Codec}
use autograder_server.Repository.Pebble.{Pebble}
use autograder_server.Repository.Sequencer.{
  get_next_id, NextId, KvSequencer, out_of_fuel, write_error, next_id,
}
use autograder_server.Repository.Stored.{Created, read_message, put_message, create_error, created}
use autograder_server.Base.{if◌then◌else◌, ◌++◌, codes, Bool, Option, List, ℕ}

unfoldable pub get_assignment_key : ℕ → List ℕ
get_assignment_key id = codes "assignment:id:" ++ decimal id

module _ (p : Pebble) (c : Codec Assignment) where
  open p use {Db, get, put}

  unfoldable pub update_assignment : Db → ℕ → Assignment → Db × Bool
  update_assignment d id assignment =
      put_message p c d (get_assignment_key id) (c.marshal assignment)

  unfoldable pub create_numbered :
      Db × KvSequencer × NextId → Assignment → Db × KvSequencer × Created
  unfolding update_assignment
  create_numbered (d, q, next_id id) assignment =
      let (d', ok) = update_assignment d id assignment in
      (d', q, if ok then created id else create_error)
  create_numbered (d, q, write_error) assignment = (d, q, create_error)
  create_numbered (d, q, out_of_fuel) assignment = (d, q, create_error)

  unfoldable pub create_assignment : Db → KvSequencer → Assignment → Db × KvSequencer × Created
  unfolding create_numbered
  create_assignment d q assignment = create_numbered (get_next_id p 2 d q) assignment

  unfoldable pub get_assignment : Db → ℕ → Option Assignment
  get_assignment d id = read_message p c (get d (get_assignment_key id))
