-- ===== src/Tests/Registration.antt =====
-- A run of `RegisterGrader` of pkg/grader/grpc/graderhub_service.go.
use autograder_server.Repository.Grader.Keys.{get_grader_name_key}
use autograder_server.Hub.Auth.{encode_to_string, new_session}
use autograder_server.Repository.Sequencer.{request_next_batch, get_next_id, KvSequencer}
use autograder_server.Tests.Hub.{busy_hub}
use autograder_server.Repository.Grader.Registry.{create_grader}
use autograder_server.Repository.Pebble.{Entries}
use autograder_server.Tests.Repository.{eleven_stored, tenth}
use autograder_server.Hub.Registration.{registered, Registered, named_grader, register_grader}
use autograder_server.Hub.Registration.Takeover.{register_grader-Outcome, Outcome}
use autograder_server.Hub.State.{Hub}
use autograder_server.Repository.Grader.{update_grader, GraderInfo}
use autograder_server.Base.{◌≡◌, bytes_eq, ℕ, ◌∷◌, [], some, none, refl, List, ℕ}
use autograder_server.Tests.Store.{in_memory, grader_codec, plain_grader}

abbrev new_info : GraderInfo
new_info = record { hostname = []; tags = []; concurrency = 2 }

-- A grader with a new name gets the id 10 and the session of the byte 5.
abbrev sequenced_hub : Hub Entries (List ℕ)
sequenced_hub = record busy_hub { db = eleven_stored }

abbrev registration : (Hub Entries (List ℕ) × Registered) × KvSequencer
registration =
    register_grader in_memory grader_codec sequenced_hub tenth none new_info [] 77 (some (5 ∷ []))

registered_10 : registration.0.1 ≡ registered 10 (encode_to_string (5 ∷ []))
unfolding register_grader named_grader create_grader update_grader get_next_id request_next_batch
    new_session bytes_eq get_grader_name_key
registered_10 = refl

register_grader-Outcome_example :
    Outcome in_memory grader_codec sequenced_hub tenth none
      (plain_grader 2 (some 77))
      []
      registration.0
register_grader-Outcome_example =
    register_grader-Outcome in_memory grader_codec sequenced_hub tenth none new_info [] 77
      (some (5 ∷ []))
