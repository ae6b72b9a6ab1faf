-- ===== src/Tests/Repository.antt =====
-- Runs of the models of pkg/repository at concrete inputs.
use autograder_server.Repository.Grader.Registry.Names.{get_grader_by_name-create_grader}
use autograder_server.Repository.Grader.Registry.{get_grader_by_name, create_grader}
use autograder_server.Repository.Grader.Keys.{get_submission_grader_key}
use autograder_server.Repository.Grader.Claims.{
  reclaimed_stays_listed, listed, Released, owner-claim_submission,
}
use autograder_server.Repository.Prefix.Bounds.{in_range-prefix_iter_options}
use autograder_server.Repository.Prefix.Words.{big_endian-uint64_to_bytes}
use autograder_server.Repository.Pebble.{Got, failed, not_found, found, Entries}
use autograder_server.Repository.Sequencer.{request_next_batch, get_next_id, KvSequencer}
use autograder_server.Repository.Grader.{
  update_grader, release_owned, release_submission, claim_submission,
  get_grader_id_by_submission_id,
}
use autograder_server.Repository.Sequencer.Unique.{run-Increasing, restart, issue, run, Increasing}
use autograder_server.Repository.Sequencer.Batches.{Reserved}
use autograder_server.Repository.Prefix.{
  has_prefix, prefix_iter_options, uint64_to_bytes, in_range, big_endian_uint64,
}
use autograder_server.Base.{
  none, true, ◌==◌, if◌then◌else◌, ◌≡◌, bytes_eq, arith, ◌∷◌, [], some, refl, ℕ,
}
use autograder_server.Tests.Store.{plain_grader, grader_codec, in_memory}

-- The ids 1 to 10 are reserved, and 10 is the next.
abbrev pub tenth : KvSequencer
tenth = record { key = b'k' ∷ []; next = 10; limit = 11 }

abbrev pub eleven_stored : Entries
eleven_stored = (b'k' ∷ [], uint64_to_bytes 11) ∷ []

tenth-Reserved : Reserved in_memory 11 eleven_stored tenth
unfolding bytes_eq
tenth-Reserved = record {
  stored = 11;
  reads = refl;
  covers = omega arith;
  ordered = omega arith;
  below = omega arith;
}

in_range-prefix_iter_options_example :
    in_range (prefix_iter_options (1 ∷ 255 ∷ [])) (1 ∷ 255 ∷ 7 ∷ [])
    ≡ has_prefix (1 ∷ 255 ∷ []) (1 ∷ 255 ∷ 7 ∷ [])
in_range-prefix_iter_options_example =
    in_range-prefix_iter_options (1 ∷ 255 ∷ []) (1 ∷ 255 ∷ 7 ∷ []) (omega arith) (omega arith)

big_endian-uint64_to_bytes_example : big_endian_uint64 (uint64_to_bytes 65537) ≡ 65537
big_endian-uint64_to_bytes_example = big_endian-uint64_to_bytes 65537 (omega arith)

run-Increasing_example :
    Increasing in_memory 10 (run in_memory (issue ∷ restart ∷ issue ∷ []) eleven_stored tenth)
run-Increasing_example =
    run-Increasing in_memory (issue ∷ restart ∷ issue ∷ []) eleven_stored tenth 11 tenth-Reserved
      (omega arith)

-- Submission 7 is claimed for grader 3.
abbrev claimed_7 : Entries
claimed_7 = (claim_submission in_memory [] 3 7).0

abbrev reclaimed_7 : Entries
reclaimed_7 = (claim_submission in_memory claimed_7 4 7).0

claims : (d : Entries) (g s : ℕ) → (claim_submission in_memory d g s).1 ≡ true
unfolding claim_submission
claims d g s = refl

release_owned_ok : (d : Entries) (s : ℕ) (o : Got) → (release_owned in_memory d s o).1 ≡ true
release_owned_ok d s (found raw) = refl
release_owned_ok d s not_found = refl
release_owned_ok d s failed = refl

releases : (d : Entries) (s : ℕ) → Released in_memory d s
unfolding release_submission
releases d s = record {
  first_ok = refl;
  second_ok = release_owned_ok d s (in_memory.get d (get_submission_grader_key s));
}

owner-claim_submission_example :
    get_grader_id_by_submission_id in_memory claimed_7 8
    ≡ (if 7 == 8 then some 3 else get_grader_id_by_submission_id in_memory [] 8)
owner-claim_submission_example =
    owner-claim_submission in_memory [] 3 7 8 (omega arith) (omega arith) (omega arith)
      (claims [] 3 7)

reclaimed_stays_listed_example :
    listed in_memory (release_submission in_memory reclaimed_7 7).0 3 7 ≡ true
reclaimed_stays_listed_example =
    reclaimed_stays_listed in_memory [] 3 4 7 (omega arith) (omega arith) (omega arith)
      (λ e. omega arith) (claims [] 3 7) (claims claimed_7 4 7) (releases reclaimed_7 7)

tenth_created :
    (create_grader in_memory grader_codec eleven_stored tenth (b'a' ∷ []) (plain_grader 2 none)).2
    ≡ some 10
unfolding create_grader update_grader get_next_id request_next_batch
tenth_created = refl

get_grader_by_name-create_grader_example :
    get_grader_by_name in_memory grader_codec
      (create_grader in_memory grader_codec eleven_stored tenth (b'a' ∷ []) (plain_grader 2 none)).0
      (b'a' ∷ [])
    ≡ some (plain_grader 2 none, 10)
get_grader_by_name-create_grader_example =
    get_grader_by_name-create_grader in_memory grader_codec eleven_stored tenth (b'a' ∷ [])
      (plain_grader 2 none) 10 (omega arith) tenth_created
