-- ===== src/Repository/Grader/Registry.antt =====
-- The graders of pkg/repository/grader.go by id and by name.
pub mod Names
use autograder_server.Repository.Grader.{
  big_endian_uint64, update_grader, prefix_iter_options, uint64_to_bytes, Entries, get_grader_by_id,
  get_grader_id_by_submission_id, GraderStatusMetadata, Codec, read_id,
}
use autograder_server.Repository.Pebble.{Pebble}
use autograder_server.Repository.Sequencer.{
  get_next_id, KvSequencer, NextId, out_of_fuel, write_error, next_id,
}
use autograder_server.Base.{
  drop, true, length, codes, Bool, Option, List, ℕ, ◌∷◌, [], some, none, false, true,
}
use autograder_server.Repository.Grader.Keys.{
  get_grader_id_prefix, get_grader_name_key, get_grader_id_key,
}

module _ (p : Pebble) where
  open p use {Db, get, put, delete, scan}

  unfoldable pub delete_grader : Db → ℕ → Db × Bool
  delete_grader d grader_id = delete d (get_grader_id_key grader_id)

  unfoldable pub get_grader_id_by_name : Db → List ℕ → Option ℕ
  get_grader_id_by_name d name = read_id p (get d (get_grader_name_key name))

  module _ (c : Codec GraderStatusMetadata) where
    -- A grader that cannot be unmarshalled is passed over.
    abbrev cons_grader :
        ℕ
        → Option GraderStatusMetadata
        → List (ℕ × GraderStatusMetadata)
        → List (ℕ × GraderStatusMetadata)
    cons_grader id none r = r
    cons_grader id (some grader) r = (id, grader) ∷ r

    abbrev graders_in : ℕ → Entries → List (ℕ × GraderStatusMetadata)
    graders_in prefix_len [] = []
    graders_in prefix_len ((key, raw) ∷ r) =
        cons_grader (big_endian_uint64 (drop prefix_len key)) (c.unmarshal raw)
          (graders_in prefix_len r)

    abbrev all_graders : ℕ → Option Entries → Option (List (ℕ × GraderStatusMetadata))
    all_graders prefix_len none = none
    all_graders prefix_len (some entries) = some (graders_in prefix_len entries)

    -- The two lists that the code returns go together; none is an iterator error.
    unfoldable pub get_all_graders : Db → Option (List (ℕ × GraderStatusMetadata))
    get_all_graders d =
        all_graders (length get_grader_id_prefix)
          (scan d (prefix_iter_options get_grader_id_prefix))

    abbrev with_id : ℕ → Option GraderStatusMetadata → Option (GraderStatusMetadata × ℕ)
    with_id id none = none
    with_id id (some grader) = some (grader, id)

    abbrev grader_of : Db → Option ℕ → Option (GraderStatusMetadata × ℕ)
    grader_of d none = none
    grader_of d (some id) = with_id id (get_grader_by_id p c d id)

    -- The code gives the error of the first read that fails; here every error is none.
    unfoldable pub get_grader_by_name : Db → List ℕ → Option (GraderStatusMetadata × ℕ)
    get_grader_by_name d name = grader_of d (get_grader_id_by_name d name)

    unfoldable pub get_grader_by_submission_id : Db → ℕ → Option (GraderStatusMetadata × ℕ)
    get_grader_by_submission_id d submission_id =
        grader_of d (get_grader_id_by_submission_id p d submission_id)

    abbrev name_written : Db × Bool → ℕ → Db × Option ℕ
    name_written (d, true) id = (d, some id)
    name_written (d, false) id = (d, none)

    abbrev grader_written : Db × Bool → List ℕ → ℕ → Db × Option ℕ
    grader_written (d, true) name id =
        name_written (put d (get_grader_name_key name) (uint64_to_bytes id)) id
    grader_written (d, false) name id = (d, none)

    abbrev create_with : Db → NextId → List ℕ → GraderStatusMetadata → Db × Option ℕ
    create_with d (next_id id) name metadata =
        grader_written (update_grader p c d id metadata) name id
    create_with d write_error name metadata = (d, none)
    create_with d out_of_fuel name metadata = (d, none)

    -- An id is taken from the sequencer in at most two rounds.
    unfoldable pub create_grader :
        Db → KvSequencer → List ℕ → GraderStatusMetadata → Db × KvSequencer × Option ℕ
    create_grader d q name metadata =
        let (d', q', r) = get_next_id p 2 d q in
        let (d2, created) = create_with d' r name metadata in (d2, q', created)
