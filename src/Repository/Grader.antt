-- ===== src/Repository/Grader.antt =====
-- pkg/repository/grader.go: the graders, their metadata and their claims on submissions. A claim is
-- stored twice, under the submission and under the grader.
pub mod Keys
pub mod Claims
pub mod Listing
pub mod Registry
use autograder_server.Repository.Codec.{Codec}
use autograder_server.Repository.Decimal.{atoi}
use autograder_server.Repository.Prefix.{big_endian_uint64, prefix_iter_options, uint64_to_bytes}
use autograder_server.Repository.Pebble.{failed, failed, not_found, found, Got, Entries, Pebble}
use autograder_server.Base.{
  drop, zero, codes, if◌then◌else◌, length, Bool, Option, List, ℕ, ◌∷◌, [], some, none, false, true,
  suc,
}
use Keys.{
  get_submission_grader_key, get_grader_submission_prefix, get_grader_submission_key,
  get_grader_id_prefix, get_grader_id_key, get_grader_name_key, get_metadata_prefix,
  get_metadata_key,
}

-- proto/model.proto: GraderInfo and GraderStatusMetadata.
pub record GraderInfo : Type 0 where
  pub hostname : List ℕ
  pub tags : List (List ℕ)
  pub concurrency : ℕ

pub data GraderStatus : Type 0 where
  offline online unknown : GraderStatus

pub record GraderStatusMetadata : Type 0 where
  pub info : GraderInfo
  pub ip : List ℕ
  pub status : GraderStatus
  pub last_heartbeat : Option ℕ

module _ (p : Pebble) where
  open p use {Db, get, put, delete, scan}

  -- `raw` of a `Get`, as a big-endian id; none is an error.
  abbrev pub read_id : Got → Option ℕ
  read_id (found raw) = some (big_endian_uint64 raw)
  read_id not_found = none
  read_id failed = none

  unfoldable pub get_grader_id_by_submission_id : Db → ℕ → Option ℕ
  get_grader_id_by_submission_id d submission_id =
      read_id (get d (get_submission_grader_key submission_id))

  -- The second write is made if the first has no error.
  unfoldable pub claim_submission : Db → ℕ → ℕ → Db × Bool
  claim_submission d grader_id submission_id =
      let (d', success) =
        put d (get_submission_grader_key submission_id) (uint64_to_bytes grader_id) in
      if success then put d' (get_grader_submission_key grader_id submission_id) [] else (d', false)

  -- A read that fails is no error; the error of the first delete is not looked at.
  abbrev pub release_owned : Db → ℕ → Got → Db × Bool
  release_owned d submission_id (found raw) =
      let (d', _) = delete d (get_submission_grader_key submission_id) in
      delete d' (get_grader_submission_key (big_endian_uint64 raw) submission_id)
  release_owned d submission_id not_found = (d, true)
  release_owned d submission_id failed = (d, true)

  unfoldable pub release_submission : Db → ℕ → Db × Bool
  release_submission d submission_id =
      release_owned d submission_id (get d (get_submission_grader_key submission_id))

  -- The ids in the keys behind a prefix; a key that is no number is passed over.
  abbrev pub cons_id : Option ℕ → List ℕ → List ℕ
  cons_id none ids = ids
  cons_id (some id) ids = id ∷ ids

  abbrev pub submission_ids : ℕ → Entries → List ℕ
  submission_ids prefix_len [] = []
  submission_ids prefix_len ((key, v) ∷ r) =
      cons_id (atoi (drop prefix_len key)) (submission_ids prefix_len r)

  abbrev scanned : ℕ → Option Entries → Option (List ℕ)
  scanned prefix_len none = none
  scanned prefix_len (some entries) = some (submission_ids prefix_len entries)

  unfoldable pub get_submissions_by_grader : Db → ℕ → Option (List ℕ)
  get_submissions_by_grader d grader_id =
      let prefix = get_grader_submission_prefix grader_id in
      scanned (length prefix) (scan d (prefix_iter_options prefix))

  abbrev delete_all : Db → Entries → Db
  delete_all d [] = d
  delete_all d ((key, v) ∷ r) = delete_all (delete d key).0 r

  abbrev cleared : Db → Option Entries → Db
  cleared d none = d
  cleared d (some entries) = delete_all d entries

  unfoldable pub clear_running : Db → Db
  clear_running d = cleared d (scan d (prefix_iter_options (codes "running:")))

  -- Metadata of a grader: bytes under a key of its own.
  unfoldable pub put_metadata : Db → ℕ → List ℕ → List ℕ → Db × Bool
  put_metadata d grader_id key value = put d (get_metadata_key grader_id key) value

  unfoldable pub get_metadata : Db → ℕ → List ℕ → Got
  get_metadata d grader_id key = get d (get_metadata_key grader_id key)

  unfoldable pub delete_metadata : Db → ℕ → List ℕ → Db × Bool
  delete_metadata d grader_id key = delete d (get_metadata_key grader_id key)

  abbrev behind : ℕ → Entries → Entries
  behind prefix_len [] = []
  behind prefix_len ((key, v) ∷ r) = (drop prefix_len key, v) ∷ behind prefix_len r

  -- The keys behind the prefix with their values; none is an iterator error.
  unfoldable pub get_all_metadata : Db → ℕ → Option Entries
  get_all_metadata d grader_id =
      let prefix = get_metadata_prefix grader_id in
      elim (scan d (prefix_iter_options prefix)) [
        | none ↦ none
        | some entries ↦ some (behind (length prefix) entries)
      ]

  module _ (c : Codec GraderStatusMetadata) where
    open c use {marshal, unmarshal}

    abbrev pub put_grader : Db → ℕ → Option (List ℕ) → Db × Bool
    put_grader d grader_id none = (d, false)
    put_grader d grader_id (some raw) = put d (get_grader_id_key grader_id) raw

    unfoldable pub update_grader : Db → ℕ → GraderStatusMetadata → Db × Bool
    update_grader d grader_id grader = put_grader d grader_id (marshal grader)

    abbrev read_grader : Got → Option GraderStatusMetadata
    read_grader (found raw) = unmarshal raw
    read_grader not_found = none
    read_grader failed = none

    unfoldable pub get_grader_by_id : Db → ℕ → Option GraderStatusMetadata
    get_grader_by_id d grader_id = read_grader (get d (get_grader_id_key grader_id))
