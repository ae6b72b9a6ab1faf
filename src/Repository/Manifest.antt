-- ===== src/Repository/Manifest.antt =====
-- pkg/repository/manifest.go: manifests, the files uploaded to each, and the counter of their
-- bytes.
pub mod Files
pub mod Counter
pub mod Uploaded
pub mod Deleted
use autograder_server.Repository.Stored.{Created, create_error, created, is_stored, read_message}
use autograder_server.Repository.Batch.{delete_entry, delete_range, set_key, merge_key, Batches}
use autograder_server.Repository.Messages.{ManifestFileMetadata, ManifestMetadata}
use autograder_server.Repository.Codec.{Codec}
use autograder_server.Repository.Decimal.{decimal}
use autograder_server.Repository.Prefix.{key_upper_bound, prefix_iter_options, uint64_to_bytes}
use autograder_server.Repository.Pebble.{Entries, Pebble}
use autograder_server.Repository.Sequencer.{
  NextId, get_next_id, KvSequencer, next_id, out_of_fuel, write_error, next_id,
}
use autograder_server.Repository.Merger.{Mergeable, ids, unset, ids, strings, counter, unset}
use autograder_server.Base.{
  length, drop, ltb, if◌then◌else◌, ◌%◌, ◌-◌, ◌^◌, codes, ◌++◌, Bool, Bool, Option, List, ℕ, ◌∷◌,
  [], some, none, false, true, ◌>>=◌, ◌≡◌,
}

abbrev get_metadata_prefix : List ℕ
get_metadata_prefix = codes "manifest:metadata:"

abbrev get_filesize_prefix : List ℕ
get_filesize_prefix = codes "manifest:filesize:"

unfoldable pub get_manifest_key : ℕ → List ℕ
get_manifest_key id = get_metadata_prefix ++ uint64_to_bytes id

unfoldable pub get_filesize_key : ℕ → List ℕ
get_filesize_key id = get_filesize_prefix ++ uint64_to_bytes id

unfoldable pub get_file_key : ℕ → List ℕ → List ℕ
get_file_key id filename = codes "manifest:files:" ++ (decimal id ++ b':' ∷ filename)

unfoldable pub get_files_prefix : ℕ → List ℕ
get_files_prefix id = codes "manifest:files:" ++ (decimal id ++ b':' ∷ [])

-- The 64-bit pattern of `-int64(n)`.
abbrev pub negated : ℕ → ℕ
negated n = (2 ^ 64 - n) % 2 ^ 64

module _ (p : Pebble) (cm : Codec Mergeable) (md : Codec ManifestMetadata)
    (fm : Codec ManifestFileMetadata) (b : Batches cm p) where
  open p use {Db, get, put, delete, scan}
  open b use {commit}

  unfoldable pub get_manifest_file_metadata : Db → List ℕ → ℕ → Option ManifestFileMetadata
  get_manifest_file_metadata d filename id = read_message p fm (get d (get_file_key id filename))

  unfoldable pub get_manifest : Db → ℕ → Option ManifestMetadata
  get_manifest d id = read_message p md (get d (get_manifest_key id))

  abbrev stored_manifest : Db × Bool → ℕ → List ℕ → Db × Created
  stored_manifest (d, false) id counter_raw = (d, create_error)
  stored_manifest (d, true) id counter_raw =
      let (d', ok) = commit d (merge_key (get_filesize_key id) counter_raw ∷ []) in
      (d', if ok then created id else create_error)

  abbrev with_next_id : Db × KvSequencer × NextId → List ℕ → List ℕ → Db × KvSequencer × Created
  with_next_id (d, q, next_id id) raw counter_raw =
      let (d', result) = stored_manifest (put d (get_manifest_key id) raw) id counter_raw in
      (d', q, result)
  with_next_id (d, q, write_error) raw counter_raw = (d, q, create_error)
  with_next_id (d, q, out_of_fuel) raw counter_raw = (d, q, create_error)

  abbrev create_marshalled :
      Option (List ℕ) → Option (List ℕ) → Db → KvSequencer → Db × KvSequencer × Created
  create_marshalled none counter_raw d q = (d, q, create_error)
  create_marshalled (some raw) none d q = (d, q, create_error)
  create_marshalled (some raw) (some counter_raw) d q =
      with_next_id (get_next_id p 2 d q) raw counter_raw

  unfoldable pub create_manifest : Db → KvSequencer → ℕ → ℕ → ℕ → ℕ → Db × KvSequencer × Created
  create_manifest d q user_id assignment_id upload_limit now =
      create_marshalled
        (md.marshal (record {
          created_at = some now;
          user_id = user_id;
          assignment_id = assignment_id;
          upload_limit = upload_limit;
        }))
        (cm.marshal (counter 0)) d q

  abbrev delete_marshalled : Db → List ℕ → ℕ → Option (List ℕ) → Db × Bool
  delete_marshalled d filename id none = (d, false)
  delete_marshalled d filename id (some raw) =
      commit d (merge_key (get_filesize_key id) raw ∷ delete_entry (get_file_key id filename) ∷ [])

  abbrev delete_read : Db → List ℕ → ℕ → Option ManifestFileMetadata → Db × Bool
  delete_read d filename id none = (d, false)
  delete_read d filename id (some metadata) =
      delete_marshalled d filename id (cm.marshal (counter (negated metadata.filesize)))

  unfoldable pub delete_file_in_manifest : Db → List ℕ → ℕ → Db × Bool
  unfolding get_manifest_file_metadata
  delete_file_in_manifest d filename id =
      delete_read d filename id (get_manifest_file_metadata d filename id)

  abbrev filenames : ℕ → Entries → List (List ℕ)
  filenames prefix_len [] = []
  filenames prefix_len ((key, raw) ∷ r) = drop prefix_len key ∷ filenames prefix_len r

  -- none is an iterator error.
  unfoldable pub get_files_in_manifest : Db → ℕ → Option (List (List ℕ))
  get_files_in_manifest d id = do
    entries ← scan d (prefix_iter_options (get_files_prefix id))
    some (filenames (length (get_files_prefix id)) entries)

  abbrev counted : Mergeable → Option ℕ
  counted (counter n) = some (if ltb n (2 ^ 63) then n else 0)
  counted unset = none
  counted (strings l) = none
  counted (ids l) = none

  -- A negative counter reads as 0; none is an error.
  unfoldable pub get_manifest_filesize : Db → ℕ → Option ℕ
  get_manifest_filesize d id = do
    mergeable ← read_message p cm (get d (get_filesize_key id))
    counted mergeable

  abbrev add_marshalled : Db → List ℕ → ℕ → Option (List ℕ) → Option (List ℕ) → Db × Bool
  add_marshalled d filename id none counter_raw = (d, false)
  add_marshalled d filename id (some raw) none = (d, false)
  add_marshalled d filename id (some raw) (some counter_raw) =
      commit d
        (set_key (get_file_key id filename) raw ∷ merge_key (get_filesize_key id) counter_raw ∷ [])

  unfoldable pub add_file_to_manifest : Db → List ℕ → ℕ → ℕ → Db × Bool
  add_file_to_manifest d filename id filesize =
      add_marshalled d filename id (fm.marshal (record { manifest_id = id; filesize = filesize }))
        (cm.marshal (counter filesize))

  -- The lock is held by this call alone.
  unfoldable pub delete_manifest : Db → ℕ → Db × Bool
  delete_manifest d id =
      let prefix = get_files_prefix id in
      commit d (
        delete_range prefix (key_upper_bound prefix)
        ∷ delete_entry (get_manifest_key id)
        ∷ delete_entry (get_filesize_key id)
        ∷ [])

  -- Whether the manifest is there to be locked.
  abbrev pub lock_manifest : Db → ℕ → Bool
  lock_manifest d id = is_stored (get d (get_manifest_key id))
