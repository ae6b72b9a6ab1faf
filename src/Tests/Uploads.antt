-- ===== src/Tests/Uploads.antt =====
-- Uploads to a manifest in memory.
use autograder_server.Repository.Decimal.{decimal}
use autograder_server.Repository.Merger.{append_newer, finish, merge_newer, new_kv_merge}
use autograder_server.Repository.Prefix.{has_prefix, uint64_to_bytes}
use autograder_server.Tests.Batch.{counters, batches, counter_codec}
use autograder_server.Repository.Codec.{Codec}
use autograder_server.Repository.Manifest.Files.{total, without, size_of}
use autograder_server.Repository.Manifest.Uploaded.{
  delete_file_in_manifest-HasFiles, HasFiles, add_file_to_manifest-HasFiles,
}
use autograder_server.Tests.Store.{in_memory}
use autograder_server.Service.Upload.Race.{
  interleaved_uploads, token, handle_file_upload-Uploaded, Uploaded,
}
use autograder_server.Repository.Pebble.{Entries}
use autograder_server.Service.Upload.{
  HttpStatus, status_ok, status_ok, add_upload, check_upload, handle_file_upload,
  UploadTokenPayload, UploadRequest,
}
use autograder_server.Repository.Manifest.{
  get_manifest_filesize, get_file_key, get_filesize_key, add_file_to_manifest, get_manifest_key,
  get_manifest_file_metadata, delete_file_in_manifest,
}
use autograder_server.Repository.Messages.{ManifestMetadata, ManifestFileMetadata}
use autograder_server.Base.{
  ◌≤◌, ◌+◌, false, eq_of_some, subst, bytes_eq, codes, Option, List, ℕ, arith, ◌∷◌, [], inl, some,
  none, true, refl, ◌≡◌,
}

abbrev file_read : List ℕ → Option ManifestFileMetadata
file_read (id ∷ size ∷ []) = some (record { manifest_id = id; filesize = size })
file_read _ = none

abbrev pub file_codec : Codec ManifestFileMetadata
file_codec = record {
  marshal = λ m. some (m.manifest_id ∷ m.filesize ∷ []);
  unmarshal = file_read;
  unmarshal-marshal = λ m raw e. subst (λ t. file_read t ≡ some m) (eq_of_some e) refl;
}

-- The uploads do not read the manifest's own message.
abbrev pub manifest_codec : Codec ManifestMetadata
manifest_codec = record {
  marshal = λ m. none;
  unmarshal = λ raw. none;
  unmarshal-marshal = λ m raw e. cc;
}

-- Manifest 4, which is there and has no files.
abbrev empty_manifest : Entries
empty_manifest = (get_manifest_key 4, 1 ∷ []) ∷ (get_filesize_key 4, 0 ∷ []) ∷ []

abbrev Holding : Entries → List (List ℕ × ℕ) → Type 0
Holding d files =
    HasFiles in_memory counter_codec manifest_codec file_codec batches counters d 4 files

no_files : Holding empty_manifest []
unfolding get_manifest_file_metadata get_manifest_key get_filesize_key get_file_key bytes_eq
    uint64_to_bytes
no_files = record {
  distinct = tt;
  each = λ name. refl;
  counter_raw = 0 ∷ [];
  counter_found = refl;
  counter_total = refl;
}

abbrev add : Entries → List ℕ → ℕ → Entries
add d name size =
    (add_file_to_manifest in_memory counter_codec manifest_codec file_codec batches d name 4 size).0

add_file_to_manifest-HasFiles_example :
    Holding (add empty_manifest (codes "a") 10) ((codes "a", 10) ∷ [])
add_file_to_manifest-HasFiles_example =
    add_file_to_manifest-HasFiles in_memory counter_codec manifest_codec file_codec batches counters
      empty_manifest 4 10 (codes "a") [] no_files refl (omega arith)
      (unfold add_file_to_manifest in refl)

one_file : Holding (add empty_manifest (codes "a") 10) ((codes "a", 10) ∷ [])
one_file =
    add_file_to_manifest-HasFiles in_memory counter_codec manifest_codec file_codec batches counters
      empty_manifest 4 10 (codes "a") [] no_files refl (omega arith)
      (unfold add_file_to_manifest in refl)

a_is_there : size_of (codes "a") ((codes "a", 10) ∷ []) ≡ some 10
unfolding bytes_eq
a_is_there = refl

a_is_deleted :
    (delete_file_in_manifest in_memory counter_codec manifest_codec file_codec batches
      (add empty_manifest (codes "a") 10)
      (codes "a")
      4).1
    ≡ true
unfolding delete_file_in_manifest get_manifest_file_metadata add_file_to_manifest get_manifest_key
    get_filesize_key get_file_key bytes_eq uint64_to_bytes new_kv_merge merge_newer finish
    append_newer decimal
a_is_deleted = refl

delete_file_in_manifest-HasFiles_example :
    Holding
      (delete_file_in_manifest in_memory counter_codec manifest_codec file_codec batches
        (add empty_manifest (codes "a") 10)
        (codes "a")
        4).0
      (without (codes "a") ((codes "a", 10) ∷ []))
delete_file_in_manifest-HasFiles_example =
    delete_file_in_manifest-HasFiles in_memory counter_codec manifest_codec file_codec batches
      counters (add empty_manifest (codes "a") 10) 4 10 (codes "a") ((codes "a", 10) ∷ []) one_file
      a_is_there a_is_deleted

abbrev upload_a : UploadTokenPayload
upload_a = record { manifest_id = 4; filename = codes "a"; filesize = 10; upload_limit = 15 }

abbrev request_a : UploadRequest
request_a = record {
  payload = some upload_a;
  content_type = codes "multipart/form-data; boundary=x";
  form_parsed = true;
  form_file = some 10;
  head_read = true;
  rewound = true;
  stored = true;
}

upload_is_ok :
    (handle_file_upload in_memory counter_codec manifest_codec file_codec batches empty_manifest
      request_a).1
    ≡ status_ok
unfolding handle_file_upload check_upload add_upload get_manifest_file_metadata
    get_manifest_filesize add_file_to_manifest get_manifest_key get_filesize_key get_file_key
    bytes_eq uint64_to_bytes has_prefix
upload_is_ok = refl

handle_file_upload-Uploaded_example :
    Uploaded in_memory counter_codec manifest_codec file_codec batches counters
      (handle_file_upload in_memory counter_codec manifest_codec file_codec batches empty_manifest
        request_a).0
      upload_a
      10
      []
handle_file_upload-Uploaded_example =
    handle_file_upload-Uploaded in_memory counter_codec manifest_codec file_codec batches counters
      empty_manifest request_a upload_a 10 [] no_files (inl refl) (omega arith) refl refl
      upload_is_ok

-- The steps of two uploads of 10 bytes each under a limit of 15.
abbrev token_of : List ℕ → UploadTokenPayload
token_of name =
    token in_memory counter_codec manifest_codec file_codec batches counters 4 name 10 15

abbrev check : Entries → List ℕ → Entries × Option HttpStatus
check d name =
    check_upload in_memory counter_codec manifest_codec file_codec batches d (token_of name) 10

abbrev added : Entries → List ℕ → Entries × HttpStatus
added d name =
    add_upload in_memory counter_codec manifest_codec file_codec batches d (token_of name) 10

abbrev both_checked : Entries
both_checked = (check (check empty_manifest (codes "a")).0 (codes "b")).0

first_checked : (check empty_manifest (codes "a")).1 ≡ none
unfolding check_upload bytes_eq get_manifest_key uint64_to_bytes get_manifest_filesize
    get_manifest_file_metadata get_file_key get_filesize_key
first_checked = refl

second_checked : (check (check empty_manifest (codes "a")).0 (codes "b")).1 ≡ none
unfolding check_upload bytes_eq get_manifest_key uint64_to_bytes get_manifest_filesize
    get_manifest_file_metadata get_file_key get_filesize_key
second_checked = refl

first_added : (added both_checked (codes "a")).1 ≡ status_ok
unfolding check_upload add_upload add_file_to_manifest bytes_eq get_manifest_key uint64_to_bytes
    get_manifest_filesize get_manifest_file_metadata get_file_key get_filesize_key
first_added = refl

second_added : (added (added both_checked (codes "a")).0 (codes "b")).1 ≡ status_ok
unfolding check_upload add_upload add_file_to_manifest new_kv_merge merge_newer finish append_newer
    decimal bytes_eq get_manifest_key uint64_to_bytes get_manifest_filesize
    get_manifest_file_metadata get_file_key get_filesize_key
second_added = refl

apart : bytes_eq (codes "a") (codes "b") ≡ false
unfolding bytes_eq
apart = refl

interleaved_uploads_example :
    Holding
      (added (added both_checked (codes "a")).0 (codes "b")).0
      ((codes "b", 10) ∷ (codes "a", 10) ∷ [])
    × (total [] + 10 ≤ 15)
    × (total [] + 10 ≤ 15)
interleaved_uploads_example =
    interleaved_uploads in_memory counter_codec manifest_codec file_codec batches counters
      empty_manifest 4 15 10 10 (codes "a") (codes "b") [] no_files refl refl apart (omega arith)
      first_checked second_checked first_added second_added
