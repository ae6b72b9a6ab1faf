-- ===== src/Service/Upload.antt =====
-- pkg/grpc/file.go: uploads of files to a manifest. `InitUpload` gives a token for an upload, and
-- `HandleFileUpload` takes the file: it holds the manifest's lock while it checks the limit and
-- again while it adds the file, so it is two steps, between which other uploads may run.
pub mod Limit
pub mod Race
use autograder_server.Repository.Prefix.{has_prefix}
use autograder_server.Repository.Manifest.{
  get_manifest, lock_manifest, get_manifest_filesize, delete_file_in_manifest, add_file_to_manifest,
  get_manifest_file_metadata,
}
use autograder_server.Repository.Batch.{Batches}
use autograder_server.Repository.Messages.{ManifestFileMetadata, ManifestMetadata}
use autograder_server.Repository.Merger.{Mergeable}
use autograder_server.Repository.Codec.{Codec}
use autograder_server.Repository.Pebble.{Pebble}
use autograder_server.Base.{
  ◌-◌, ◌^◌, ◌%◌, ◌+◌, ltb, not, ◌||◌, ◌&&◌, codes, bytes_eq, ◌++◌, length, if◌then◌else◌, ◌==◌,
  Bool, Option, List, ℕ, ◌∷◌, [], some, none, false, ◌≡◌,
}

pub record UploadTokenPayload : Type 0 where
  pub manifest_id : ℕ
  pub filename : List ℕ
  pub filesize : ℕ
  pub upload_limit : ℕ

-- strings.Contains(filename, "..").
abbrev contains_dots : List ℕ → Bool
contains_dots [] = false
contains_dots (x ∷ []) = false
contains_dots (x ∷ y ∷ r) = (x == b'.' && y == b'.') || contains_dots (y ∷ r)

abbrev is_abs : List ℕ → Bool
is_abs [] = false
is_abs (x ∷ r) = x == b'/'

unfoldable pub is_filename_invalid : List ℕ → Bool
is_filename_invalid filename = length filename == 0 || contains_dots filename || is_abs filename

-- The elements of a path and path.Clean, of a name that `isFilenameInvalid` accepts.
abbrev before_slash : List ℕ → List (List ℕ) → List (List ℕ)
before_slash x [] = x ∷ []
before_slash x (s ∷ r) = (x ++ s) ∷ r

abbrev segments : List ℕ → List (List ℕ)
segments [] = [] ∷ []
segments (x ∷ r) =
    let rest = segments r in if x == b'/' then [] ∷ rest else before_slash (x ∷ []) rest

abbrev join_segments : List (List ℕ) → List ℕ
join_segments [] = []
join_segments (s ∷ r) =
    let rest = join_segments r in
    if bytes_eq s [] || bytes_eq s (codes ".")
    then rest
    else if length rest == 0
    then s
    else s ++ b'/' ∷ rest

abbrev clean : List ℕ → List ℕ
clean filename =
    let joined = join_segments (segments filename) in
    if length joined == 0 then codes "." else joined

pub data InitUploadError : Type 0 where
  invalid_manifest_id different_user lock_manifest_error get_size no_space : InitUploadError
  invalid_filename sign_error : InitUploadError

pub data InitUploadResult : Type 0 where
  signed : UploadTokenPayload → List ℕ → InitUploadResult
  refused : InitUploadError → InitUploadResult

pub data HttpStatus : Type 0 where
  status_ok bad_request length_required internal_server_error not_acceptable : HttpStatus

-- What `HandleFileUpload` finds in a request: the payload of a valid token, the content type in
-- lower case and trimmed, whether the form is parsed, the size of its file, and whether reading its
-- head, rewinding it and storing it succeed.
pub record UploadRequest : Type 0 where
  pub payload : Option UploadTokenPayload
  pub content_type : List ℕ
  pub form_parsed : Bool
  pub form_file : Option ℕ
  pub head_read : Bool
  pub rewound : Bool
  pub stored : Bool

module _ (p : Pebble) (cm : Codec Mergeable) (md : Codec ManifestMetadata)
    (fm : Codec ManifestFileMetadata) (b : Batches cm p) where
  open p use {Db}

  -- The bytes of a file that the upload replaces are not counted; the subtraction and the sum wrap
  -- around.
  abbrev counted_without : ℕ → Option ManifestFileMetadata → ℕ
  counted_without total none = total
  counted_without total (some original) = (total + (2 ^ 64 - original.filesize)) % 2 ^ 64

  abbrev sign_upload :
      (UploadTokenPayload → Option (List ℕ)) → UploadTokenPayload → InitUploadResult
  sign_upload sign payload = elim (sign payload) [
    | none ↦ refused sign_error
    | some token ↦ signed payload token
  ]

  abbrev init_sized :
      Db
      → (UploadTokenPayload → Option (List ℕ))
      → ManifestMetadata
      → ℕ
      → List ℕ
      → ℕ
      → Option ℕ
      → InitUploadResult
  init_sized d sign manifest id filename filesize none = refused get_size
  init_sized d sign manifest id filename filesize (some total) =
      let used = counted_without total (get_manifest_file_metadata p cm md fm b d filename id) in
      if filesize == 0 || ltb manifest.upload_limit ((used + filesize) % 2 ^ 64)
      then refused no_space
      else if is_filename_invalid filename
      then refused invalid_filename
      else sign_upload sign (record {
        manifest_id = id;
        filename = clean filename;
        filesize = filesize;
        upload_limit = manifest.upload_limit;
      })

  abbrev init_found :
      Db
      → (UploadTokenPayload → Option (List ℕ))
      → ℕ
      → ℕ
      → List ℕ
      → ℕ
      → Option ManifestMetadata
      → InitUploadResult
  init_found d sign user_id id filename filesize none = refused invalid_manifest_id
  init_found d sign user_id id filename filesize (some manifest) =
      if not (manifest.user_id == user_id)
      then refused different_user
      else if not (lock_manifest p cm md fm b d id)
      then refused lock_manifest_error
      else init_sized d sign manifest id filename filesize (get_manifest_filesize p cm md fm b d id)

  -- `sign` is `signPayloadToken` with the key of uploads.
  unfoldable pub init_upload :
      Db → (UploadTokenPayload → Option (List ℕ)) → ℕ → ℕ → List ℕ → ℕ → InitUploadResult
  unfolding get_manifest_file_metadata get_manifest_filesize is_filename_invalid
  init_upload d sign user_id id filename filesize =
      init_found d sign user_id id filename filesize (get_manifest p cm md fm b d id)

  -- A replaced file is taken out first; an error of that is only logged.
  abbrev replaced : Db → UploadTokenPayload → Option ManifestFileMetadata → Db
  replaced d payload none = d
  replaced d payload (some original) =
      (delete_file_in_manifest p cm md fm b d payload.filename payload.manifest_id).0

  abbrev within_limit : Db → UploadTokenPayload → ℕ → Option ℕ → Db × Option HttpStatus
  within_limit d payload size none = (d, some internal_server_error)
  within_limit d payload size (some current) =
      if ltb payload.upload_limit ((current + size) % 2 ^ 64)
      then (d, some not_acceptable)
      else (d, none)

  -- The first step, and the status if the upload ends there.
  unfoldable pub check_upload : Db → UploadTokenPayload → ℕ → Db × Option HttpStatus
  check_upload d payload size =
      let d' =
        replaced d payload
          (get_manifest_file_metadata p cm md fm b d payload.filename payload.manifest_id) in
      let checked =
        within_limit d' payload size (get_manifest_filesize p cm md fm b d' payload.manifest_id) in
      if not (lock_manifest p cm md fm b d payload.manifest_id)
      then (d, some bad_request)
      else checked

  -- The second step.
  unfoldable pub add_upload : Db → UploadTokenPayload → ℕ → Db × HttpStatus
  add_upload d payload size =
      let (d', ok) =
        add_file_to_manifest p cm md fm b d payload.filename payload.manifest_id size in
      if not (lock_manifest p cm md fm b d payload.manifest_id)
      then (d, internal_server_error)
      else (d', if ok then status_ok else internal_server_error)

  abbrev after_check : Db × Option HttpStatus → UploadTokenPayload → ℕ → Bool → Db × HttpStatus
  after_check (d, some status) payload size stored = (d, status)
  after_check (d, none) payload size stored =
      if stored then add_upload d payload size else (d, internal_server_error)

  abbrev upload_sized : Db → UploadRequest → UploadTokenPayload → Option ℕ → Db × HttpStatus
  upload_sized d req payload none = (d, bad_request)
  upload_sized d req payload (some size) =
      if size == 0
      then (d, length_required)
      else if not req.head_read
      then (d, internal_server_error)
      else if not req.rewound
      then (d, internal_server_error)
      else after_check (check_upload d payload size) payload size req.stored

  abbrev upload_parsed : Db → UploadRequest → Option UploadTokenPayload → Db × HttpStatus
  upload_parsed d req none = (d, bad_request)
  upload_parsed d req (some payload) =
      if not (has_prefix (codes "multipart/form-data; boundary") req.content_type)
      then (d, bad_request)
      else if not req.form_parsed
      then (d, bad_request)
      else upload_sized d req payload req.form_file

  unfoldable pub handle_file_upload : Db → UploadRequest → Db × HttpStatus
  unfolding check_upload add_upload
  handle_file_upload d req = upload_parsed d req req.payload
