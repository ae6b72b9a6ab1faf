-- ===== src/Service/Upload/Limit.antt =====
-- The upload limit under `HandleFileUpload` of pkg/grpc/file.go, which runs alone or among other
-- uploads.
use autograder_server.Repository.Manifest.Uploaded.{
  add_file_to_manifest-HasFiles, get_manifest_filesize-HasFiles, delete_file_in_manifest-HasFiles,
  HasFiles,
}
use autograder_server.Repository.Manifest.Files.{
  total-without_le, without-none, total, without, size_of,
}
use autograder_server.Repository.Manifest.Counter.{CounterCodec}
use autograder_server.Service.Upload.{
  add_file_to_manifest, lock_manifest, get_manifest_filesize, within_limit,
  get_manifest_file_metadata, delete_file_in_manifest, replaced, HttpStatus, UploadTokenPayload,
  check_upload, add_upload, Batches, ManifestFileMetadata, ManifestMetadata, Mergeable, Codec,
  Pebble, not_acceptable, internal_server_error, bad_request, status_ok,
}
use autograder_server.Base.{
  ◌%◌, ltb, ◌∙◌, Bool-cases, sym, ◌≤◌, Option-cases, ◌^◌, ◌+◌, ◌⊎◌, ◌<◌, Option, List, ℕ, arith,
  ◌∷◌, inr, inl, some, none, true, ◌≡◌,
}

module _ (p : Pebble) (cm : Codec Mergeable) (md : Codec ManifestMetadata)
    (fm : Codec ManifestFileMetadata) (b : Batches cm p) (counters : CounterCodec cm) where
  open p use {Db}

  -- Taking the file out, if it is there, has no error.
  abbrev pub IsReplaceable : Db → UploadTokenPayload → List (List ℕ × ℕ) → Type 0
  IsReplaceable d payload files =
      (size_of payload.filename files ≡ none)
      ⊎ ((delete_file_in_manifest p cm md fm b d payload.filename payload.manifest_id).1 ≡ true)

  abbrev Stored : Db → UploadTokenPayload → List (List ℕ × ℕ) → Type 0
  Stored d payload files = HasFiles p cm md fm b counters d payload.manifest_id files

  replaced-none :
      (d : Db) (payload : UploadTokenPayload) (files : List (List ℕ × ℕ))
      → Stored d payload files
      → size_of payload.filename files ≡ none
      → Stored
          (replaced p cm md fm b d payload
            (get_manifest_file_metadata p cm md fm b d payload.filename payload.manifest_id))
          payload
          (without payload.filename files)
  replaced-none d payload files h e =
      rw (h.each payload.filename, e, without-none payload.filename files e) h

  replaced-some :
      (d : Db) (payload : UploadTokenPayload) (s : ℕ) (files : List (List ℕ × ℕ))
      → Stored d payload files
      → size_of payload.filename files ≡ some s
      → (delete_file_in_manifest p cm md fm b d payload.filename payload.manifest_id).1 ≡ true
      → Stored
          (replaced p cm md fm b d payload
            (get_manifest_file_metadata p cm md fm b d payload.filename payload.manifest_id))
          payload
          (without payload.filename files)
  replaced-some d payload s files h e ok =
      rw (h.each payload.filename, e)
        (delete_file_in_manifest-HasFiles p cm md fm b counters d payload.manifest_id s
          payload.filename files h e ok)

  replaced-HasFiles :
      (d : Db) (payload : UploadTokenPayload) (files : List (List ℕ × ℕ))
      → Stored d payload files
      → IsReplaceable d payload files
      → Stored
          (replaced p cm md fm b d payload
            (get_manifest_file_metadata p cm md fm b d payload.filename payload.manifest_id))
          payload
          (without payload.filename files)
  replaced-HasFiles d payload files h may = elim (Option-cases (size_of payload.filename files)) [
    | inl e ↦ replaced-none d payload files h e
    | inr (s, e) ↦ elim may [
      | inl never ↦ absurd (let clash : none ≡ some s = sym never ∙ e in cc)
      | inr ok ↦ replaced-some d payload s files h e ok
    ]
  ]

  -- What the first step leaves, by the status it ends with.
  pub data Checked (d : Db) (payload : UploadTokenPayload) (size : ℕ) (files : List (List ℕ × ℕ))
      : Db × Option HttpStatus → Type 0 where
    no_manifest : Checked d payload size files (d, some bad_request)
    over_limit :
        (d' : Db)
        → Stored d' payload (without payload.filename files)
        → payload.upload_limit < total (without payload.filename files) + size
        → Checked d payload size files (d', some not_acceptable)
    fits :
        (d' : Db)
        → Stored d' payload (without payload.filename files)
        → total (without payload.filename files) + size ≤ payload.upload_limit
        → Checked d payload size files (d', none)

  within-Checked :
      (d d' : Db) (payload : UploadTokenPayload) (size : ℕ) (files : List (List ℕ × ℕ))
      → Stored d' payload (without payload.filename files)
      → total files + size < 2 ^ 63
      → Checked d payload size files (
          within_limit p cm md fm b d' payload size
            (get_manifest_filesize p cm md fm b d' payload.manifest_id))
  within-Checked d d' payload size files h small =
      let le = total-without_le payload.filename files in
      let used = total (without payload.filename files) in
      let read =
        get_manifest_filesize-HasFiles p cm md fm b counters d' payload.manifest_id
          (without payload.filename files) h (omega (arith, le, small)) in
      elim (Bool-cases (ltb payload.upload_limit ((used + size) % 2 ^ 64))) [
        | inl over ↦ rw (read, over) (over_limit d' h (ground (arith, le, small)))
        | inr ok ↦ rw (read, ok) (fits d' h (ground (arith, le, small)))
      ]

  -- The first step of an upload, which takes out the file that it replaces: it ends with no
  -- manifest, over the limit, or within it, and an upload over the limit has lost that file.
  pub check_upload-Checked :
      (d : Db) (payload : UploadTokenPayload) (size : ℕ) (files : List (List ℕ × ℕ))
      → Stored d payload files
      → IsReplaceable d payload files
      → total files + size < 2 ^ 63
      → Checked d payload size files (check_upload p cm md fm b d payload size)
  unfolding check_upload
  check_upload-Checked d payload size files h may small =
      elim (Bool-cases (lock_manifest p cm md fm b d payload.manifest_id)) [
        | inr gone ↦ rw gone no_manifest
        | inl there ↦
            rw there (
              within-Checked d _ payload size files (replaced-HasFiles d payload files h may) small)
      ]

  pub add_upload-HasFiles :
      (d : Db) (payload : UploadTokenPayload) (size : ℕ) (files : List (List ℕ × ℕ))
      → Stored d payload files
      → size_of payload.filename files ≡ none
      → size < 2 ^ 64
      → (add_upload p cm md fm b d payload size).1 ≡ status_ok
      → Stored (add_upload p cm md fm b d payload size).0 payload ((payload.filename, size) ∷ files)
  unfolding add_upload
  add_upload-HasFiles d payload size files h new small e =
      elim (Bool-cases (lock_manifest p cm md fm b d payload.manifest_id)) [
        | inr gone ↦ absurd (let never : internal_server_error ≡ status_ok = rw gone at e in cc)
        | inl there ↦
            elim (Bool-cases
              (add_file_to_manifest p cm md fm b d payload.filename payload.manifest_id size).1) [
                | inr bad ↦
                    absurd
                      (let never : internal_server_error ≡ status_ok = rw (there, bad) at e in cc)
                | inl ok ↦ rw there (
                    add_file_to_manifest-HasFiles p cm md fm b counters d payload.manifest_id size
                      payload.filename files h new small ok)
              ]
      ]
