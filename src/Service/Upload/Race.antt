-- ===== src/Service/Upload/Race.antt =====
-- Whole uploads under pkg/grpc/file.go: one that runs alone, and two whose steps interleave.
use autograder_server.Service.Upload.Limit.{
  check_upload-Checked, no_manifest, over_limit, fits, add_upload-HasFiles, fits, over_limit,
  IsReplaceable, Checked,
}
use autograder_server.Repository.Manifest.Uploaded.{HasFiles}
use autograder_server.Repository.Manifest.Files.{
  without-none, size_of, AreFiles, size_of-without_self, total, without,
}
use autograder_server.Repository.Manifest.Counter.{CounterCodec}
use autograder_server.Service.Upload.{
  add_upload, has_prefix, check_upload, handle_file_upload, upload_parsed, status_ok, upload_sized,
  after_check, HttpStatus, UploadTokenPayload, UploadRequest, Batches, ManifestFileMetadata,
  ManifestMetadata, Mergeable, Codec, Pebble, status_ok,
}
use autograder_server.Base.{
  bytes_eq, inl, ◌∙◌, eq_of_some, ap, sym, subst, codes, not, ◌==◌, if◌then◌else◌, none, ◌^◌, ◌+◌,
  ◌≤◌, ◌<◌, Bool, Option, List, ℕ, arith, ◌∷◌, some, false, true, ◌≡◌,
}

module _ (p : Pebble) (cm : Codec Mergeable) (md : Codec ManifestMetadata)
    (fm : Codec ManifestFileMetadata) (b : Batches cm p) (counters : CounterCodec cm) where
  open p use {Db}

  -- The manifest has the file, in place of an earlier one of its name, and keeps to the limit.
  abbrev pub Uploaded : Db → UploadTokenPayload → ℕ → List (List ℕ × ℕ) → Type 0
  Uploaded d payload size files =
      let files' = (payload.filename, size) ∷ without payload.filename files in
      HasFiles p cm md fm b counters d payload.manifest_id files'
      × (total files' ≤ payload.upload_limit)

  ok_if :
      (P : Db → Type 0) (c : Bool) (x y : Db × HttpStatus)
      → (x.1 ≡ status_ok → P x.0)
      → (y.1 ≡ status_ok → P y.0)
      → (if c then x else y).1 ≡ status_ok
      → P (if c then x else y).0
  ok_if P true x y hx hy e = hx e
  ok_if P false x y hx hy e = hy e

  after_check-Uploaded :
      (d : Db) (payload : UploadTokenPayload) (size : ℕ) (files : List (List ℕ × ℕ))
      (r : Db × Option HttpStatus) (stored : Bool)
      → AreFiles files
      → Checked p cm md fm b counters d payload size files r
      → size < 2 ^ 64
      → (after_check p cm md fm b r payload size stored).1 ≡ status_ok
      → Uploaded (after_check p cm md fm b r payload size stored).0 payload size files
  after_check-Uploaded d payload size files _ stored distinct no_manifest small e = cc
  after_check-Uploaded d payload size files _ stored distinct (over_limit d' h over) small e = cc
  after_check-Uploaded d payload size files _ false distinct (fits d' h le) small e = cc
  after_check-Uploaded d payload size files _ true distinct (fits d' h le) small e = (
    add_upload-HasFiles p cm md fm b counters d' payload size (without payload.filename files) h
        (size_of-without_self payload.filename files distinct) small e,
    omega (arith, le),
  )

  upload_sized-Uploaded :
      (d : Db) (req : UploadRequest) (payload : UploadTokenPayload) (size : ℕ)
      (files : List (List ℕ × ℕ))
      → HasFiles p cm md fm b counters d payload.manifest_id files
      → IsReplaceable p cm md fm b counters d payload files
      → total files + size < 2 ^ 63
      → (upload_sized p cm md fm b d req payload (some size)).1 ≡ status_ok
      → Uploaded (upload_sized p cm md fm b d req payload (some size)).0 payload size files
  upload_sized-Uploaded d req payload size files h may small e =
      ok_if (λ t. Uploaded t payload size files) (size == 0) _ _ (λ e'. cc)
        (ok_if (λ t. Uploaded t payload size files) (not req.head_read) _ _ (λ e'. cc)
          (ok_if (λ t. Uploaded t payload size files) (not req.rewound) _ _ (λ e'. cc)
            (after_check-Uploaded d payload size files (check_upload p cm md fm b d payload size)
              req.stored h.distinct
              (check_upload-Checked p cm md fm b counters d payload size files h may small)
              (omega (arith, small)))))
        e

  upload_parsed-Uploaded :
      (d : Db) (req : UploadRequest) (payload : UploadTokenPayload) (size : ℕ)
      (files : List (List ℕ × ℕ)) (o : Option UploadTokenPayload)
      → HasFiles p cm md fm b counters d payload.manifest_id files
      → IsReplaceable p cm md fm b counters d payload files
      → total files + size < 2 ^ 63
      → o ≡ some payload
      → req.form_file ≡ some size
      → (upload_parsed p cm md fm b d req o).1 ≡ status_ok
      → Uploaded (upload_parsed p cm md fm b d req o).0 payload size files
  upload_parsed-Uploaded d req payload size files none h may small eo es e = cc
  upload_parsed-Uploaded d req payload size files (some payload') h may small eo es e =
      let P : Db → Type 0 = λ t. Uploaded t payload size files in
      ok_if P (not (has_prefix (codes "multipart/form-data; boundary") req.content_type)) _ _
        (λ e'. cc)
        (ok_if P (not req.form_parsed) _ _ (λ e'. cc)
          (subst
            (λ (t : UploadTokenPayload × Option ℕ).
              (upload_sized p cm md fm b d req t.0 t.1).1 ≡ status_ok
              → P (upload_sized p cm md fm b d req t.0 t.1).0)
            (sym (ap (λ x. (x, req.form_file)) (eq_of_some eo) ∙ ap (λ x. (payload, x)) es))
            (upload_sized-Uploaded d req payload size files h may small)))
        e

  -- An upload that runs alone and is answered with 200 leaves the manifest with the file, in place
  -- of an earlier one of the same name that is taken out without an error, and within the limit of
  -- its token, while all sizes stay below 2 ^ 63.
  pub handle_file_upload-Uploaded :
      (d : Db) (req : UploadRequest) (payload : UploadTokenPayload) (size : ℕ)
      (files : List (List ℕ × ℕ))
      → HasFiles p cm md fm b counters d payload.manifest_id files
      → IsReplaceable p cm md fm b counters d payload files
      → total files + size < 2 ^ 63
      → req.payload ≡ some payload
      → req.form_file ≡ some size
      → (handle_file_upload p cm md fm b d req).1 ≡ status_ok
      → Uploaded (handle_file_upload p cm md fm b d req).0 payload size files
  unfolding handle_file_upload
  handle_file_upload-Uploaded d req payload size files h may small eo es e =
      upload_parsed-Uploaded d req payload size files req.payload h may small eo es e

  none-Checked :
      (d : Db) (payload : UploadTokenPayload) (size : ℕ) (files : List (List ℕ × ℕ))
      (r : Db × Option HttpStatus)
      → Checked p cm md fm b counters d payload size files r
      → size_of payload.filename files ≡ none
      → r.1 ≡ none
      → HasFiles p cm md fm b counters r.0 payload.manifest_id files
        × (total files + size ≤ payload.upload_limit)
  none-Checked d payload size files _ no_manifest new e = cc
  none-Checked d payload size files _ (over_limit d' h over) new e = cc
  none-Checked d payload size files _ (fits d' h le) new e =
      let same = without-none payload.filename files new in
      (
        subst (λ t. HasFiles p cm md fm b counters d' payload.manifest_id t) same h,
        subst (λ t. total t + size ≤ payload.upload_limit) same le,
      )

  abbrev pub token : ℕ → List ℕ → ℕ → ℕ → UploadTokenPayload
  token id name size limit = record {
    manifest_id = id;
    filename = name;
    filesize = size;
    upload_limit = limit;
  }

  -- Two uploads of new names to one manifest whose checks both come before their additions are both
  -- kept when each fits into the limit by itself, whatever they add up to.
  pub interleaved_uploads :
      (d : Db) (id limit s t : ℕ) (n m : List ℕ) (files : List (List ℕ × ℕ))
      → HasFiles p cm md fm b counters d id files
      → size_of n files ≡ none
      → size_of m files ≡ none
      → bytes_eq n m ≡ false
      → total files + s + t < 2 ^ 63
      → let first = check_upload p cm md fm b d (token id n s limit) s in
        let second = check_upload p cm md fm b first.0 (token id m t limit) t in
        let third = add_upload p cm md fm b second.0 (token id n s limit) s in
        let fourth = add_upload p cm md fm b third.0 (token id m t limit) t in
        first.1 ≡ none
        → second.1 ≡ none
        → third.1 ≡ status_ok
        → fourth.1 ≡ status_ok
        → HasFiles p cm md fm b counters fourth.0 id ((m, t) ∷ (n, s) ∷ files)
          × (total files + s ≤ limit)
          × (total files + t ≤ limit)
  interleaved_uploads d id limit s t n m files h new new' apart small e1 e2 e3 e4 =
      let A = token id n s limit in
      let B = token id m t limit in
      let (h1, le1) =
        none-Checked d A s files (check_upload p cm md fm b d A s)
          (check_upload-Checked p cm md fm b counters d A s files h (inl new)
            (omega (arith, small)))
          new e1 in
      let d1 = (check_upload p cm md fm b d A s).0 in
      let (h2, le2) =
        none-Checked d1 B t files (check_upload p cm md fm b d1 B t)
          (check_upload-Checked p cm md fm b counters d1 B t files h1 (inl new')
            (omega (arith, small)))
          new' e2 in
      let d2 = (check_upload p cm md fm b d1 B t).0 in
      let h3 =
        add_upload-HasFiles p cm md fm b counters d2 A s files h2 new (omega (arith, small)) e3 in
      let d3 = (add_upload p cm md fm b d2 A s).0 in
      let absent : size_of m ((n, s) ∷ files) ≡ none = rw apart new' in
      (
        add_upload-HasFiles p cm md fm b counters d3 B t ((n, s) ∷ files) h3 absent
            (omega (arith, small)) e4,
        le1,
        le2,
      )
