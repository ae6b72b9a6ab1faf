-- ===== src/Repository/Manifest/Deleted.antt =====
-- What `DeleteManifest` of pkg/repository/manifest.go leaves in the store.
use autograder_server.Base.{
  refl, ◌∙◌, codes, bytes_eq, Bool-cases, ◌≡◌, List, ℕ, arith, ◌∷◌, [], inr, inl, false, refl,
}
use autograder_server.Repository.Manifest.{
  delete_manifest, get_files_prefix, get_manifest_key, get_filesize_key,
}
use autograder_server.Repository.Prefix.{
  prefix_iter_options, in_range, IsBytes, has_prefix, key_upper_bound,
}
use autograder_server.Repository.Prefix.Bounds.{in_range-prefix_iter_options}
use autograder_server.Repository.Keys.{numbered-IsBytes}
use autograder_server.Repository.Batch.{Batches, delete_range, delete_entry, Write, writes_at}
use autograder_server.Repository.Codec.{Codec}
use autograder_server.Repository.Merger.{Mergeable}
use autograder_server.Repository.Messages.{ManifestFileMetadata, ManifestMetadata}
use autograder_server.Repository.Pebble.{Pebble, Got}

-- A key that is no key of the manifest.
abbrev pub IsElsewhere : ℕ → List ℕ → Type 0
IsElsewhere id k =
    IsBytes k
    × (has_prefix (get_files_prefix id) k ≡ false)
    × (bytes_eq (get_manifest_key id) k ≡ false)
    × (bytes_eq (get_filesize_key id) k ≡ false)

module _ (p : Pebble) (cm : Codec Mergeable) (md : Codec ManifestMetadata)
    (fm : Codec ManifestFileMetadata) (b : Batches cm p) where
  open p use {Db, get}

  abbrev deletions : ℕ → List Write
  deletions id =
      let prefix = get_files_prefix id in
      delete_range prefix (key_upper_bound prefix)
      ∷ delete_entry (get_manifest_key id)
      ∷ delete_entry (get_filesize_key id)
      ∷ []

  deletions_elsewhere :
      (id : ℕ) (k : List ℕ) (got : Got) → IsElsewhere id k → writes_at cm k (deletions id) got ≡ got
  unfolding prefix_iter_options get_files_prefix
  deletions_elsewhere id k got (bytes, off, off', off'') =
      let prefix = get_files_prefix id in
      let outside : in_range (record { lower_bound = prefix; upper_bound = key_upper_bound prefix })
            k
          ≡ false =
        in_range-prefix_iter_options prefix k
          (numbered-IsBytes (codes "manifest:files:") [] id (omega arith) tt) bytes
        ∙ off in
      rw (outside, off', off'') refl

  -- A key that is not of the manifest is read as before, whether or not the deletion fails.
  pub delete_manifest-elsewhere :
      (d : Db) (id : ℕ) (k : List ℕ)
      → IsElsewhere id k
      → get (delete_manifest p cm md fm b d id).0 k ≡ get d k
  unfolding delete_manifest
  delete_manifest-elsewhere d id k h = elim (Bool-cases (b.commit d (deletions id)).1) [
    | inl ok ↦ b.get-commit d (deletions id) k ok ∙ deletions_elsewhere id k (get d k) h
    | inr bad ↦ elim (b.get-commit_failed d (deletions id) bad) [
      | inl none_done ↦ none_done k
      | inr all_done ↦ all_done k ∙ deletions_elsewhere id k (get d k) h
    ]
  ]
