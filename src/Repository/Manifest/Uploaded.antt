-- ===== src/Repository/Manifest/Uploaded.antt =====
-- The files and the counter of a manifest, over the operations of pkg/repository/manifest.go.
use autograder_server.Repository.Batch.{
  delete_entry, set_key, merged, writes_at, Write, merge_key, set_key,
}
use autograder_server.Repository.Manifest.Files.{
  without-AreFiles, total-without, size_of_bound, size_of-without, without, total, size_of,
  AreFiles,
}
use autograder_server.Repository.Manifest.Counter.{merged-counter, CounterCodec}
use autograder_server.Repository.Keys.{bytes_eq-numbered}
use autograder_server.Repository.Messages.{ManifestFileMetadata}
use autograder_server.Repository.Pebble.{found, Pebble}
use autograder_server.Repository.Manifest.{
  delete_marshalled, delete_file_in_manifest, get_manifest_filesize, delete_read, negated,
  add_marshalled, get_manifest_file_metadata, add_file_to_manifest, Batches, ManifestMetadata,
  Mergeable, Codec, get_filesize_key, get_file_key,
}
use autograder_server.Repository.Merger.{counter, counter}
use autograder_server.Base.{
  eq_of_some, sym, ◌+◌, ap, bytes_eq_refl, Bool-cases, arith, [], inr, inl, ◌%◌, ◌^◌, ◌<◌, ==_iff,
  ◌∙◌, codes, bytes_eq, Option, List, ℕ, ◌∷◌, some, none, false, true, refl, ◌≡◌,
}

bytes_eq-files :
    (id : ℕ) (name other : List ℕ)
    → bytes_eq (get_file_key id name) (get_file_key id other) ≡ bytes_eq name other
unfolding get_file_key
bytes_eq-files id name other =
    bytes_eq-numbered (codes "manifest:files:") name other id id ∙ rw ((==_iff id id).1 refl) refl

filesize-file :
    (id j : ℕ) (name : List ℕ) → bytes_eq (get_filesize_key id) (get_file_key j name) ≡ false
unfolding get_filesize_key get_file_key bytes_eq
filesize-file id j name = refl

file-filesize :
    (id j : ℕ) (name : List ℕ) → bytes_eq (get_file_key j name) (get_filesize_key id) ≡ false
unfolding get_filesize_key get_file_key bytes_eq
file-filesize id j name = refl

abbrev metadata_of : ℕ → Option ℕ → Option ManifestFileMetadata
metadata_of id none = none
metadata_of id (some s) = some (record { manifest_id = id; filesize = s })

module _ (p : Pebble) (cm : Codec Mergeable) (md : Codec ManifestMetadata)
    (fm : Codec ManifestFileMetadata) (b : Batches cm p) (counters : CounterCodec cm) where
  open p use {Db, get}

  -- The store holds exactly these files of the manifest, and their total size as the counter.
  pub record HasFiles (d : Db) (id : ℕ) (files : List (List ℕ × ℕ)) : Type 0 where
    pub distinct : AreFiles files
    pub each :
        (name : List ℕ)
        → get_manifest_file_metadata p cm md fm b d name id ≡ metadata_of id (size_of name files)
    pub counter_raw : List ℕ
    pub counter_found : get d (get_filesize_key id) ≡ found counter_raw
    pub counter_total : cm.unmarshal counter_raw ≡ some (counter (total files % 2 ^ 64))

  added_each :
      (d : Db) (id filesize : ℕ) (name other raw counter_raw : List ℕ) (files : List (List ℕ × ℕ))
      → HasFiles d id files
      → fm.unmarshal raw ≡ some (record { manifest_id = id; filesize = filesize })
      → let ws =
          set_key (get_file_key id name) raw ∷ merge_key (get_filesize_key id) counter_raw ∷ [] in
        (b.commit d ws).1 ≡ true
        → get_manifest_file_metadata p cm md fm b (b.commit d ws).0 other id
          ≡ metadata_of id (size_of other ((name, filesize) ∷ files))
  unfolding get_manifest_file_metadata
  added_each d id filesize name other raw counter_raw files h back ok =
      let ws =
        set_key (get_file_key id name) raw ∷ merge_key (get_filesize_key id) counter_raw ∷ [] in
      let at = b.get-commit d ws (get_file_key id other) ok in
      elim (Bool-cases (bytes_eq name other)) [
        | inl e ↦ rw (at, filesize-file id id other, bytes_eq-files id name other, e) back
        | inr e ↦ rw (at, filesize-file id id other, bytes_eq-files id name other, e) (h.each other)
      ]

  -- The counter after a batch that merges one operand into it and changes no other counter.
  counted_after :
      (d : Db) (id a n : ℕ) (old value : List ℕ) (ws : List Write)
      → cm.unmarshal old ≡ some (counter a)
      → cm.marshal (counter n) ≡ some value
      → get d (get_filesize_key id) ≡ found old
      → writes_at cm (get_filesize_key id) ws (found old) ≡ merged cm (found old) value
      → (b.commit d ws).1 ≡ true
      → (raw : List ℕ) × (get (b.commit d ws).0 (get_filesize_key id) ≡ found raw)
        × (cm.unmarshal raw ≡ some (counter ((a + n) % 2 ^ 64)))
  counted_after d id a n old value ws eo ev at run ok =
      let (raw, m, back) = merged-counter cm counters old value a n eo ev in
      (raw, b.get-commit d ws (get_filesize_key id) ok ∙ rw at (run ∙ m), back)

  added :
      (d : Db) (id filesize : ℕ) (name : List ℕ) (files : List (List ℕ × ℕ))
      (fo co : Option (List ℕ))
      → HasFiles d id files
      → size_of name files ≡ none
      → filesize < 2 ^ 64
      → fm.marshal (record { manifest_id = id; filesize = filesize }) ≡ fo
      → cm.marshal (counter filesize) ≡ co
      → (add_marshalled p cm md fm b d name id fo co).1 ≡ true
      → HasFiles (add_marshalled p cm md fm b d name id fo co).0 id ((name, filesize) ∷ files)
  added d id filesize name files none co h new small ef ec ok = cc
  added d id filesize name files (some raw) none h new small ef ec ok = cc
  added d id filesize name files (some raw) (some value) h new small ef ec ok =
      let ws = set_key (get_file_key id name) raw ∷ merge_key (get_filesize_key id) value ∷ [] in
      let (raw', found', back') =
        counted_after d id (total files % 2 ^ 64) filesize h.counter_raw value ws h.counter_total ec
          h.counter_found (rw (file-filesize id id name, bytes_eq_refl (get_filesize_key id)) refl)
          ok in
      record {
        distinct = (new, small, h.distinct);
        each = λ other.
            added_each d id filesize name other raw value files h
              (fm.unmarshal-marshal (record { manifest_id = id; filesize = filesize }) raw ef) ok;
        counter_raw = raw';
        counter_found = found';
        counter_total = back' ∙ ap (λ t. some (counter t)) (omega arith);
      }

  -- To a manifest whose store holds some files and their sizes, adding a file of a new name and a
  -- size below 2 ^ 64 without an error adds it and its size to what the store holds.
  pub add_file_to_manifest-HasFiles :
      (d : Db) (id filesize : ℕ) (name : List ℕ) (files : List (List ℕ × ℕ))
      → HasFiles d id files
      → size_of name files ≡ none
      → filesize < 2 ^ 64
      → (add_file_to_manifest p cm md fm b d name id filesize).1 ≡ true
      → HasFiles
          (add_file_to_manifest p cm md fm b d name id filesize).0
          id
          ((name, filesize) ∷ files)
  unfolding add_file_to_manifest get_manifest_file_metadata
  add_file_to_manifest-HasFiles d id filesize name files h new small ok =
      added d id filesize name files (fm.marshal (record { manifest_id = id; filesize = filesize }))
        (cm.marshal (counter filesize)) h new small refl refl ok

  removed_each :
      (d : Db) (id : ℕ) (name other value : List ℕ) (files : List (List ℕ × ℕ))
      → HasFiles d id files
      → let ws = merge_key (get_filesize_key id) value ∷ delete_entry (get_file_key id name) ∷ [] in
        (b.commit d ws).1 ≡ true
        → get_manifest_file_metadata p cm md fm b (b.commit d ws).0 other id
          ≡ metadata_of id (size_of other (without name files))
  unfolding get_manifest_file_metadata
  removed_each d id name other value files h ok =
      let ws = merge_key (get_filesize_key id) value ∷ delete_entry (get_file_key id name) ∷ [] in
      let at = b.get-commit d ws (get_file_key id other) ok in
      elim (Bool-cases (bytes_eq name other)) [
        | inl e ↦
            rw
              (
                at,
                filesize-file id id other,
                bytes_eq-files id name other,
                size_of-without name other files h.distinct,
                e,
              )
              refl
        | inr e ↦
            rw
              (
                at,
                filesize-file id id other,
                bytes_eq-files id name other,
                size_of-without name other files h.distinct,
                e,
              )
              (h.each other)
      ]

  removed :
      (d : Db) (id s : ℕ) (name : List ℕ) (files : List (List ℕ × ℕ)) (co : Option (List ℕ))
      → HasFiles d id files
      → size_of name files ≡ some s
      → cm.marshal (counter (negated s)) ≡ co
      → (delete_marshalled p cm md fm b d name id co).1 ≡ true
      → HasFiles (delete_marshalled p cm md fm b d name id co).0 id (without name files)
  removed d id s name files none h there ec ok = cc
  removed d id s name files (some value) h there ec ok =
      let ws = merge_key (get_filesize_key id) value ∷ delete_entry (get_file_key id name) ∷ [] in
      let (raw', found', back') =
        counted_after d id (total files % 2 ^ 64) (negated s) h.counter_raw value ws h.counter_total
          ec h.counter_found
          (rw (file-filesize id id name, bytes_eq_refl (get_filesize_key id)) refl) ok in
      let bound = size_of_bound name s files h.distinct there in
      let sum = total-without name s files there in
      record {
        distinct = without-AreFiles name files h.distinct;
        each = λ other. removed_each d id name other value files h ok;
        counter_raw = raw';
        counter_found = found';
        counter_total = back' ∙ ap (λ t. some (counter t)) (omega (arith, sum, bound));
      }

  removed_read :
      (d : Db) (id s : ℕ) (name : List ℕ) (files : List (List ℕ × ℕ))
      (o : Option ManifestFileMetadata)
      → HasFiles d id files
      → size_of name files ≡ some s
      → o ≡ metadata_of id (some s)
      → (delete_read p cm md fm b d name id o).1 ≡ true
      → HasFiles (delete_read p cm md fm b d name id o).0 id (without name files)
  removed_read d id s name files none h there e ok = cc
  removed_read d id s name files (some m) h there e ok =
      let same : m.filesize ≡ s = ap (λ x. x.filesize) (eq_of_some e) in
      removed d id m.filesize name files (cm.marshal (counter (negated m.filesize))) h
        (there ∙ ap some (sym same)) refl ok

  -- From a manifest whose store holds some files and their sizes, deleting one of them without an
  -- error takes it and its size away.
  pub delete_file_in_manifest-HasFiles :
      (d : Db) (id s : ℕ) (name : List ℕ) (files : List (List ℕ × ℕ))
      → HasFiles d id files
      → size_of name files ≡ some s
      → (delete_file_in_manifest p cm md fm b d name id).1 ≡ true
      → HasFiles (delete_file_in_manifest p cm md fm b d name id).0 id (without name files)
  unfolding delete_file_in_manifest
  delete_file_in_manifest-HasFiles d id s name files h there ok =
      removed_read d id s name files (get_manifest_file_metadata p cm md fm b d name id) h there
        (h.each name ∙ rw there refl) ok

  -- While the sizes add up to less than 2 ^ 63, the size read for the manifest is their sum.
  pub get_manifest_filesize-HasFiles :
      (d : Db) (id : ℕ) (files : List (List ℕ × ℕ))
      → HasFiles d id files
      → total files < 2 ^ 63
      → get_manifest_filesize p cm md fm b d id ≡ some (total files)
  unfolding get_manifest_filesize
  get_manifest_filesize-HasFiles d id files h small =
      rw (h.counter_found, h.counter_total) (ground arith)
