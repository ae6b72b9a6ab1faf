-- ===== src/Repository/Grader/Registry/Names.antt =====
-- The look-up by name of a grader that pkg/repository/grader.go creates.
use autograder_server.Repository.Sequencer.{out_of_fuel, write_error, next_id}
use autograder_server.Repository.Prefix.Words.{big_endian-uint64_to_bytes}
use autograder_server.Repository.Grader.Registry.{
  create_with, NextId, get_next_id, KvSequencer, grader_written, create_grader,
  get_grader_id_by_name, get_grader_by_name,
}
use autograder_server.Repository.Grader.{
  put_grader, update_grader, uint64_to_bytes, get_grader_by_id, GraderStatusMetadata,
}
use autograder_server.Repository.Codec.{Codec}
use autograder_server.Repository.Pebble.{Pebble}
use autograder_server.Base.{
  subst, sym, Bool, ap, ◌∙◌, eq_of_some, Bool-cases, Option, inr, inl, none, refl, bytes_eq_refl,
  ◌^◌, ◌<◌, ◌≡◌, bytes_eq, some, false, true, List, ℕ,
}
use autograder_server.Repository.Grader.Keys.{get_grader_id_key, get_grader_name_key}

name_not_id :
    (name : List ℕ) (id : ℕ) → bytes_eq (get_grader_name_key name) (get_grader_id_key id) ≡ false
unfolding get_grader_name_key get_grader_id_key bytes_eq
name_not_id name id = refl

module _ (p : Pebble) (c : Codec GraderStatusMetadata) where
  open p use {Db, get, put}

  both_read :
      (d : Db) (id : ℕ) (name raw : List ℕ) (metadata : GraderStatusMetadata)
      → id < 2 ^ 64
      → c.marshal metadata ≡ some raw
      → (put d (get_grader_id_key id) raw).1 ≡ true
      → (put (put d (get_grader_id_key id) raw).0 (get_grader_name_key name) (uint64_to_bytes id)).1
        ≡ true
      → get_grader_by_name p c
          (put
            (put d (get_grader_id_key id) raw).0
            (get_grader_name_key name)
            (uint64_to_bytes id)).0
          name
        ≡ some (metadata, id)
  unfolding get_grader_by_name get_grader_id_by_name get_grader_by_id
  both_read d id name raw metadata small m e e' =
      let d1 = (put d (get_grader_id_key id) raw).0 in
      let by_name =
        p.get-put d1 (get_grader_name_key name) (uint64_to_bytes id) (get_grader_name_key name)
          e' in
      let by_id =
        p.get-put d1 (get_grader_name_key name) (uint64_to_bytes id) (get_grader_id_key id) e' in
      let written = p.get-put d (get_grader_id_key id) raw (get_grader_id_key id) e in
      rw (by_name, bytes_eq_refl (get_grader_name_key name))
        (rw
          (
            big_endian-uint64_to_bytes id small,
            by_id,
            name_not_id name id,
            written,
            bytes_eq_refl (get_grader_id_key id),
            c.unmarshal-marshal metadata raw m,
          )
          refl)

  -- A write of the id's entry, and then of the name's.
  abbrev Named : Db × Bool → ℕ → ℕ → List ℕ → GraderStatusMetadata → Type 0
  Named r i id name metadata =
      (grader_written p c r name i).1 ≡ some id
      → get_grader_by_name p c (grader_written p c r name i).0 name ≡ some (metadata, id)

  written-Named :
      (d : Db) (i id : ℕ) (name raw : List ℕ) (metadata : GraderStatusMetadata)
      → c.marshal metadata ≡ some raw
      → id < 2 ^ 64
      → Named (put d (get_grader_id_key i) raw) i id name metadata
  written-Named d i id name raw metadata m small h =
      elim (Bool-cases (put d (get_grader_id_key i) raw).1) [
        | inr bad ↦ absurd (let never : none ≡ some id = rw bad at h in cc)
        | inl ok ↦
            elim (Bool-cases
              (put (put d (get_grader_id_key i) raw).0 (get_grader_name_key name)
                (uint64_to_bytes i)).1) [
                  | inr bad ↦ absurd (let never : none ≡ some id = rw bad at (rw ok at h) in cc)
                  | inl ok' ↦
                      let same : i ≡ id = eq_of_some (rw ok' at (rw ok at h)) in
                      rw ok (
                        rw ok' (
                          both_read d i name raw metadata (subst (λ t. t < 2 ^ 64) (sym same) small)
                            m ok ok'
                          ∙ ap (λ t. some (metadata, t)) same))
                ]
      ]

  put-Named :
      (d : Db) (i id : ℕ) (name : List ℕ) (metadata : GraderStatusMetadata) (o : Option (List ℕ))
      → c.marshal metadata ≡ o
      → id < 2 ^ 64
      → Named (put_grader p c d i o) i id name metadata
  put-Named d i id name metadata none m small h = cc
  put-Named d i id name metadata (some raw) m small h =
      written-Named d i id name raw metadata m small h

  created_named :
      (d : Db) (r : NextId) (id : ℕ) (name : List ℕ) (metadata : GraderStatusMetadata)
      → id < 2 ^ 64
      → (create_with p c d r name metadata).1 ≡ some id
      → get_grader_by_name p c (create_with p c d r name metadata).0 name ≡ some (metadata, id)
  unfolding update_grader
  created_named d (next_id i) id name metadata small h =
      put-Named d i id name metadata (c.marshal metadata) refl small h
  created_named d write_error id name metadata small h = cc
  created_named d out_of_fuel id name metadata small h = cc

  -- A grader that is created without an error, with an id below 2 ^ 64, is found by its name, with
  -- its id and its metadata.
  pub get_grader_by_name-create_grader :
      (d : Db) (q : KvSequencer) (name : List ℕ) (metadata : GraderStatusMetadata) (id : ℕ)
      → id < 2 ^ 64
      → (create_grader p c d q name metadata).2 ≡ some id
      → get_grader_by_name p c (create_grader p c d q name metadata).0 name ≡ some (metadata, id)
  unfolding create_grader
  get_grader_by_name-create_grader d q name metadata id small h =
      created_named (get_next_id p 2 d q).0 (get_next_id p 2 d q).2 id name metadata small h
