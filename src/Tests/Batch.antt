-- ===== src/Tests/Batch.antt =====
-- Batches over the store in memory, and a codec of the counters that are merged in it.
use autograder_server.Tests.Store.{lookup_key-remove_key, in_memory, remove_key}
use autograder_server.Repository.Codec.{Codec}
use autograder_server.Repository.Prefix.{in_range, IterOptions}
use autograder_server.Repository.Manifest.Counter.{CounterCodec}
use autograder_server.Repository.Batch.{
  writes_at, write_at, merged, Write, Batches, set_key, delete_range, merge_key, delete_entry,
  set_key,
}
use autograder_server.Repository.Pebble.{
  lookup_key, Got, Entries, failed, found, failed, not_found, found,
}
use autograder_server.Repository.Merger.{
  get_counter, append_newer, finish, merge_newer, Mergeable, new_kv_merge, strings, unset, strings,
  counter, unset,
}
use autograder_server.Base.{
  ◌^◌, ◌%◌, ◌+◌, eq_of_bytes_eq, bytes_eq, ap, Bool-cases, sym, ◌∙◌, eq_of_some, ◌⊎◌, false≢true,
  subst, if◌then◌else◌, Option, Option, List, ℕ, ◌∷◌, [], inr, inl, some, none, false, true, refl,
  ◌≡◌,
}

abbrev mergeable_raw : Mergeable → Option (List ℕ)
mergeable_raw unset = some []
mergeable_raw (counter n) = some (n ∷ [])
mergeable_raw (strings l) = none
mergeable_raw (Mergeable.ids l) = none

abbrev mergeable_read : List ℕ → Mergeable
mergeable_read (n ∷ []) = counter n
mergeable_read _ = unset

pub mergeable_read_back :
    (m : Mergeable) (raw : List ℕ) → mergeable_raw m ≡ some raw → some (mergeable_read raw) ≡ some m
mergeable_read_back unset raw e =
    subst (λ t. some (mergeable_read t) ≡ some unset) (eq_of_some e) refl
mergeable_read_back (counter n) raw e =
    subst (λ t. some (mergeable_read t) ≡ some (counter n)) (eq_of_some e) refl
mergeable_read_back (strings l) raw e = cc
mergeable_read_back (Mergeable.ids l) raw e = cc

-- It marshals no lists.
abbrev pub counter_codec : Codec Mergeable
counter_codec = record {
  marshal = mergeable_raw;
  unmarshal = λ raw. some (mergeable_read raw);
  unmarshal-marshal = mergeable_read_back;
}

abbrev pub counters : CounterCodec counter_codec
counters = record { unmarshal-empty = refl; marshal-counter = λ n. (n ∷ [], refl) }

unfoldable pub entries_out : IterOptions → Entries → Entries
entries_out o [] = []
entries_out o ((j, v) ∷ r) =
    let rest = entries_out o r in if in_range o j then rest else (j, v) ∷ rest

lookup_key-entries_out :
    (o : IterOptions) (k : List ℕ) (d : Entries)
    → lookup_key k (entries_out o d) ≡ (if in_range o k then not_found else lookup_key k d)
unfolding entries_out
lookup_key-entries_out o k [] = elim (Bool-cases (in_range o k)) [
  | inl e ↦ rw e refl
  | inr e ↦ rw e refl
]
lookup_key-entries_out o k ((i, v) ∷ r) = elim (Bool-cases (bytes_eq i k)) [
  | inl at ↦
      let same = eq_of_bytes_eq i k at in
      elim (Bool-cases (in_range o k)) [
        | inl lost ↦
            let lost' : in_range o i ≡ true = ap (in_range o) same ∙ lost in
            rw (lost', lost) (lookup_key-entries_out o k r ∙ rw lost refl)
        | inr kept ↦
            let kept' : in_range o i ≡ false = ap (in_range o) same ∙ kept in
            rw (kept', kept, at) refl
      ]
  | inr off ↦ elim (Bool-cases (in_range o i)) [
    | inl lost ↦ rw (lost, off) (lookup_key-entries_out o k r)
    | inr kept ↦ rw (kept, off) (lookup_key-entries_out o k r)
  ]
]

abbrev merged_at : List ℕ → Got → Entries → Entries
merged_at k (found raw) d = (k, raw) ∷ d
merged_at k not_found d = d
merged_at k failed d = d

abbrev write_in : Entries → Write → Entries
write_in d (set_key k v) = (k, v) ∷ d
write_in d (delete_entry k) = remove_key k d
write_in d (merge_key k v) = merged_at k (merged counter_codec (lookup_key k d) v) d
write_in d (delete_range low high) =
    entries_out (record { lower_bound = low; upper_bound = high }) d

abbrev writes_in : Entries → List Write → Entries
writes_in d [] = d
writes_in d (w ∷ r) = writes_in (write_in d w) r

found_or_not :
    (k : List ℕ) (d : Entries)
    → (lookup_key k d ≡ not_found) ⊎ ((raw : List ℕ) × (lookup_key k d ≡ found raw))
found_or_not k [] = inl refl
found_or_not k ((j, v) ∷ r) = elim (Bool-cases (bytes_eq j k)) [
  | inl e ↦ inr (v, rw e refl)
  | inr e ↦ rw e (found_or_not k r)
]

merged-new : (v : List ℕ) → (raw : List ℕ) × (merged counter_codec not_found v ≡ found raw)
unfolding new_kv_merge finish
merged-new [] = ([], refl)
merged-new (n ∷ []) = (n ∷ [], refl)
merged-new (n ∷ m ∷ r) = ([], refl)

merged-old : (old v : List ℕ) → (raw : List ℕ) × (merged counter_codec (found old) v ≡ found raw)
unfolding new_kv_merge merge_newer append_newer get_counter finish
merged-old [] [] = ([], refl)
merged-old [] (n ∷ []) = (n ∷ [], refl)
merged-old [] (n ∷ m ∷ r) = ([], refl)
merged-old (x ∷ []) [] = (((x + 0) % 2 ^ 64) ∷ [], refl)
merged-old (x ∷ []) (n ∷ []) = (((x + n) % 2 ^ 64) ∷ [], refl)
merged-old (x ∷ []) (n ∷ m ∷ r) = (((x + 0) % 2 ^ 64) ∷ [], refl)
merged-old (x ∷ y ∷ z) [] = ([], refl)
merged-old (x ∷ y ∷ z) (n ∷ []) = (n ∷ [], refl)
merged-old (x ∷ y ∷ z) (n ∷ m ∷ r) = ([], refl)

merged-found :
    (k v : List ℕ) (d : Entries)
    → (raw : List ℕ) × (merged counter_codec (lookup_key k d) v ≡ found raw)
merged-found k v d = elim (found_or_not k d) [
  | inl e ↦ let (raw, m) = merged-new v in (raw, rw e m)
  | inr (old, e) ↦ let (raw, m) = merged-old old v in (raw, rw e m)
]

get-write :
    (d : Entries) (w : Write) (j : List ℕ)
    → lookup_key j (write_in d w) ≡ write_at counter_codec j w (lookup_key j d)
get-write d (set_key k v) j = refl
get-write d (delete_entry k) j = lookup_key-remove_key k j d
get-write d (merge_key k v) j =
    let (raw, m) = merged-found k v d in
    elim (Bool-cases (bytes_eq k j)) [
      | inl e ↦
          let same = eq_of_bytes_eq k j e in
          rw (m, e) (sym (subst (λ t. merged counter_codec (lookup_key t d) v ≡ found raw) same m))
      | inr e ↦ rw (m, e) refl
    ]
get-write d (delete_range low high) j =
    lookup_key-entries_out (record { lower_bound = low; upper_bound = high }) j d

pub get-writes :
    (ws : List Write) (d : Entries) (j : List ℕ)
    → lookup_key j (writes_in d ws) ≡ writes_at counter_codec j ws (lookup_key j d)
get-writes [] d j = refl
get-writes (w ∷ ws) d j =
    get-writes ws (write_in d w) j ∙ ap (writes_at counter_codec j ws) (get-write d w j)

-- Every batch is committed.
abbrev pub batches : Batches counter_codec in_memory
batches = record {
  commit = λ d ws. (writes_in d ws, true);
  get-commit = λ d ws j e. get-writes ws d j;
  get-commit_failed = λ d ws e. absurd (false≢true (sym e));
}
