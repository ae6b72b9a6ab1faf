-- ===== src/Repository/Merger/Order.antt =====
-- The merges of pkg/repository/merger.go in the orders in which the store may hand over operands.
use autograder_server.Base.{[], ◌^◌, ◌<◌, List, ◌∷◌}
use autograder_server.Repository.Merger.{
  Mergeable, unset, counter, strings, ids, append_newer, append_older,
}

pub data Kind : Type 0 where
  counters string_lists id_lists : Kind

-- A message of one kind, or an unset one; a counter is in the range of its 64 bits.
abbrev pub OfKind : Kind → Mergeable → Type 0
OfKind counters (counter n) = n < 2 ^ 64
OfKind string_lists (strings l) = Unit {0}
OfKind id_lists (ids l) = Unit {0}
OfKind k unset = Unit {0}
OfKind _ _ = ⊥

-- The operands as the store hands them over: each is next to the merged ones, on either side.
pub data Arrival : Type 0 where
  newer older : Mergeable → Arrival

unfoldable pub merge_arrivals : Mergeable → List Arrival → Mergeable
merge_arrivals m [] = m
merge_arrivals m (newer v ∷ r) = merge_arrivals (append_newer m v) r
merge_arrivals m (older v ∷ r) = merge_arrivals (append_older m v) r

-- The older operands and the newer ones, each merged in the order of time.
unfoldable pub older_part : List Arrival → Mergeable
older_part [] = unset
older_part (newer v ∷ r) = older_part r
older_part (older v ∷ r) = append_newer (older_part r) v

unfoldable pub newer_part : List Arrival → Mergeable
newer_part [] = unset
newer_part (newer v ∷ r) = append_newer v (newer_part r)
newer_part (older v ∷ r) = newer_part r

abbrev pub ArrivalsOfKind : Kind → List Arrival → Type 0
ArrivalsOfKind k [] = Unit {0}
ArrivalsOfKind k (newer v ∷ r) = OfKind k v × ArrivalsOfKind k r
ArrivalsOfKind k (older v ∷ r) = OfKind k v × ArrivalsOfKind k r
