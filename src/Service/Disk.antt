-- ===== src/Service/Disk.antt =====
-- What `get` makes of the bytes that the LSM reader finds.
use rusty_swift_merge.Base.{
  ℕ, ◌≤◌, ◌≡◌, ◌≢◌, refl, ap, ◌∙◌, arith, false, Option, some, List, [], length, ◌==◌,
}
use rusty_swift_merge.Base.Outcome.{ok}
use rusty_swift_merge.Bytes.{Bytes}
use rusty_swift_merge.Entry.{TableEntry, serialize, wal_value}
use rusty_swift_merge.Entry.RoundTrip.{length-serialize}
use rusty_swift_merge.Table.Lookup.{stored}
use rusty_swift_merge.Lsm.{FileMap, SearchResult, read}
use rusty_swift_merge.Service.{GetResponse}
use rusty_swift_merge.Service.Requests.{found_on_disk, disk_answer}

disk_answer_lem :
    (levels : List FileMap) (key : Bytes) (r : SearchResult)
    → read levels key ≡ ok r
    → disk_answer levels key ≡ ok (found_on_disk r.value)
unfolding disk_answer
disk_answer_lem levels key r h = rw (disk_answer, h) refl

found-serialize :
    (e : TableEntry)
    → found_on_disk (some (serialize e)) ≡ record { value = some (serialize e); metadata = [] }
unfolding found_on_disk
found-serialize e = rw (found_on_disk, long) refl
  where
    no_one : (n : ℕ) → 5 ≤ n → (n == 1) ≡ false
    no_one n h = ground arith

    long : (length (serialize e) == 1) ≡ false
    long = no_one (length (serialize e)) (omega (arith, length-serialize e))

longer : (e : TableEntry) → serialize e ≢ e.value
longer e p = omega (arith, length-serialize e, ap (λ (t : Bytes). length t) p)

-- Where the LSM reader finds what a flush wrote for a key with an entry, `get` answers the serialized
-- entry, which is not the entry's value, and no metadata.
pub disk_answer-serialize :
    (levels : List FileMap) (key : Bytes) (e : TableEntry) (r : SearchResult)
    → read levels key ≡ ok r
    → r.value ≡ stored (some (some e))
    → (response : GetResponse) × (disk_answer levels key ≡ ok response)
      × (response.value ≡ some (serialize e))
      × (serialize e ≢ e.value)
      × (response.metadata ≡ [])
unfolding wal_value
disk_answer-serialize levels key e r h found = (
  record { value = some (serialize e); metadata = [] },
  disk_answer_lem levels key r h
      ∙ ap (λ (o : Option Bytes). ok (found_on_disk o)) found
      ∙ ap (λ (response : GetResponse). ok response) (found-serialize e),
  refl,
  longer e,
  refl,
)
