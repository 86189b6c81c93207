-- ===== src/Service/Metadata/Lookup.antt =====
-- What the metadata of a request comes back as, key by key.
use rusty_swift_merge.Base.{
  ℕ, ◌≡◌, refl, ap, ◌∙◌, arith, Bool, true, Option, none, some, List, [], ◌∷◌, leb, if◌then◌else◌,
}
use Prim.Native.Nat.Ordering.{eq}
use rusty_swift_merge.Bytes.{Bytes}
use rusty_swift_merge.Bytes.Order.{cmp, eq_of_cmp}
use rusty_swift_merge.BTreeMap.{BTreeMap, get, Above, IsSorted}
use rusty_swift_merge.BTreeMap.Laws.{insert-IsSorted, get-Above, Above-trans}
use rusty_swift_merge.Entry.{TypeInfoMetadata}
use rusty_swift_merge.Memtable.Writes.{get-insert}
use rusty_swift_merge.Service.{TypeInfo, FilterParam}
use rusty_swift_merge.Service.Metadata.{
  true_type_of, grpc_type, internal_metadata, insert_all, grpc_metadata, contains, retain,
  apply_filter,
}

-- A type as it comes back: numbers that name no type become 0.
abbrev pub canonical : TypeInfo → TypeInfo
canonical t = record { raw = t.raw; true_type = if leb t.true_type 9 then t.true_type else 0 }

pub grpc_type-true_type_of : (n : ℕ) → grpc_type (true_type_of n) ≡ (if leb n 9 then n else 0)
unfolding grpc_type true_type_of
grpc_type-true_type_of n = ground arith

abbrev pub internal : TypeInfo → TypeInfoMetadata
internal t = record { raw = t.raw; true_type = true_type_of t.true_type }

abbrev external : TypeInfoMetadata → TypeInfo
external t = record { raw = t.raw; true_type = grpc_type t.true_type }

external-internal : (t : TypeInfo) → external (internal t) ≡ canonical t
external-internal t =
    ap (λ (n : ℕ). record { raw = t.raw; true_type = n }) (grpc_type-true_type_of t.true_type)

-- What a request says of a key: its last entry with that key.
unfoldable pub requested : List (Bytes × TypeInfo) → Bytes → Option TypeInfo
requested [] k = none
requested ((j, t) ∷ metadata) k = elim (requested metadata k) [
  | some u ↦ some u
  | none ↦ elim (cmp k j) [ eq ↦ some t | _ ↦ none ]
]

abbrev pub map_or : {A B : Type 0} → (A → B) → Option A → Option B → Option B
map_or f (some a) o = some (f a)
map_or f none o = o

internal_metadata-IsSorted :
    (xs : List (Bytes × TypeInfo)) (md : BTreeMap TypeInfoMetadata)
    → IsSorted md
    → IsSorted (internal_metadata xs md)
unfolding internal_metadata
internal_metadata-IsSorted [] md s = s
internal_metadata-IsSorted ((k, t) ∷ xs) md s =
    internal_metadata-IsSorted xs _ (insert-IsSorted md k (internal t) s)

get-internal_metadata :
    (xs : List (Bytes × TypeInfo)) (md : BTreeMap TypeInfoMetadata) (q : Bytes)
    → IsSorted md
    → get (internal_metadata xs md) q ≡ map_or internal (requested xs q) (get md q)
unfolding internal_metadata requested
get-internal_metadata [] md q s = refl
get-internal_metadata ((k, t) ∷ xs) md q s =
    get-internal_metadata xs _ q (insert-IsSorted md k (internal t) s)
    ∙ ap (λ (o : Option TypeInfoMetadata). map_or internal (requested xs q) o)
        (get-insert md k q (internal t) s)
    ∙ ground arith

insert_all-IsSorted :
    (md : BTreeMap TypeInfoMetadata) (m : BTreeMap TypeInfo)
    → IsSorted m
    → IsSorted (insert_all md m)
unfolding insert_all
insert_all-IsSorted [] m s = s
insert_all-IsSorted ((k, t) ∷ md) m s =
    insert_all-IsSorted md _ (insert-IsSorted m k (external t) s)

get-insert_all :
    (md : BTreeMap TypeInfoMetadata) (m : BTreeMap TypeInfo) (q : Bytes)
    → IsSorted md
    → IsSorted m
    → get (insert_all md m) q ≡ map_or external (get md q) (get m q)
unfolding insert_all get
get-insert_all [] m q p s = refl
get-insert_all ((k, t) ∷ md) m q p s =
    get-insert_all md _ q p.1 (insert-IsSorted m k (external t) s)
    ∙ ap (λ (o : Option TypeInfo). map_or external (get md q) o) (get-insert m k q (external t) s)
    ∙ ground (arith, get-Above md q, Above-trans q k md, eq_of_cmp q k)

Above-retain :
    (b : Bytes) (keys : List Bytes) (m : BTreeMap TypeInfo) → Above b m → Above b (retain keys m)
unfolding retain
Above-retain b keys [] a = tt
Above-retain b keys ((k, t) ∷ m) a = ground (arith, Above-retain b keys m a.1)

get-retain :
    (keys : List Bytes) (m : BTreeMap TypeInfo) (q : Bytes)
    → IsSorted m
    → get (retain keys m) q ≡ (if contains keys q then get m q else none)
unfolding retain get
get-retain keys [] q s = ground arith
get-retain keys ((k, t) ∷ m) q s =
    ground (arith, get-retain keys m q s.1, get-Above m q, Above-trans q k m, eq_of_cmp q k)

-- Whether a filter lets a key through.
abbrev pub allowed : Option FilterParam → Bytes → Bool
allowed none k = true
allowed (some f) k = if f.use_filter then contains f.metadata_keys k else true

get-apply_filter :
    (filter : Option FilterParam) (m : BTreeMap TypeInfo) (q : Bytes)
    → IsSorted m
    → get (apply_filter filter m) q ≡ (if allowed filter q then get m q else none)
unfolding apply_filter
get-apply_filter none m q s = refl
get-apply_filter (some f) m q s = ground (arith, get-retain f.metadata_keys m q s)

-- The metadata of a request, stored and given back under a filter: for every key that the filter lets
-- through, what the request said of it last, in canonical form.
pub get-grpc_metadata :
    (filter : Option FilterParam) (value : Bytes) (xs : List (Bytes × TypeInfo)) (q : Bytes)
    → get
        (apply_filter filter
          (grpc_metadata (record { value = value; meta_data = some (internal_metadata xs []) })))
        q
      ≡ (if allowed filter q then map_or canonical (requested xs q) none else none)
unfolding grpc_metadata get
get-grpc_metadata filter value xs q =
    let md = internal_metadata xs [] in
    let sorted = internal_metadata-IsSorted xs [] tt in
    get-apply_filter filter (insert_all md []) q (insert_all-IsSorted md [] tt)
    ∙ ap (λ (o : Option TypeInfo). if allowed filter q then o else none)
        (get-insert_all md [] q sorted tt
          ∙ ap (λ (o : Option TypeInfoMetadata). map_or external o none)
              (get-internal_metadata xs [] q tt)
          ∙ back (requested xs q))
  where
    back :
        (o : Option TypeInfo)
        → map_or external (map_or internal o none) none ≡ map_or canonical o none
    back none = refl
    back (some t) = ap (λ (u : TypeInfo). some u) (external-internal t)
