-- ===== src/ObjectStore/Memory.antt =====
-- crates/object-store/src/memory.rs: the object archive in memory.
use Prim.Native.Char.{code}
use Prim.Native.String.{String}
use sulix_intelligence.Prelude.{
  ℕ, I64, ◌+◌, ◌≡◌, refl, ap, [], ◌∷◌, arith, Option, some, ok, Mut, HashMap, get, insert, remove,
  str_eq, ltb, if◌then◌else◌, eq_iff,
}
use sulix_intelligence.ObjectStore.{ObjectRef, ObjectStoreError, ObjectStore}

abbrev pub BlobStore : Type 0
BlobStore = HashMap String String

abbrev pub new : BlobStore
new = []

-- The bytes of a text in UTF-8.
abbrev pub byte_len : String → ℕ
byte_len String.[] = 0
byte_len (String.◌∷◌ c s) =
    let rest = byte_len s in
    if ltb (code c) 128
    then 1 + rest
    else if ltb (code c) 2048
    then 2 + rest
    else if ltb (code c) 65536
    then 3 + rest
    else 4 + rest

module _ (now : I64) where
  unfoldable pub write_object : String → String → Mut BlobStore ObjectStoreError ObjectRef
  write_object key object blobs = (
    ok (record { key = key; size = byte_len object; created_at = now }),
    insert str_eq key object blobs,
  )

unfoldable pub read_object : String → Mut BlobStore ObjectStoreError (Option String)
read_object key blobs = (ok (get str_eq key blobs), blobs)

unfoldable pub delete_object : String → Mut BlobStore ObjectStoreError (Unit {0})
delete_object key blobs = (ok tt, remove str_eq key blobs)

unfoldable pub blob_store : I64 → ObjectStore BlobStore
unfolding write_object read_object delete_object
blob_store now = record {
  write_object = write_object now;
  read_object = read_object;
  delete_object = delete_object;
}

pub get-insert_text :
    (key other object : String) (blobs : BlobStore)
    → get str_eq other (insert str_eq key object blobs)
      ≡ (if str_eq key other then some object else get str_eq other blobs)
get-insert_text key other object [] = refl
get-insert_text key other object ((k, v) ∷ blobs) =
    ground (
      arith,
      get-insert_text key other object blobs,
      eq_iff k key,
      eq_iff key other,
      eq_iff k other,
    )

-- A write is read back under its key, and leaves the other keys alone.
pub read_object-write_object :
    (now : I64) (key other object : String) (blobs : BlobStore)
    → (read_object other (write_object now key object blobs).1).0
      ≡ ok (if str_eq key other then some object else get str_eq other blobs)
unfolding read_object write_object
read_object-write_object now key other object blobs = ap ok (get-insert_text key other object blobs)
