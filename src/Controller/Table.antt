-- ===== src/Controller/Table.antt =====
-- controller/info_table.h and controller/info_table.c: where each client listens. The hash table
-- (controller/hashtable.c) is a copy of another project's, and is a parameter.
use re203_projet_reseau.Prelude.{Bool, Option, none, some, Str, Pointer, if◌then◌else◌, ℤ}

pub record ClientInfo : Type 0 where
  pub address : Pointer
  pub port : ℤ

-- `hash_table_has_key`, `hash_table_add`, `hash_table_remove` and `hash_table_lookup`.
pub record HashTable (H : Type 0) : Type 0 where
  pub has_key : H → Str → Bool
  pub add : H → Str → ClientInfo → H
  pub remove : H → Str → H
  pub lookup : H → Str → Option ClientInfo

module _ {H : Type 0} (hash : HashTable H) where
  -- A key that is there keeps its value.
  unfoldable pub table_add_info : H → Str → ClientInfo → H
  table_add_info t key c = if hash.has_key t key then t else hash.add t key c

  unfoldable pub table_delete_info : H → Str → H
  table_delete_info t key = hash.remove t key

  unfoldable pub table_modify_key : H → Str → Str → H
  table_modify_key t old_key new_key = elim (hash.lookup t old_key) [
    | none ↦ t
    | some c ↦ if hash.has_key t new_key then t else hash.add (hash.remove t old_key) new_key c
  ]

  unfoldable pub table_get_info : H → Str → Option ClientInfo
  table_get_info t key = hash.lookup t key

  unfoldable pub table_has_info : H → Str → Bool
  table_has_info t key = hash.has_key t key
