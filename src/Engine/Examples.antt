-- ===== src/Engine/Examples.antt =====
-- The keys of a group engine on concrete bytes.
use Prim.Native.Nat.{Ordering}
use engula.Engine.Keys.RoundTrip.{revert_mvcc_key-mvcc_key}
use engula.Meta.{ShardDesc, range, Bytes}
use engula.Prelude.{List, Option, none, ℕ, [], arith, ok, refl, some, true, ◌>>=◌, ◌∷◌, ◌≡◌}
use engula.Engine.{GroupEngineCore}
use engula.Engine.Keys.Lex.{lex}
use engula.Engine.Keys.Order.{lex-mvcc_key}
use engula.Engine.Snapshot.Versions.{Version}
use engula.Engine.Keys.{mvcc_key, revert_mvcc_key}

abbrev nine_bytes : Bytes
nine_bytes = 97 ∷ 98 ∷ 99 ∷ 100 ∷ 101 ∷ 102 ∷ 103 ∷ 104 ∷ 105 ∷ []

revert_mvcc_key-mvcc_key_example :
    (mvcc_key 7 (some 300) nine_bytes 5 >>= λ bs. revert_mvcc_key true bs true)
    ≡ ok (nine_bytes, some 300)
revert_mvcc_key-mvcc_key_example =
    revert_mvcc_key-mvcc_key true 7 (some 300) nine_bytes 5 refl (ground arith)

lex-mvcc_key_example :
    (ka : Bytes) × (kb : Bytes) × (mvcc_key 7 none nine_bytes 5 ≡ ok ka)
    × (mvcc_key 7 none nine_bytes 6 ≡ ok kb)
    × (lex ka kb ≡ Ordering.gt)
lex-mvcc_key_example =
    lex-mvcc_key 7 none nine_bytes nine_bytes 5 6 refl refl (ground arith) (ground arith)

-- A shard with all keys of a collection, and three versions of two keys.
abbrev whole_shard : ShardDesc
whole_shard = record {
  id = 4;
  collection_id = 7;
  partition = some (range (record { start = []; end = [] }));
}

abbrev served_core : GroupEngineCore
served_core = record {
  group_desc = record { id = 1; epoch = 2; shards = whole_shard ∷ []; replicas = [] };
  shard_descs = (4, whole_shard) ∷ [];
  migration_state = none;
}

abbrev version_of : Bytes → ℕ → Option Bytes → Version
version_of k n v = record { key = k; version = n; value = v }

abbrev three_versions : List Version
three_versions =
    version_of (97 ∷ []) 5 none
    ∷ version_of (97 ∷ []) 3 (some (1 ∷ []))
    ∷ version_of nine_bytes 4 (some (2 ∷ 3 ∷ []))
    ∷ []
