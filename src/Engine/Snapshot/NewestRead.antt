-- ===== src/Engine/Snapshot/NewestRead.antt =====
-- `GroupEngine::get` of src/server/src/node/engine/group.rs returns what was written last.
use engula.Engine.Keys.Lex.{lex}
use engula.Engine.Snapshot.{DbItem}
use engula.Engine.Snapshot.Newest.{reaches, stored, stored_key}
use engula.Engine.Snapshot.Versions.{Version}
use engula.Meta.{Bytes}
use engula.Prelude.{List, Option, map, retain, ℕ, ◌++◌}
use engula.Error.{Error}

-- The database's iterator gives the items from a key on, in its order: those of the versions in the
-- collection and slot, and then others.
abbrev pub items_from : ℕ → Option ℕ → List Version → List DbItem → Bytes → List DbItem
items_from collection_id slot vs others seek =
    map (stored collection_id slot)
      (retain (λ v. reaches (lex (stored_key collection_id slot v.key v.version) seek)) vs)
    ++ others
