-- ===== src/Replica/Loops.antt =====
-- The loops of src/server/src/node/replica/eval over the versions in the engine end.
use engula.Engine.Batch
use engula.Engine.Snapshot.Reads
use engula.Engine.Snapshot.{Snapshot}
