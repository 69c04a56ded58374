-- ===== src/Error.antt =====
-- src/server/src/error.rs. The errors of other crates carry no detail here.
use Prim.Native.String.{String}
use engula.Prelude.{ℕ, Option, Outcome}
use engula.Meta.{GroupDesc, ReplicaDesc, RootDesc, ForwardCtx}

pub data Error : Type 0 where
  already_exists : String → Error
  invalid_argument : String → Error
  deadline_exceeded : String → Error
  database_not_found : String → Error
  no_avaliable_group : Error
  resource_exhausted : String → Error
  shard_not_found : ℕ → Error
  invalid_data : String → Error
  canceled : Error
  cluster_not_match : Error
  raft raft_engine transport io rocks_db rpc : Error
  group_not_ready : ℕ → Error
  service_is_busy : String → Error
  forward : ForwardCtx → Error
  epoch_not_match : GroupDesc → Error
  group_not_found : ℕ → Error
  not_root_leader : RootDesc → ℕ → Option ReplicaDesc → Error
  not_leader : ℕ → ℕ → Option ReplicaDesc → Error
  abort_schedule_task : String → Error

abbrev pub Result : Type 0 → Type 0
Result A = Outcome Error A
