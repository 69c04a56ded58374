-- ===== src/Replica/Admission.antt =====
-- Which requests src/server/src/node/replica/mod.rs lets through to be evaluated, and where those for
-- a shard that migrates go.
use engula.Engine.{GroupEngineCore}
use engula.Engine.Batch.{BatchOp}
use engula.Engine.Snapshot.{DbItem}
use engula.Engine.Snapshot.Reads
use engula.Lease.{is_log_term_matched, is_migrating, is_raft_leader, LeaseState, ReplicaInfo}
use engula.Meta.{
  ShardData, Bytes, ForwardCtx, MigrationDesc, MigrationState, ScheduleState, ShardDesc,
}
use engula.Prelude.{
  ==_refl, Bool, List, Option, [], and_then, ap, arith, debug_assert, err, false, if◌then◌else◌,
  is_some, ltb, none, not, ok, ok-injective, ok_parts, refl, some, sym, true, ℕ, ◌&&◌, ◌==◌, ◌>>◌,
  ◌∙◌, ◌≡◌, ◌≤◌,
}
use engula.Replica.{
  ExecCtx, PutRequest, Request, check_request_early, delete_request, get_request, identified,
  is_accept_shard, put_request, unforwarded,
}
use engula.Replica.Eval.{eval_put, migrating_payloads}
use engula.Replica.Execute.{evaluate}
use engula.Replica.Purge.{eval_delete, eval_get}
use engula.Error.{Result, forward, Error}

-- A chain of tests that ends in a value.
passed :
    {A : Type 0} (test : Bool) (e : Error) (next : Result A) {a : A}
    → (if test then err e else next) ≡ ok a
    → (test ≡ false) × (next ≡ ok a)
passed true e next h = cc
passed false e next h = (refl, h)

holds_not : (b : Bool) → not b ≡ false → b ≡ true
holds_not true h = refl
holds_not false h = cc

unfoldable pub forward_to : ℕ → ℕ → List ShardData → ForwardCtx
forward_to shard_id group_id payloads = record {
  shard_id = shard_id;
  dest_group_id = group_id;
  payloads = payloads;
}

-- What a request that is not forwarded from another group has to meet.
unfoldable pub IsCurrent : LeaseState → ExecCtx → Request → ExecCtx → Type 0
IsCurrent lease_state ctx req checked =
    (lease_state.descriptor.epoch ≤ ctx.epoch)
    × ((is_migrating lease_state && is_accept_shard req) ≡ false)
    × (checked.migration_desc ≡ and_then lease_state.migration_state λ m. m.migration_desc)

last_checks :
    (checks : Bool) (lease_state : LeaseState) (ctx checked out : ExecCtx) (req : Request)
    → (debug_assert {E = Error} checks (ctx.epoch == lease_state.descriptor.epoch) >> ok out)
      ≡ ok checked
    → out ≡ checked
last_checks checks lease_state ctx checked out req h =
    ok-injective
      (ok_parts (debug_assert {E = Error} checks (ctx.epoch == lease_state.descriptor.epoch))
        (λ _. ok out) h).2

module _ (info : ReplicaInfo) (checks : Bool) where
  pub check_request_early-IsCurrent :
      (lease_state : LeaseState) (ctx checked : ExecCtx) (req : Request)
      → check_request_early info checks lease_state ctx req ≡ ok checked
      → (is_raft_leader lease_state ≡ true)
        × (is_log_term_matched lease_state ≡ true)
        × (ctx.forward_shard_id ≡ none → IsCurrent lease_state ctx req checked)
  unfolding check_request_early IsCurrent
  check_request_early-IsCurrent lease_state ctx checked req h =
      let led = passed (not (is_raft_leader lease_state)) _ _ h in
      let matched = passed (not (is_log_term_matched lease_state)) _ _ led.1 in
      (
        holds_not _ led.0,
        holds_not _ matched.0,
        λ local.
            let here =
              sym (
                ap
                  (λ b.
                    if is_some b
                    then ok (identified info ctx)
                    else unforwarded info checks lease_state ctx req)
                  local)
              ∙ matched.1 in
            let epoch = passed (ltb ctx.epoch lease_state.descriptor.epoch) _ _ here in
            let alone = passed (is_migrating lease_state && is_accept_shard req) _ _ epoch.1 in
            (
              ground (arith, epoch.0),
              alone.0,
              ap (λ c. c.migration_desc)
                  (sym (last_checks checks lease_state ctx checked _ req alone.1)),
            ),
      )

module _ (checks : Bool) (crc32 : Bytes → ℕ) (encode : List BatchOp → Bytes)
    (iterator_from : Bytes → List DbItem) (core : GroupEngineCore) (info : ReplicaInfo)
    (schedule_state : ScheduleState) where
  -- A put, a delete or a get for the shard that migrates, which the leader lets through and which was
  -- not forwarded to it, is never answered or proposed here: it is forwarded to the group that takes
  -- the shard, a get with the value that is still here.
  pub evaluate-forward :
      (lease_state : LeaseState) (ctx checked : ExecCtx) (m : MigrationState) (desc : MigrationDesc)
      (shard : ShardDesc) (p : PutRequest) (req : Request) (value : Option Bytes)
      → lease_state.migration_state ≡ some m
      → m.migration_desc ≡ some desc
      → desc.shard_desc ≡ some shard
      → ctx.forward_shard_id ≡ none
      → check_request_early info checks lease_state ctx req ≡ ok checked
      → Reads.get checks crc32 iterator_from shard.id p.key core ≡ ok value
      → (evaluate checks crc32 encode iterator_from core info schedule_state checked
            (put_request (record { shard_id = shard.id; put = some p }))
          ≡ some (err (forward (forward_to shard.id desc.dest_group_id []))))
        × (evaluate checks crc32 encode iterator_from core info schedule_state checked
              (delete_request (record { shard_id = shard.id; delete = some p.key }))
            ≡ some (err (forward (forward_to shard.id desc.dest_group_id []))))
        × (evaluate checks crc32 encode iterator_from core info schedule_state checked
              (get_request (record { shard_id = shard.id; get = some p.key }))
            ≡ some (
                err (
                  forward
                    (forward_to shard.id desc.dest_group_id (migrating_payloads p.key value)))))
  unfolding evaluate eval_put eval_delete eval_get IsCurrent forward_to
  evaluate-forward lease_state ctx checked m desc shard p req value migrates described of_shard
        local let_through read =
      let current =
        (check_request_early-IsCurrent info checks lease_state ctx checked req let_through).2
          local in
      let known : checked.migration_desc ≡ some desc =
        current.2 ∙ ap (λ o. and_then o λ n. n.migration_desc) migrates ∙ described in
      (
        rw (known, of_shard, ==_refl shard.id) refl,
        rw (known, of_shard, ==_refl shard.id) refl,
        rw (read, known, of_shard, ==_refl shard.id) refl,
      )
