-- ===== src/Fsm/Rounds.antt =====
-- Rounds of committed entries of src/server/src/node/replica/fsm/mod.rs: the loop over the entries
-- inside one plug, and the refinement of entry-by-entry commits by one commit for the round.
use engula.Error.{rocks_db, Result}
use engula.Fsm.{ApplyEntry, apply_entry, Plugged, apply_at, unplugged}
use engula.Fsm.Batching.{IsSettledCore, Sim, Sim-commit, apply_at-merge}
use engula.Fsm.Machine.{
  start_plug, apply_all, flush_updated_events, run_plug, GroupStateMachine, apply_one, finish_plug,
  Entry,
}
use engula.Fsm.Merge.{merge}
use engula.Meta.{EntryId}
use engula.Prelude.{
  inl, inr, ◌⊎◌, ap, false, sym, unwrap, ◌∙◌, err, panic, ℕ, ok_parts, Bool, List, [], arith, ok,
  ok-injective, refl, some, ◌>>=◌, ◌∷◌, ◌≡◌,
}
use mathlib.Core.Path.{subst}
use engula.Engine.Core.{group_commit_cases, commit_core-group_commit, commit_core-eq}
use engula.Engine.{GroupEngine, group_commit, no_states, RawDb, GroupEngineCore, commit_core}

abbrev pub at_entry : Bool → GroupEngineCore → Entry → Plugged → Result Plugged
at_entry checks core e p = apply_at checks core e.index e.term e.entry p

-- The staged states of a whole round.
unfoldable pub plug_all : Bool → GroupEngineCore → List Entry → Plugged → Result Plugged
plug_all checks core [] p = ok p
plug_all checks core (e ∷ es) p = at_entry checks core e p >>= plug_all checks core es

-- The engine after a commit for each entry.
each_core : Bool → List Entry → GroupEngineCore → Result GroupEngineCore
each_core checks [] c = ok c
each_core checks (e ∷ es) c =
    (at_entry checks c e unplugged >>= λ q. commit_core q.write_states c) >>= each_core checks es

module _ (checks : Bool) (core : GroupEngineCore) where
  plug_all-Sim :
      (es : List Entry) (p : Plugged) (c c' : GroupEngineCore)
      → Sim core p c
      → each_core checks es c ≡ ok c'
      → (p' : Plugged) × (plug_all checks core es p ≡ ok p') × Sim core p' c'
  unfolding plug_all each_core
  plug_all-Sim [] p c c' sim h = (p, refl, subst (Sim core p) (ok-injective h) sim)
  plug_all-Sim (e ∷ es) p c c' sim h =
      let i1 = ok_parts (at_entry checks c e unplugged >>= λ q. commit_core q.write_states c) _ h in
      let i2 = ok_parts (at_entry checks c e unplugged) _ i1.1 in
      let at = apply_at-merge checks core c p sim e.index e.term e.entry i2.0 i2.1 in
      let sim' = Sim-commit checks core c p sim i2.0 i1.0 i2.2 in
      let rest = plug_all-Sim es (merge p i2.0) i1.0 c' sim' i1.2 in (rest.0, rw at rest.1, rest.2)

  apply_at_applied :
      (index term : ℕ) (entry : ApplyEntry) (p r : Plugged)
      → apply_at checks core index term entry p ≡ ok r
      → r.write_states.apply_state ≡ some (record { index = index; term = term })
  unfolding apply_at
  apply_at_applied index term entry p r h =
      let i = ok_parts (apply_entry checks core entry p) _ h in ground (arith, i.2)

  -- A round of at least one entry stages an apply state.
  plug_all_applied :
      (e : Entry) (es : List Entry) (p p' : Plugged)
      → plug_all checks core (e ∷ es) p ≡ ok p'
      → (a : EntryId) × (p'.write_states.apply_state ≡ some a)
  unfolding plug_all
  plug_all_applied e [] p p' h =
      let i = ok_parts (at_entry checks core e p) _ h in
      (
        record { index = e.index; term = e.term },
        ground (arith, apply_at_applied e.index e.term e.entry p i.0 i.1, ok-injective i.2),
      )
  plug_all_applied e (f ∷ es) p p' h =
      let i = ok_parts (at_entry checks core e p) _ h in plug_all_applied f es i.0 p' i.2

Sim-start : (core : GroupEngineCore) → IsSettledCore core → Sim core unplugged core
Sim-start core s = record { desc = refl; state = s.settled; indexed = s.indexed }

-- Committing what a round staged gives the engine of the entry-by-entry commits.
Sim-end :
    (core : GroupEngineCore) (p : Plugged) (c : GroupEngineCore)
    → IsSettledCore core
    → Sim core p c
    → commit_core p.write_states core ≡ ok c
Sim-end core p c s sim =
    commit_core-eq p.write_states core c sim.desc sim.state sim.indexed s.indexed s.settled

module _ (db : RawDb) (checks : Bool) where
  -- Every entry in a plug of its own.
  unfoldable pub run_each : List Entry → GroupStateMachine db → Result (GroupStateMachine db)
  run_each [] m = ok m
  run_each (e ∷ es) m = run_plug db checks (e ∷ []) m >>= run_each es

  apply_all-plug :
      (es : List Entry) (m : GroupStateMachine db)
      → apply_all db checks es m
        ≡ (plug_all checks m.engine.core es m.plugged >>= λ p. ok (record m { plugged = p }))
  unfolding apply_all apply_one plug_all
  apply_all-plug [] m = refl
  apply_all-plug (e ∷ es) m =
      elim_outcome (at_entry checks m.engine.core e m.plugged)
        (λ p. apply_all-plug es (record m { plugged = p }))
    where
      elim_outcome :
          (o : Result Plugged)
          → ((p : Plugged)
              → apply_all db checks es (record m { plugged = p })
                ≡ (plug_all checks m.engine.core es p >>= λ x. ok (record m { plugged = x })))
          → ((o >>= λ p. ok (record m { plugged = p })) >>= apply_all db checks es)
            ≡ ((o >>= plug_all checks m.engine.core es) >>= λ p. ok (record m { plugged = p }))
      elim_outcome (ok p) step = step p
      elim_outcome (err x) step = refl
      elim_outcome (panic x) step = refl

  flush_lem :
      (term : ℕ) (m : GroupStateMachine db)
      → ((flush_updated_events db term m).engine ≡ m.engine)
        × ((flush_updated_events db term m).plugged
            ≡ record (m.plugged) { desc_updated = false; migration_state_updated = false })
  unfolding flush_updated_events
  flush_lem term m = (ground arith, ground arith)

  -- What `finish_plug` does to the engine's memory and to the plug.
  finish_core :
      (m m' : GroupStateMachine db)
      → finish_plug db m ≡ ok m'
      → (commit_core m.plugged.write_states m.engine.core ≡ ok m'.engine.core)
        × (m'.plugged ≡ unplugged)
  unfolding finish_plug
  finish_core m m' h =
      let i1 = ok_parts (unwrap m.plugged.write_states.apply_state) _ h in
      let i2 =
        ok_parts (group_commit db m.plugged.write_batches m.plugged.write_states false m.engine) _
          i1.2 in
      let n = record m {
        engine = i2.0;
        plugged = record (m.plugged) { write_batches = []; write_states = no_states };
      } in
      let f = flush_lem i1.0.term n in
      let e = ok-injective i2.2 in
      (
        commit_core-group_commit db m.plugged.write_batches m.plugged.write_states false m.engine
              i2.0 i2.1
            ∙ ap ok (
                sym (ap (λ (x : GroupEngine db). x.core) f.0)
                ∙ ap (λ (x : GroupStateMachine db). x.engine.core) e),
        sym (ap (λ (x : GroupStateMachine db). x.plugged) e) ∙ f.1,
      )

  -- A plug around the entries, taken apart.
  pub run_plug_parts :
      (es : List Entry) (m m' : GroupStateMachine db)
      → m.plugged ≡ unplugged
      → run_plug db checks es m ≡ ok m'
      → (p : Plugged) × (plug_all checks m.engine.core es unplugged ≡ ok p)
        × (commit_core p.write_states m.engine.core ≡ ok m'.engine.core)
        × (m'.plugged ≡ unplugged)
  unfolding run_plug
  run_plug_parts es m m' idle h =
      let i1 = ok_parts (start_plug db m) _ h in
      let i2 = ok_parts (apply_all db checks es m) _ i1.2 in
      let i3 =
        ok_parts (plug_all checks m.engine.core es m.plugged) _
          (sym (apply_all-plug es m) ∙ i2.1) in
      let fin = finish_core i2.0 m' i2.2 in
      let e = ok-injective i3.2 in
      (
        i3.0,
        subst (λ x. plug_all checks m.engine.core es x ≡ ok i3.0) idle i3.1,
        subst
            (λ (x : GroupStateMachine db).
              commit_core x.plugged.write_states x.engine.core ≡ ok m'.engine.core)
            (sym e) fin.0,
        fin.1,
      )

  each_core_of_run :
      (es : List Entry) (m m' : GroupStateMachine db)
      → m.plugged ≡ unplugged
      → run_each es m ≡ ok m'
      → each_core checks es m.engine.core ≡ ok m'.engine.core
  unfolding run_each each_core plug_all
  each_core_of_run [] m m' idle h =
      ap (λ (x : GroupStateMachine db). ok x.engine.core) (ok-injective h)
  each_core_of_run (e ∷ es) m m' idle h =
      let i = ok_parts (run_plug db checks (e ∷ []) m) _ h in
      let parts = run_plug_parts (e ∷ []) m i.0 idle i.1 in
      let one = ok_parts (at_entry checks m.engine.core e unplugged) _ parts.1 in
      let same = ok-injective one.2 in
      rw (one.1) (rw same (rw (parts.2) (each_core_of_run es i.0 m' parts.3 i.2)))

  finish_forward :
      (m : GroupStateMachine db) (a : EntryId) (c : GroupEngineCore)
      → m.plugged.write_states.apply_state ≡ some a
      → commit_core m.plugged.write_states m.engine.core ≡ ok c
      → (finish_plug db m ≡ err rocks_db)
        ⊎ ((m' : GroupStateMachine db) × (finish_plug db m ≡ ok m')
            × (m'.engine.core ≡ c)
            × (m'.plugged ≡ unplugged))
  unfolding finish_plug
  finish_forward m a c ea h =
      elim (group_commit_cases db m.plugged.write_batches m.plugged.write_states false m.engine c
        h) [
          | inl bad ↦ inl (rw (bad, ea))
          | inr (e', good, same) ↦
              let n = record m {
                engine = e';
                plugged = record (m.plugged) { write_batches = []; write_states = no_states };
              } in
              let f = flush_lem a.term n in
              inr (
                flush_updated_events db a.term n,
                rw (good, ea),
                ap (λ (x : GroupEngine db). x.core) f.0 ∙ same,
                f.1,
              )
        ]

  run_plug_forward :
      (es : List Entry) (m : GroupStateMachine db) (p : Plugged)
      → m.plugged ≡ unplugged
      → plug_all checks m.engine.core es unplugged ≡ ok p
      → run_plug db checks es m ≡ finish_plug db (record m { plugged = p })
  unfolding run_plug start_plug
  run_plug_forward es m p idle h = rw (apply_all-plug es m, idle, h)

  -- One commit for a round refines a commit for each entry. From an idle machine whose engine is
  -- settled, where applying the entries with a plug for each succeeds, one plug around all of them
  -- succeeds too, but for a failing write of the database, and leaves the engine with the same
  -- descriptor, migration state and shard index, and nothing staged.
  pub run_plug-run_each :
      (e : Entry) (es : List Entry) (m m' : GroupStateMachine db)
      → m.plugged ≡ unplugged
      → IsSettledCore m.engine.core
      → run_each (e ∷ es) m ≡ ok m'
      → (run_plug db checks (e ∷ es) m ≡ err rocks_db)
        ⊎ ((m2 : GroupStateMachine db) × (run_plug db checks (e ∷ es) m ≡ ok m2)
            × (m2.engine.core ≡ m'.engine.core)
            × (m2.plugged ≡ unplugged))
  run_plug-run_each e es m m' idle s h =
      let core = m.engine.core in
      let sim =
        plug_all-Sim checks core (e ∷ es) unplugged core m'.engine.core (Sim-start core s)
          (each_core_of_run (e ∷ es) m m' idle h) in
      let a = plug_all_applied checks core e es unplugged sim.0 sim.1 in
      subst
        (λ x.
          (x ≡ err rocks_db)
          ⊎ ((m2 : GroupStateMachine db) × (x ≡ ok m2)
              × (m2.engine.core ≡ m'.engine.core)
              × (m2.plugged ≡ unplugged)))
        (sym (run_plug_forward (e ∷ es) m sim.0 idle sim.1))
        (finish_forward (record m { plugged = sim.0 }) a.0 m'.engine.core a.1
          (Sim-end core sim.0 m'.engine.core s sim.2))
