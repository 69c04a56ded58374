-- ===== src/Root/Watch/Run.antt =====
-- Over a run of the hub of src/server/src/root/watch.rs.
use engula.HashMap
use engula.HashMap.{Map, nat_key}
use engula.Prelude.{
  All, Bool-cases, List, Option-cases, [], any, ap, arith, inl, inr, length, not, refl, retain, suc,
  sym, u64_mod, ℕ, ◌%◌, ◌++◌, ◌+◌, ◌<◌, ◌==◌, ◌∙◌, ◌∷◌, ◌≡◌, ◌≤◌,
}
use engula.Root.Watch.{Poll, WatchHub, WatcherInner, create_watcher, drop_watcher, remove_watcher}
use engula.Root.Watch.Delivery.{
  HubAction, IsWaiting, Leaves, append_assoc, append_nil, cleanup-IsWaiting,
  create_watcher-IsWaiting, drop_watcher-IsWaiting, events_notified, hub_cleaned, received,
  remove_watcher-IsWaiting, response_of, run, sent, step, watcher_created, watcher_dropped,
  watcher_polled, watcher_removed,
}
use engula.Root.Watch.Received.{
  AddsUp, GoesOn, notified_inner, notify-IsWaiting, one_less, other_poll-GoesOn, own_poll-GoesOn,
  stays,
}
use mathlib.Core.Path.{subst, ap₂}

next-drop_watcher :
    (j : ℕ) (hub : WatchHub) → (drop_watcher j hub).next_watcher_id ≡ hub.next_watcher_id
unfolding drop_watcher
next-drop_watcher j hub = elim (Option-cases (HashMap.get j hub.inners)) [
  | inl unknown ↦ rw (unknown, drop_watcher) refl
  | inr (x, known) ↦ rw (known, drop_watcher) refl
]

next-remove_watcher :
    (j : ℕ) (hub : WatchHub) → (remove_watcher j hub).next_watcher_id ≡ hub.next_watcher_id
unfolding remove_watcher
next-remove_watcher j hub = elim (Bool-cases (any (λ w. w == j) hub.watchers)) [
  | inr unknown ↦ rw (unknown, remove_watcher) refl
  | inl known ↦
      rw (known, remove_watcher)
        (next-drop_watcher j (record hub { watchers = retain (λ w. not (w == j)) hub.watchers }))
]

same_count : (a n : ℕ) → a ≡ n → a ≤ n + 1
same_count a n h = omega (arith, h)

counted_room : (n : ℕ) → n + 1 < u64_mod → (n + 1) % u64_mod ≤ n + 1
counted_room n h = omega (arith, h)

some_room : (n m : ℕ) → n + suc m < u64_mod → n + 1 < u64_mod
some_room n m h = omega (arith, h)

more_room : (a n m : ℕ) → a ≤ n + 1 → n + suc m < u64_mod → a + m < u64_mod
more_room a n m h g = omega (arith, h, g)

step-GoesOn :
    (id : ℕ) (action : HubAction) (hub : WatchHub) (inner : WatcherInner)
    → IsWaiting id hub inner
    → Leaves id action
    → hub.next_watcher_id + 1 < u64_mod
    → GoesOn id (step action hub) (sent (action ∷ [])) hub inner
unfolding step Leaves create_watcher engula.Root.Watch.notify engula.Root.Watch.cleanup
step-GoesOn id (watcher_created updates deletes) hub inner h leaves room = record {
  next = inner;
  waits = create_watcher-IsWaiting id updates deletes hub inner h room;
  adds_up = stays inner;
  few = counted_room hub.next_watcher_id room;
}
step-GoesOn id (events_notified updates deletes) hub inner h leaves room = record {
  next = notified_inner updates deletes inner;
  waits = notify-IsWaiting id updates deletes hub inner h;
  adds_up = record {
    all_updates = ap (λ us. inner.updates ++ us) (sym (append_nil updates));
    all_deletes = ap (λ us. inner.deletes ++ us) (sym (append_nil deletes));
  };
  few = one_less hub.next_watcher_id;
}
step-GoesOn id (watcher_polled j waker) hub inner h leaves room = elim (Bool-cases (j == id)) [
  | inl same ↦ own_poll-GoesOn id j waker hub inner h same
  | inr unlike ↦ other_poll-GoesOn id j waker hub inner h unlike
]
step-GoesOn id (watcher_dropped j) hub inner h leaves room = record {
  next = inner;
  waits = drop_watcher-IsWaiting id j hub inner h leaves;
  adds_up = stays inner;
  few = same_count _ hub.next_watcher_id (next-drop_watcher j hub);
}
step-GoesOn id (watcher_removed j) hub inner h leaves room = record {
  next = inner;
  waits = remove_watcher-IsWaiting id j hub inner h leaves;
  adds_up = stays inner;
  few = same_count _ hub.next_watcher_id (next-remove_watcher j hub);
}
step-GoesOn id hub_cleaned hub inner h leaves room = record {
  next = inner;
  waits = cleanup-IsWaiting id hub inner h;
  adds_up = stays inner;
  few = one_less hub.next_watcher_id;
}

received-append :
    (id : ℕ) (xs ys : List (ℕ × Poll))
    → received id (xs ++ ys) ≡ record {
      updates = (received id xs).updates ++ (received id ys).updates;
      deletes = (received id xs).deletes ++ (received id ys).deletes;
    }
received-append id [] ys = refl
received-append id ((j, p) ∷ xs) ys = elim (Bool-cases (j == id)) [
  | inl same ↦
      rw (same, received-append id xs ys)
        (ap₂ (λ us ds. record { updates = us; deletes = ds })
          (sym (
            append_assoc (response_of p).updates (received id xs).updates (received id ys).updates))
          (sym (
            append_assoc (response_of p).deletes (received id xs).deletes
              (received id ys).deletes)))
  | inr unlike ↦ rw (unlike, received-append id xs ys) refl
]

sent-first :
    (action : HubAction) (actions : List HubAction)
    → ((sent (action ∷ actions)).updates ≡ (sent (action ∷ [])).updates ++ (sent actions).updates)
      × ((sent (action ∷ actions)).deletes ≡ (sent (action ∷ [])).deletes ++ (sent actions).deletes)
sent-first (events_notified updates deletes) actions = (
  ap (λ us. us ++ (sent actions).updates) (sym (append_nil updates)),
  ap (λ ds. ds ++ (sent actions).deletes) (sym (append_nil deletes)),
)
sent-first (watcher_created updates deletes) actions = (refl, refl)
sent-first (watcher_polled j waker) actions = (refl, refl)
sent-first (watcher_dropped j) actions = (refl, refl)
sent-first (watcher_removed j) actions = (refl, refl)
sent-first hub_cleaned actions = (refl, refl)

-- Two parts of a run.
joined :
    {A : Type 0} (got later mid before after first rest : List A)
    → got ++ mid ≡ before ++ first
    → later ++ after ≡ mid ++ rest
    → (got ++ later) ++ after ≡ before ++ (first ++ rest)
joined got later mid before after first rest h g =
    append_assoc got later after
    ∙ ap (λ xs. got ++ xs) g
    ∙ sym (append_assoc got mid rest)
    ∙ ap (λ xs. xs ++ rest) h
    ∙ append_assoc before first rest

-- Over any run of the hub in which it is neither dropped nor removed, a watcher that waits receives
-- what waited for it and then the events that are sent, each once and in the order in which they were
-- sent, but for those that still wait in the end; this as long as the count of watchers fits a u64.
pub run-AddsUp :
    (id : ℕ) (actions : List HubAction) (hub : WatchHub) (inner : WatcherInner)
    → IsWaiting id hub inner
    → All (Leaves id) actions
    → hub.next_watcher_id + length actions < u64_mod
    → (after : WatcherInner) × IsWaiting id (run actions hub).0 after
      × AddsUp inner after (received id (run actions hub).1) (sent actions)
unfolding run
run-AddsUp id [] hub inner h leaves room = (inner, h, stays inner)
run-AddsUp id (action ∷ actions) hub inner h (leave, leaves) room =
    let first =
      step-GoesOn id action hub inner h leave
        (some_room hub.next_watcher_id (length actions) room) in
    let rest =
      run-AddsUp id actions (step action hub).0 first.next first.waits leaves
        (more_room _ hub.next_watcher_id (length actions) first.few room) in
    (
      rest.0,
      rest.1,
      subst (λ got. AddsUp inner rest.0 got (sent (action ∷ actions)))
          (sym (received-append id (step action hub).1 (run actions (step action hub).0).1))
          (record {
            all_updates =
                joined _ _ first.next.updates inner.updates rest.0.updates _ _
                  first.adds_up.all_updates rest.2.all_updates
                ∙ ap (λ us. inner.updates ++ us) (sym (sent-first action actions).0);
            all_deletes =
                joined _ _ first.next.deletes inner.deletes rest.0.deletes _ _
                  first.adds_up.all_deletes rest.2.all_deletes
                ∙ ap (λ ds. inner.deletes ++ ds) (sym (sent-first action actions).1);
          }),
    )
