-- ===== src/Root/Watch/Delivery.antt =====
-- What a watcher of src/server/src/root/watch.rs receives, over any run of the hub.
use engula.HashMap
use mathlib.Core.Bool.{false≢true}
use engula.HashMap.{Map, nat_key}
use engula.Prelude.{
  Option-cases, arith, not, u64_mod, ◌%◌, ◌+◌, ◌<◌, ◌≢◌, ==_iff, ==_refl, Bool, Bool-cases, List,
  [], any, ap, false, if◌then◌else◌, inl, inr, none, refl, retain, some, some_injective, sym, true,
  ℕ, ◌++◌, ◌==◌, ◌||◌, ◌∙◌, ◌∷◌, ◌≡◌, ◌≤◌,
}
use engula.Meta.{DeleteEvent, UpdateEvent}
use engula.Root.Watch.{
  drop_inner, is_dropped, Poll, WatchHub, WatchResponse, WatcherInner, cleanup, create_watcher,
  drop_watcher, notify, notify_inners, notify_watcher, poll_watcher, ready, remove_watcher,
}

pub data HubAction : Type 0 where
  watcher_created events_notified : List UpdateEvent → List DeleteEvent → HubAction
  watcher_polled : ℕ → ℕ → HubAction
  watcher_dropped watcher_removed : ℕ → HubAction
  hub_cleaned : HubAction

abbrev pub with_poll : ℕ → WatchHub × Poll → WatchHub × List (ℕ × Poll)
with_poll id r = (r.0, (id, r.1) ∷ [])

-- The hub after an action, and what is answered to a poll.
unfoldable pub step : HubAction → WatchHub → WatchHub × List (ℕ × Poll)
step (watcher_created updates deletes) hub = (create_watcher updates deletes hub, [])
step (events_notified updates deletes) hub = (notify updates deletes hub, [])
step (watcher_polled id waker) hub = with_poll id (poll_watcher id waker hub)
step (watcher_dropped id) hub = (drop_watcher id hub, [])
step (watcher_removed id) hub = (remove_watcher id hub, [])
step hub_cleaned hub = (cleanup hub, [])

unfoldable pub run : List HubAction → WatchHub → WatchHub × List (ℕ × Poll)
unfolding step
run [] hub = (hub, [])
run (action ∷ actions) hub =
    let first = step action hub in let rest = run actions first.0 in (rest.0, first.1 ++ rest.1)

-- The updates and deletes that a watcher receives, and those that are sent.
abbrev pub response_of : Poll → WatchResponse
response_of (ready r) = r
response_of _ = record { updates = []; deletes = [] }

abbrev pub received : ℕ → List (ℕ × Poll) → WatchResponse
received id [] = record { updates = []; deletes = [] }
received id ((j, p) ∷ outs) =
    let rest = received id outs in
    if j == id
    then record {
      updates = (response_of p).updates ++ rest.updates;
      deletes = (response_of p).deletes ++ rest.deletes;
    }
    else rest

abbrev pub sent : List HubAction → WatchResponse
sent [] = record { updates = []; deletes = [] }
sent (events_notified updates deletes ∷ actions) =
    let rest = sent actions in
    record { updates = updates ++ rest.updates; deletes = deletes ++ rest.deletes }
sent (_ ∷ actions) = sent actions

-- The watcher is neither dropped nor removed.
unfoldable pub Leaves : ℕ → HubAction → Type 0
Leaves id (watcher_dropped j) = (j == id) ≡ false
Leaves id (watcher_removed j) = (j == id) ≡ false
Leaves id _ = Unit

-- A watcher that waits: known to the hub, not dropped and without an error.
pub record IsWaiting (id : ℕ) (hub : WatchHub) (inner : WatcherInner) : Type 0 where
  pub kept : HashMap.get id hub.inners ≡ some inner
  pub live : inner.dropped ≡ false
  pub sound : inner.err ≡ none
  pub listed : any (λ w. w == id) hub.watchers ≡ true
  pub counted : id ≤ hub.next_watcher_id

any-retain :
    (id : ℕ) (p : ℕ → Bool) (ws : List ℕ)
    → p id ≡ true
    → any (λ w. w == id) ws ≡ true
    → any (λ w. w == id) (retain p ws) ≡ true
any-retain id p [] h at = cc
any-retain id p (w ∷ ws) h at = elim (Bool-cases (w == id)) [
  | inl same ↦ rw ((==_iff w id).0 same, h, ==_refl id) refl
  | inr unlike ↦ elim (Bool-cases (p w)) [
    | inl stays ↦
        rw (stays, unlike)
          (any-retain id p ws h (sym (ap (λ b. b || any (λ x. x == id) ws) unlike) ∙ at))
    | inr goes ↦
        rw goes (any-retain id p ws h (sym (ap (λ b. b || any (λ x. x == id) ws) unlike) ∙ at))
  ]
]

pub get-notify_inners :
    (id : ℕ) (watchers : List ℕ) (updates : List UpdateEvent) (deletes : List DeleteEvent)
    (m : Map ℕ WatcherInner) {inner : WatcherInner}
    → any (λ w. w == id) watchers ≡ true
    → HashMap.get id m ≡ some inner
    → HashMap.get id (notify_inners watchers updates deletes m)
      ≡ some (notify_watcher updates deletes none inner)
unfolding notify_inners
get-notify_inners id watchers updates deletes [] listed at = cc
get-notify_inners id watchers updates deletes ((j, w) ∷ rest) {inner} listed at =
    elim (Bool-cases (j == id)) [
      | inl same ↦
          let is_inner =
            some_injective (sym (ap (λ b. if b then some w else HashMap.get id rest) same) ∙ at) in
          rw (same, (==_iff j id).0 same, listed, is_inner) refl
      | inr unlike ↦ rw unlike (
          get-notify_inners id watchers updates deletes rest listed
            (sym (ap (λ b. if b then some w else HashMap.get id rest) unlike) ∙ at))
    ]

pub append_nil : {A : Type 0} (xs : List A) → xs ++ [] ≡ xs
append_nil [] = refl
append_nil (x ∷ xs) = ap (λ ys. x ∷ ys) (append_nil xs)

pub append_assoc : {A : Type 0} (xs ys zs : List A) → (xs ++ ys) ++ zs ≡ xs ++ (ys ++ zs)
append_assoc [] ys zs = refl
append_assoc (x ∷ xs) ys zs = ap (λ us. x ∷ us) (append_assoc xs ys zs)

pub counted_on : (n : ℕ) → n + 1 < u64_mod → (n + 1) % u64_mod ≡ n + 1
counted_on n h = omega (arith, h)

-- The watcher goes on with what it has: nothing is received and nothing sent.
pub unlike_ids : (j id : ℕ) → (j == id) ≡ false → j ≢ id
unlike_ids j id h e = false≢true (sym h ∙ (==_iff j id).1 e)

not_same : (j id : ℕ) → (j == id) ≡ false → not (id == j) ≡ true
not_same j id h = ground (arith, h)

above : (id n : ℕ) → id ≤ n → (n + 1 == id) ≡ false
above id n h = ground (arith, h)

further : (id n : ℕ) → id ≤ n → id ≤ n + 1
further id n h = omega (arith, h)

pub create_watcher-IsWaiting :
    (id : ℕ) (updates : List UpdateEvent) (deletes : List DeleteEvent) (hub : WatchHub)
    (inner : WatcherInner)
    → IsWaiting id hub inner
    → hub.next_watcher_id + 1 < u64_mod
    → IsWaiting id (create_watcher updates deletes hub) inner
unfolding create_watcher
create_watcher-IsWaiting id updates deletes hub inner h room =
    let apart : ((hub.next_watcher_id + 1) % u64_mod == id) ≡ false =
      rw (counted_on hub.next_watcher_id room) (above id hub.next_watcher_id h.counted) in
    record {
      kept =
          HashMap.kept id ((hub.next_watcher_id + 1) % u64_mod) _ hub.inners (unlike_ids _ id apart)
          ∙ h.kept;
      live = h.live;
      sound = h.sound;
      listed = rw apart (
          any-retain id (λ w. not (w == (hub.next_watcher_id + 1) % u64_mod)) hub.watchers
            (not_same _ id apart) h.listed);
      counted = rw (counted_on hub.next_watcher_id room) (further id hub.next_watcher_id h.counted);
    }

pub drop_watcher-IsWaiting :
    (id j : ℕ) (hub : WatchHub) (inner : WatcherInner)
    → IsWaiting id hub inner
    → (j == id) ≡ false
    → IsWaiting id (drop_watcher j hub) inner
unfolding drop_watcher
drop_watcher-IsWaiting id j hub inner h unlike = elim (Option-cases (HashMap.get j hub.inners)) [
  | inl unknown ↦ rw (unknown, drop_watcher) h
  | inr (x, known) ↦
      rw (known, drop_watcher)
        (record {
          kept = HashMap.kept id j (drop_inner x) hub.inners (unlike_ids j id unlike) ∙ h.kept;
          live = h.live;
          sound = h.sound;
          listed = h.listed;
          counted = h.counted;
        })
]

pub remove_watcher-IsWaiting :
    (id j : ℕ) (hub : WatchHub) (inner : WatcherInner)
    → IsWaiting id hub inner
    → (j == id) ≡ false
    → IsWaiting id (remove_watcher j hub) inner
unfolding remove_watcher
remove_watcher-IsWaiting id j hub inner h unlike =
    elim (Bool-cases (any (λ w. w == j) hub.watchers)) [
      | inr unknown ↦ rw (unknown, remove_watcher) h
      | inl known ↦
          rw (known, remove_watcher)
            (drop_watcher-IsWaiting id j
              (record hub { watchers = retain (λ w. not (w == j)) hub.watchers }) inner
              (record {
                kept = h.kept;
                live = h.live;
                sound = h.sound;
                listed =
                    any-retain id (λ w. not (w == j)) hub.watchers (not_same j id unlike) h.listed;
                counted = h.counted;
              })
              unlike)
    ]

pub cleanup-IsWaiting :
    (id : ℕ) (hub : WatchHub) (inner : WatcherInner)
    → IsWaiting id hub inner
    → IsWaiting id (cleanup hub) inner
unfolding cleanup is_dropped
cleanup-IsWaiting id hub inner h = record {
  kept = h.kept;
  live = h.live;
  sound = h.sound;
  listed =
      any-retain id (λ w. not (is_dropped hub.inners w)) hub.watchers
        (rw (h.kept, h.live, is_dropped) refl) h.listed;
  counted = h.counted;
}
