-- ===== src/Root/Watch/Received.antt =====
-- A watcher of src/server/src/root/watch.rs receives all that is sent, in order and once.
use engula.HashMap
use mathlib.Core.Path.{subst, ap₂}
use engula.HashMap.{kept, Map, nat_key}
use engula.Error.{Error}
use engula.Prelude.{
  ==_iff, arith, on_option, true, Option-cases, ◌+◌, ◌==◌, ◌∷◌, ◌≤◌, Bool-cases, List, Option, [],
  ap, false, if◌then◌else◌, inl, inr, is_nil, none, or_else, refl, some, sym, ℕ, ◌&&◌, ◌++◌, ◌∙◌,
  ◌≡◌,
}
use engula.Root.Watch.{
  Poll, ended, poll_watcher, WatchHub, WatchResponse, WatcherInner, notify, notify_watcher,
  poll_next,
}
use engula.Meta.{DeleteEvent, UpdateEvent}
use engula.Root.Watch.Delivery.{
  unlike_ids, with_poll, received, IsWaiting, append_nil, get-notify_inners, response_of,
}

-- What was received, and what waits, is what waited and what was sent.
pub record AddsUp (before after : WatcherInner) (got sends : WatchResponse) : Type 0 where
  pub all_updates : got.updates ++ after.updates ≡ before.updates ++ sends.updates
  pub all_deletes : got.deletes ++ after.deletes ≡ before.deletes ++ sends.deletes

abbrev pub nothing : WatchResponse
nothing = record { updates = []; deletes = [] }

pub stays : (inner : WatcherInner) → AddsUp inner inner nothing nothing
stays inner = record {
  all_updates = sym (append_nil inner.updates);
  all_deletes = sym (append_nil inner.deletes);
}

abbrev pub notified_inner : List UpdateEvent → List DeleteEvent → WatcherInner → WatcherInner
notified_inner updates deletes inner = record {
  waker = none;
  updates = inner.updates ++ updates;
  deletes = inner.deletes ++ deletes;
  err = or_else inner.err none;
  dropped = false;
}

no_error : (o : Option Error) → o ≡ none → or_else o none ≡ none
no_error o h = ap (λ x. or_else x none) h

pub notify-IsWaiting :
    (id : ℕ) (updates : List UpdateEvent) (deletes : List DeleteEvent) (hub : WatchHub)
    (inner : WatcherInner)
    → IsWaiting id hub inner
    → IsWaiting id (notify updates deletes hub) (notified_inner updates deletes inner)
unfolding notify notify_watcher
notify-IsWaiting id updates deletes hub inner h = record {
  kept =
      get-notify_inners id hub.watchers updates deletes hub.inners h.listed h.kept
      ∙ ap (λ b. some (if b then inner else notified_inner updates deletes inner)) h.live;
  live = refl;
  sound = no_error inner.err h.sound;
  listed = h.listed;
  counted = h.counted;
}

-- A poll of a watcher that waits.
poll_next-AddsUp :
    (waker : ℕ) (inner : WatcherInner)
    → inner.dropped ≡ false
    → inner.err ≡ none
    → ((poll_next waker inner).0.dropped ≡ false)
      × ((poll_next waker inner).0.err ≡ none)
      × AddsUp inner (poll_next waker inner).0 (response_of (poll_next waker inner).1) nothing
unfolding poll_next
poll_next-AddsUp waker inner live sound =
    elim (Bool-cases (is_nil inner.updates && is_nil inner.deletes)) [
      | inl empty ↦
          rw (live, sound, empty, poll_next)
            (
              refl,
              refl,
              record {
                all_updates = sym (append_nil inner.updates);
                all_deletes = sym (append_nil inner.deletes);
              },
            )
      | inr filled ↦
          rw (live, sound, filled, poll_next)
            (refl, refl, record { all_updates = refl; all_deletes = refl })
    ]

-- After an action, with its outcome, the watcher waits on, and what it has adds up.
pub record GoesOn (id : ℕ) (out : WatchHub × List (ℕ × Poll)) (sends : WatchResponse)
    (hub : WatchHub) (inner : WatcherInner) : Type 0 where
  pub next : WatcherInner
  pub waits : IsWaiting id out.0 next
  pub adds_up : AddsUp inner next (received id out.1) sends
  pub few : out.0.next_watcher_id ≤ hub.next_watcher_id + 1

received_one : (id j : ℕ) (p : Poll) → (j == id) ≡ true → received id ((j, p) ∷ []) ≡ response_of p
received_one id j p same =
    ap
      (λ b.
        if b
        then record {
          updates = (response_of p).updates ++ [];
          deletes = (response_of p).deletes ++ [];
        }
        else nothing)
      same
    ∙ ap₂ (λ us ds. record { updates = us; deletes = ds }) (append_nil (response_of p).updates)
        (append_nil (response_of p).deletes)

received_other : (id j : ℕ) (p : Poll) → (j == id) ≡ false → received id ((j, p) ∷ []) ≡ nothing
received_other id j p unlike =
    ap
      (λ b.
        if b
        then record {
          updates = (response_of p).updates ++ [];
          deletes = (response_of p).deletes ++ [];
        }
        else nothing)
      unlike

poll_is :
    (j waker : ℕ) (hub : WatchHub) (x : WatcherInner)
    → HashMap.get j hub.inners ≡ some x
    → poll_watcher j waker hub ≡ (
      record hub { inners = HashMap.insert j (poll_next waker x).0 hub.inners },
      (poll_next waker x).1,
    )
unfolding poll_watcher
poll_is j waker hub x known =
    ap
      (λ o.
        on_option o (hub, ended)
          λ y. (
            record hub { inners = HashMap.insert j (poll_next waker y).0 hub.inners },
            (poll_next waker y).1,
          ))
      known

pub one_less : (n : ℕ) → n ≤ n + 1
one_less n = omega arith

pub own_poll-GoesOn :
    (id j waker : ℕ) (hub : WatchHub) (inner : WatcherInner)
    → IsWaiting id hub inner
    → (j == id) ≡ true
    → GoesOn id (with_poll j (poll_watcher j waker hub)) nothing hub inner
own_poll-GoesOn id j waker hub inner h same =
    let is_id = (==_iff j id).0 same in
    let answer = poll_next-AddsUp waker inner h.live h.sound in
    subst (λ r. GoesOn id (with_poll j r) nothing hub inner)
      (sym (poll_is j waker hub inner (ap (λ i. HashMap.get i hub.inners) is_id ∙ h.kept)))
      (record {
        next = (poll_next waker inner).0;
        waits = record {
          kept =
              ap (λ i. HashMap.get i (HashMap.insert j (poll_next waker inner).0 hub.inners))
                (sym is_id)
              ∙ HashMap.put_in j (poll_next waker inner).0 hub.inners;
          live = answer.0;
          sound = answer.1;
          listed = h.listed;
          counted = h.counted;
        };
        adds_up =
            subst (λ got. AddsUp inner (poll_next waker inner).0 got nothing)
              (sym (received_one id j (poll_next waker inner).1 same)) answer.2;
        few = one_less hub.next_watcher_id;
      })

pub other_poll-GoesOn :
    (id j waker : ℕ) (hub : WatchHub) (inner : WatcherInner)
    → IsWaiting id hub inner
    → (j == id) ≡ false
    → GoesOn id (with_poll j (poll_watcher j waker hub)) nothing hub inner
unfolding poll_watcher
other_poll-GoesOn id j waker hub inner h unlike = elim (Option-cases (HashMap.get j hub.inners)) [
  | inl unknown ↦
      subst (λ r. GoesOn id (with_poll j r) nothing hub inner)
        (sym (
          ap
            (λ o.
              on_option o (hub, ended)
                λ y. (
                  record hub { inners = HashMap.insert j (poll_next waker y).0 hub.inners },
                  (poll_next waker y).1,
                ))
            unknown))
        (record {
          next = inner;
          waits = h;
          adds_up =
              subst (λ got. AddsUp inner inner got nothing) (sym (received_other id j ended unlike))
                (stays inner);
          few = one_less hub.next_watcher_id;
        })
  | inr (x, known) ↦
      subst (λ r. GoesOn id (with_poll j r) nothing hub inner) (sym (poll_is j waker hub x known))
        (record {
          next = inner;
          waits = record {
            kept =
                HashMap.kept id j (poll_next waker x).0 hub.inners (unlike_ids j id unlike)
                ∙ h.kept;
            live = h.live;
            sound = h.sound;
            listed = h.listed;
            counted = h.counted;
          };
          adds_up =
              subst (λ got. AddsUp inner inner got nothing)
                (sym (received_other id j (poll_next waker x).1 unlike)) (stays inner);
          few = one_less hub.next_watcher_id;
        })
]
