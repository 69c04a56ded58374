-- ===== src/Root/Watch.antt =====
-- src/server/src/root/watch.rs: the watchers, to which the root server sends its events. What a
-- watcher and the hub share is kept once, under the watcher's id; a waker is a number. A counter of
-- watchers that passes u64 wraps.
pub mod Delivery
pub mod Received
pub mod Run
use engula.HashMap
use engula.HashMap.{Map, nat_key}
use engula.Error.{Error}
use engula.Meta.{DeleteEvent, UpdateEvent}
use engula.Prelude.{
  Bool, List, Option, [], any, false, if◌then◌else◌, is_nil, none, not, on_option, or_else, retain,
  some, true, u64_mod, ℕ, ◌%◌, ◌&&◌, ◌++◌, ◌+◌, ◌==◌, ◌∷◌,
}

pub record WatchResponse : Type 0 where
  pub updates : List UpdateEvent
  pub deletes : List DeleteEvent

pub record WatcherInner : Type 0 where
  pub waker : Option ℕ
  pub updates : List UpdateEvent
  pub deletes : List DeleteEvent
  pub err : Option Error
  pub dropped : Bool

-- `WatcherInner::default`
abbrev new_inner : WatcherInner
new_inner = record { waker = none; updates = []; deletes = []; err = none; dropped = false }

pub record WatchHub : Type 0 where
  pub next_watcher_id : ℕ
  pub watchers : List ℕ
  pub inners : Map ℕ WatcherInner

-- `Poll` of a response, an error or the end.
pub data Poll : Type 0 where
  pending ended : Poll
  failed : Error → Poll
  ready : WatchResponse → Poll

-- The id of a new watcher stands behind the counter, and what it is to answer first is set while the
-- hub is still locked (`create_watcher` and `set_init_resp`).
unfoldable pub create_watcher : List UpdateEvent → List DeleteEvent → WatchHub → WatchHub
create_watcher updates deletes hub =
    let id = (hub.next_watcher_id + 1) % u64_mod in
    record {
      next_watcher_id = id;
      watchers = id ∷ retain (λ w. not (w == id)) hub.watchers;
      inners =
          HashMap.insert id (record new_inner { updates = updates; deletes = deletes }) hub.inners;
    }

-- `Watcher::notify`; the waker that it wakes is gone from the watcher.
unfoldable pub notify_watcher :
    List UpdateEvent → List DeleteEvent → Option Error → WatcherInner → WatcherInner
notify_watcher updates deletes error inner = if inner.dropped then inner else record {
  waker = none;
  updates = inner.updates ++ updates;
  deletes = inner.deletes ++ deletes;
  err = or_else inner.err error;
  dropped = false;
}

-- `WatchHub::notify`: every watcher of the hub, and no error, whatever the caller gives.
unfoldable pub notify_inners :
    List ℕ → List UpdateEvent → List DeleteEvent → Map ℕ WatcherInner → Map ℕ WatcherInner
unfolding notify_watcher
notify_inners watchers updates deletes [] = []
notify_inners watchers updates deletes ((id, inner) ∷ rest) =
    let others = notify_inners watchers updates deletes rest in
    (id, if any (λ w. w == id) watchers then notify_watcher updates deletes none inner else inner)
    ∷ others

unfoldable pub notify : List UpdateEvent → List DeleteEvent → WatchHub → WatchHub
unfolding notify_inners
notify updates deletes hub = record hub {
  inners = notify_inners hub.watchers updates deletes hub.inners;
}

-- `Drop for Watcher`
abbrev pub drop_inner : WatcherInner → WatcherInner
drop_inner inner = record inner { dropped = true }

unfoldable pub drop_watcher : ℕ → WatchHub → WatchHub
drop_watcher id hub =
    on_option (HashMap.get id hub.inners) hub
      λ inner. record hub { inners = HashMap.insert id (drop_inner inner) hub.inners }

-- The watcher that the hub has is dropped with its entry.
unfoldable pub remove_watcher : ℕ → WatchHub → WatchHub
unfolding drop_watcher
remove_watcher id hub =
    if any (λ w. w == id) hub.watchers
    then drop_watcher id (record hub { watchers = retain (λ w. not (w == id)) hub.watchers })
    else hub

unfoldable pub is_dropped : Map ℕ WatcherInner → ℕ → Bool
is_dropped inners id = on_option (HashMap.get id inners) false λ inner. inner.dropped

unfoldable pub cleanup : WatchHub → WatchHub
unfolding is_dropped
cleanup hub = record hub { watchers = retain (λ w. not (is_dropped hub.inners w)) hub.watchers }

-- `Stream for Watcher`
unfoldable pub poll_next : ℕ → WatcherInner → WatcherInner × Poll
poll_next waker inner =
    if inner.dropped
    then (inner, ended)
    else on_option inner.err
        (if is_nil inner.updates && is_nil inner.deletes
          then (record inner { waker = some waker }, pending)
          else (
            record inner { updates = []; deletes = [] },
            ready (record { updates = inner.updates; deletes = inner.deletes }),
          ))
        λ e. (record inner { err = none }, failed e)

unfoldable pub poll_watcher : ℕ → ℕ → WatchHub → WatchHub × Poll
unfolding poll_next
poll_watcher id waker hub =
    on_option (HashMap.get id hub.inners) (hub, ended)
      λ inner.
        let polled = poll_next waker inner in
        (record hub { inners = HashMap.insert id polled.0 hub.inners }, polled.1)
