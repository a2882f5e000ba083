-- ===== src/Channels/Subscriber.antt =====
-- channels/subscriber.py: a subscriber and its queue, which is `asyncio.Queue` or the subclass
-- `AsyncDeque` over a deque of bounded length. An event is its bytes, and `none` ends the stream.
use starlite.Prelude.{
  ℕ, zero, suc, ◌+◌, ◌-◌, Bool, true, false, not, ◌&&◌, Option, none, some, List, [], ◌∷◌, ◌++◌,
  Result, ok, raise, runtime_error, length, leb, nat_eq, drop, if◌then◌else◌,
}
use starlite.Prelude.Text.{Text}

abbrev pub Event : Type 0
Event = Text

pub data BacklogStrategy : Type 0 where
  backoff dropleft : BacklogStrategy

-- `maxsize` is the bound of the queue, where 0 is none; `maxlen` is that of the deque;
-- `unfinished` counts the puts without a `task_done`, and `join` waits until it is 0.
pub record Subscriber : Type 0 where
  pub items : List (Option Event)
  pub maxsize : ℕ
  pub maxlen : Option ℕ
  pub unfinished : ℕ
  pub is_running : Bool

abbrev pub or_zero : Option ℕ → ℕ
or_zero none = 0
or_zero (some n) = n

abbrev pub nonzero : ℕ → Option ℕ
nonzero zero = none
nonzero (suc n) = some (suc n)

-- `Subscriber.__init__`
unfoldable pub new_subscriber : Option ℕ → BacklogStrategy → Subscriber
new_subscriber max_backlog strategy = record {
  items = [];
  maxsize = elim strategy [ backoff ↦ or_zero max_backlog | dropleft ↦ 0 ];
  maxlen = elim strategy [ backoff ↦ none | dropleft ↦ nonzero (or_zero max_backlog) ];
  unfinished = 0;
  is_running = false;
}

-- `append` of a deque: one that is full drops its oldest item
abbrev pub append_item : Option ℕ → List (Option Event) → Option Event → List (Option Event)
append_item none items item = items ++ item ∷ []
append_item (some maxlen) items item =
    let longer = items ++ item ∷ [] in drop (length longer - maxlen) longer

abbrev pub is_full : Subscriber → Bool
is_full s = not (nat_eq s.maxsize 0) && leb s.maxsize (length s.items)

abbrev pub enqueued : Option Event → Subscriber → Subscriber
enqueued item s = record s {
  items = append_item s.maxlen s.items item;
  unfinished = s.unfinished + 1;
}

unfoldable pub put_nowait : Option Event → Subscriber → Bool × Subscriber
put_nowait item s = if is_full s then (false, s) else (true, enqueued item s)

-- `await put(item)`, where `none` means that it waits for a place in the queue
unfoldable pub put : Option Event → Subscriber → Option Subscriber
put item s = if is_full s then none else some (enqueued item s)

-- `get` of one item, and `task_done` after it was handled
abbrev pub task_done : List (Option Event) → Subscriber → Subscriber
task_done rest s = record s { items = rest; unfinished = s.unfinished - 1 }

-- The loop of `iter_events` and `_worker` on the items of the queue: the events handled, until
-- the end of the stream or until the queue is empty.
unfoldable pub worker : List (Option Event) → Subscriber → List Event × Subscriber
worker [] s = ([], s)
worker (none ∷ rest) s = ([], task_done rest s)
worker (some event ∷ rest) s =
    let (events, s') = worker rest (task_done rest s) in (event ∷ events, s')

unfoldable pub start_in_background : Subscriber → Result Subscriber
start_in_background s =
    if s.is_running then raise runtime_error else ok (record s { is_running = true })

-- `stop`; with `join` it first waits until the worker, which runs on, has handled every item
unfoldable pub stop : Bool → Subscriber → Option (List Event × Subscriber)
unfolding worker
stop join s =
    let (events, s') = worker s.items s in
    if s.is_running
    then (if join
        then (if nat_eq s'.unfinished 0
            then some (events, record s' { is_running = false })
            else none)
        else some ([], record s { is_running = false }))
    else some ([], s)
