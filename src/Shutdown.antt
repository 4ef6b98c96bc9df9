-- ===== src/Shutdown.antt =====
-- server/shutdown/shutdown.go: the task that tells the running parts to stop and waits for them.
-- Events come through a channel without a buffer, so the task handles one at a time.
pub mod Clients
pub mod Waiting
mod Tests
use shadowroller.Common.{
  ℕ, suc, ◌+◌, ◌-◌, Bool, true, false, List, [], ◌∷◌, Option, none, some, ◌==◌, if◌then◌else◌, ℤ,
  pos,
}

pub data Event : Type 0 where
  client : ℕ → Event
  remove_client : ℕ → Event
  shutdown : ℤ → Event

abbrev pub still_running : ℤ
still_running = pos 0

abbrev pub interrupt : ℤ
interrupt = pos 1

-- The locals of `handleShutdownTask` and the package's variables: the ids of `clients`, the ids
-- whose `cancel` was called, the count of `WaitGroup`, `Cause`, and whether `Channel` is closed.
pub record State : Type 0 where
  pub clients : List ℕ
  pub cancelled : List ℕ
  pub terminating : Bool
  pub waiting : ℕ
  pub cause : ℤ
  pub closed : Bool

-- The state before the loop, after `WaitGroup.Add(1)`.
unfoldable pub start : State
start = record {
  clients = [];
  cancelled = [];
  terminating = false;
  waiting = 1;
  cause = still_running;
  closed = false;
}

-- `delete(clients, id)`, and the key of `clients[id] = client`.
unfoldable pub delete : ℕ → List ℕ → List ℕ
delete id [] = []
delete id (c ∷ cs) = if c == id then delete id cs else c ∷ delete id cs

abbrev insert : ℕ → List ℕ → List ℕ
insert id cs = id ∷ delete id cs

abbrev pub append : List ℕ → List ℕ → List ℕ
append [] ys = ys
append (x ∷ xs) ys = x ∷ append xs ys

-- `WaitGroup.Done()`; `none` is the panic of a negative counter.
done : ℕ → Option ℕ
done n = if n == 0 then none else some (n - 1)

with_done : State → Option ℕ → Option State
with_done s none = none
with_done s (some waiting) = some (record s { waiting = waiting })

-- One turn of the loop; `none` is a panic: of `WaitGroup.Done`, or of closing `Channel` again.
unfoldable pub handle : Event → State → Option State
unfolding delete done with_done
handle (client id) s = some (record s {
  clients = insert id s.clients;
  cancelled = if s.terminating then id ∷ s.cancelled else s.cancelled;
  waiting = suc s.waiting;
})
handle (remove_client id) s =
    with_done (record s { clients = delete id s.clients }) (done s.waiting)
handle (shutdown reason) s =
    if s.closed
    then none
    else with_done
        (record s {
          terminating = true;
          cause = reason;
          closed = true;
          cancelled = append s.clients s.cancelled;
        })
        (done s.waiting)
