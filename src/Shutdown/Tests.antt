-- ===== src/Shutdown/Tests.antt =====
-- A run of server/shutdown/shutdown.go: two clients, one of them released before the interrupt, and the
-- other after it.
use shadowroller.Common.{ℕ, ◌≡◌, refl, ◌↔◌, true, false, [], ◌∷◌, some}
use shadowroller.Shutdown.{
  client, remove_client, shutdown, State, still_running, interrupt, start, delete, handle,
}
use shadowroller.Shutdown.Clients.{has}
use shadowroller.Shutdown.Waiting.{Reachable, started, handled, Reachable-handle, Reachable-waiting}

abbrev one_client : State
one_client = record {
  clients = 1 ∷ [];
  cancelled = [];
  terminating = false;
  waiting = 2;
  cause = still_running;
  closed = false;
}

abbrev stopping : State
stopping = record {
  clients = 1 ∷ [];
  cancelled = 1 ∷ [];
  terminating = true;
  waiting = 1;
  cause = interrupt;
  closed = true;
}

one_client-Reachable : Reachable one_client
unfolding start handle delete
one_client-Reachable = handled (client 1) started refl refl

stopping-Reachable : Reachable stopping
unfolding handle
stopping-Reachable = handled (shutdown interrupt) one_client-Reachable refl refl

Reachable-handle_example :
    (s' : State) × (handle (remove_client 1) stopping ≡ some s') × Reachable s'
Reachable-handle_example = Reachable-handle (remove_client 1) stopping-Reachable refl

Reachable-waiting_example :
    ((stopping.waiting ≡ 0) ↔ ((stopping.terminating ≡ true) × (stopping.clients ≡ [])))
    × (stopping.terminating ≡ true
        → (id : ℕ) → has id stopping.clients ≡ true
        → has id stopping.cancelled ≡ true)
Reachable-waiting_example = Reachable-waiting stopping-Reachable
