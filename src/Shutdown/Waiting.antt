-- ===== src/Shutdown/Waiting.antt =====
-- What server/shutdown/shutdown.go promises: the task never panics, `WaitGroup` counts the clients that
-- have not released, and every one of them is cancelled once the program is to stop.
use mathlib.Core.List.{nil≢cons}
use mathlib.Core.Path.{subst}
use shadowroller.Common.{
  ℕ, suc, ◌+◌, ◌-◌, ◌<◌, ◌≡◌, refl, sym, ◌∙◌, ◌↔◌, Bool, true, false, List, [], ◌∷◌, some,
  if◌then◌else◌, length, arith, ℤ,
}
use shadowroller.Shutdown.{
  Event, client, remove_client, shutdown, State, start, delete, append, done, with_done, handle,
}
use shadowroller.Shutdown.Clients.{
  has, Distinct, has-delete, has-append, delete_absent, delete-Distinct, length-delete,
}

-- An event that the other parts can send: a client has a new id, a client is released once, and the
-- goroutine at the signals sends one shutdown.
abbrev pub CanSend : Event → State → Type 0
CanSend (client id) s = has id s.clients ≡ false
CanSend (remove_client id) s = has id s.clients ≡ true
CanSend (shutdown reason) s = s.terminating ≡ false

-- The states that the loop passes through.
pub data Reachable : State → Type 0 where
  started : Reachable start
  handled :
      {s s' : State} (e : Event) → Reachable s → CanSend e s → handle e s ≡ some s' → Reachable s'

-- One count for each client, and one until the program is to stop.
abbrev pub expected : State → ℕ
expected s = length s.clients + (if s.terminating then 0 else 1)

pub record IsSound (s : State) : Type 0 where
  pub distinct : Distinct s.clients
  pub counted : s.waiting ≡ expected s
  pub closed_lem : s.closed ≡ s.terminating
  pub told : s.terminating ≡ true → (id : ℕ) → has id s.clients ≡ true → has id s.cancelled ≡ true

done_lem : (n : ℕ) → 0 < n → done n ≡ some (n - 1)
unfolding done
done_lem n h = ground arith

start-IsSound : IsSound start
unfolding start
start-IsSound = record {
  distinct = tt;
  counted = ground arith;
  closed_lem = refl;
  told = λ h id m. ground arith;
}

-- The event is handled without a panic, and the invariant holds after it.
abbrev pub IsHandled : Event → State → Type 0
IsHandled e s = (s' : State) × (handle e s ≡ some s') × IsSound s'

client-IsHandled :
    (id : ℕ) (s : State) → has id s.clients ≡ false → IsSound s → IsHandled (client id) s
unfolding handle
client-IsHandled id s h v = (
  record {
    clients = id ∷ delete id s.clients;
    cancelled = if s.terminating then id ∷ s.cancelled else s.cancelled;
    terminating = s.terminating;
    waiting = suc s.waiting;
    cause = s.cause;
    closed = s.closed;
  },
  refl,
  record {
    distinct = (has-delete id id s.clients ∙ ground arith, delete-Distinct id s.clients v.distinct);
    counted = rw (delete_absent id s.clients h) (omega (arith, v.counted));
    closed_lem = v.closed_lem;
    told =
        λ stop other m. rw stop (ground (arith, has-delete id other s.clients, v.told stop other));
  },
)

remove_client-IsHandled :
    (id : ℕ) (s : State) → has id s.clients ≡ true → IsSound s → IsHandled (remove_client id) s
unfolding handle with_done
remove_client-IsHandled id s h v = (
  record {
    clients = delete id s.clients;
    cancelled = s.cancelled;
    terminating = s.terminating;
    waiting = s.waiting - 1;
    cause = s.cause;
    closed = s.closed;
  },
  rw (done_lem s.waiting (ground (arith, v.counted, length-delete id s.clients v.distinct h))),
  record {
    distinct = delete-Distinct id s.clients v.distinct;
    counted = ground (arith, v.counted, length-delete id s.clients v.distinct h);
    closed_lem = v.closed_lem;
    told = λ stop other m. v.told stop other (ground (arith, has-delete id other s.clients));
  },
)

shutdown-IsHandled :
    (reason : ℤ) (s : State) → s.terminating ≡ false → IsSound s → IsHandled (shutdown reason) s
unfolding handle with_done
shutdown-IsHandled reason s h v = (
  record {
    clients = s.clients;
    cancelled = append s.clients s.cancelled;
    terminating = true;
    waiting = s.waiting - 1;
    cause = reason;
    closed = true;
  },
  rw (v.closed_lem ∙ h, done_lem s.waiting (ground (arith, v.counted))),
  record {
    distinct = v.distinct;
    counted = ground (arith, v.counted);
    closed_lem = refl;
    told = λ stop other m. has-append other s.clients s.cancelled ∙ ground arith;
  },
)

handle-IsSound : (e : Event) (s : State) → CanSend e s → IsSound s → IsHandled e s
handle-IsSound (client id) s h v = client-IsHandled id s h v
handle-IsSound (remove_client id) s h v = remove_client-IsHandled id s h v
handle-IsSound (shutdown reason) s h v = shutdown-IsHandled reason s h v

some_injective : {s t : State} → some s ≡ some t → s ≡ t
some_injective h = cc

Reachable-IsSound : {s : State} → Reachable s → IsSound s
Reachable-IsSound started = start-IsSound
Reachable-IsSound (handled {s = s} e r can eq) =
    let (s'', eq', sound) = handle-IsSound e s can (Reachable-IsSound r) in
    subst IsSound (some_injective (sym eq' ∙ eq)) sound

nobody_left :
    (n : ℕ) (cs : List ℕ) (b : Bool)
    → n ≡ length cs + (if b then 0 else 1)
    → (n ≡ 0) ↔ ((b ≡ true) × (cs ≡ []))
nobody_left n [] true h = (λ e. (refl, refl), λ k. h)
nobody_left n [] false h = ground arith
nobody_left n (c ∷ cs) b h = (λ e. absurd (ground arith), λ k. absurd (nil≢cons (sym k.1)))

sound_waiting :
    {s : State} → IsSound s → (s.waiting ≡ 0) ↔ ((s.terminating ≡ true) × (s.clients ≡ []))
sound_waiting {s} v = nobody_left s.waiting s.clients s.terminating v.counted

-- In every state that the loop passes through, whatever the other parts can send is handled without a
-- panic, neither of a negative counter nor of a channel closed twice, and the loop goes on to a state
-- of that kind.
pub Reachable-handle :
    {s : State} (e : Event)
    → Reachable s
    → CanSend e s
    → (s' : State) × (handle e s ≡ some s') × Reachable s'
Reachable-handle {s} e r can =
    let (s', eq, sound) = handle-IsSound e s can (Reachable-IsSound r) in
    (s', eq, handled e r can eq)

-- In every state that the loop passes through, the program may end, since nobody is waited for,
-- exactly when it was told to stop and no client is left; and once it was told to stop, every client
-- that has not released, also one that came later, has been cancelled.
pub Reachable-waiting :
    {s : State}
    → Reachable s
    → ((s.waiting ≡ 0) ↔ ((s.terminating ≡ true) × (s.clients ≡ [])))
      × (s.terminating ≡ true → (id : ℕ) → has id s.clients ≡ true → has id s.cancelled ≡ true)
Reachable-waiting r = (sound_waiting (Reachable-IsSound r), (Reachable-IsSound r).told)
