-- ===== src/Wsio/Runs.antt =====
-- The runs of a WebSocket IO of src/wsio.c: any calls of its user and of the client below it.
use azure_c_shared_utility.Base.{ℕ, ◌+◌, ◌≡◌, refl, some, List, [], ◌++◌, Exec, arith}
use azure_c_shared_utility.Wsio.{Event, Wsio, Outcome, Call, step}
use azure_c_shared_utility.Wsio.{created}
use azure_c_shared_utility.Wsio.Count.{due, completed, completed-append}
use azure_c_shared_utility.Wsio.Invariant.{After, Balanced}
use azure_c_shared_utility.Wsio.Steps.{Timely, step-Balanced, step-Fresh}
use azure_c_shared_utility.Wsio.Sends.{accepted_send, accepted_open, Fresh}

-- An instance with what happened to it: the calls of callbacks, the sends that were accepted by the
-- context of their callback, and the opens that were accepted.
pub record History : Type 0 where
  pub wsio : Wsio
  pub events : List Event
  pub sent : ℕ → ℕ
  pub opens_accepted : ℕ

abbrev pub at_start : History
at_start = record { wsio = created; events = []; sent = λ c. 0; opens_accepted = 0 }

abbrev pub extended : History → Call → Outcome → History
extended h call o = record {
  wsio = o.wsio;
  events = h.events ++ o.events;
  sent = λ c. h.sent c + accepted_send c call o.status;
  opens_accepted = h.opens_accepted + accepted_open call o.status;
}

-- The histories that calls lead to. The client reports the end of a close when no open is under
-- way, and no call uses an item that is freed or a callback that is NULL.
pub data Reach : History → Type 0 where
  start : Reach at_start
  next :
      {h : History} {o : Outcome} (call : Call)
      → Reach h
      → Timely h.wsio call
      → step h.wsio call ≡ some o
      → Reach (extended h call o)

at_outcome :
    (P : Outcome → Type 0) {reply : Exec Outcome} (o : Outcome)
    → reply ≡ some o
    → After P reply
    → P o
at_outcome P o e h = coe 0 1 (i. After P (e i)) h

Reach-Fresh : {h : History} → Reach h → Fresh h.wsio
Reach-Fresh start = _
Reach-Fresh (next {h} {o} call r timely e) =
    at_outcome (λ o. Fresh o.wsio) o e (step-Fresh h.wsio call (Reach-Fresh r))

-- In every history of calls of the user and of the client, those that the client makes within
-- wsio_send and wsio_close included, whatever these return, each send that was accepted was completed
-- exactly once or still waits: for each context, on_send_complete was called with it as often as sends
-- with it were accepted, less those that wait. A history ends before a call that uses an item that is
-- freed or a callback that is NULL, and in it the client reports the end of a close only when no
-- open is under way.
pub Reach-sends :
    {h : History} → Reach h → (c : ℕ) → h.sent c ≡ completed c h.events + due c h.wsio.pending
Reach-sends start c = refl
Reach-sends (next {h} {o} call r timely e) c =
    let balance =
      at_outcome
        (λ o. Balanced h.wsio (λ c. accepted_send c call o.status) (accepted_open call o.status) o)
        o e (step-Balanced h.wsio call timely (Reach-Fresh r)) in
    omega (arith, Reach-sends r c, balance.0 c, completed-append c h.events o.events)
