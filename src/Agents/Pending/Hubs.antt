-- ===== src/Agents/Pending/Hubs.antt =====
-- What the loop leaves of the hub.
use netbox_conductor.Base.{
  ℕ, Bool, true, false, ◌&&◌, not, ◌≡◌, refl, ◌∙◌, Option, none, some, List, [], ◌∷◌, if◌then◌else◌,
  arith,
}
use netbox_conductor.Protocol.{TaskType, Envelope, safe_to_retry_on_reconnect}
use netbox_conductor.Hub.{Hub, send}
use netbox_conductor.Failover.State.{RequestPayload}
use netbox_conductor.TaskResults.{TaskResult, is_status, sent, list_pending_by_node}
use netbox_conductor.Agents.Pending.{
  Answers, Delivery, envelope, resend, resend_as, resend_all, dispatch_pending, deliver, advance,
  orphan,
}
use netbox_conductor.Agents.Pending.Sent.{orphan-hub, advance-hub}

sessions-send : (r : ℕ) (env : Envelope) (h : Hub) → (send r env h).1.sessions ≡ h.sessions
unfolding send
sessions-send r env h = ground arith

sessions-resend_as :
    (a : Answers) (now r : ℕ) (t : TaskResult) (p : Option RequestPayload) (type : Option TaskType)
    (d : Delivery)
    → (resend_as a now r t p type d).hub.sessions ≡ d.hub.sessions
unfolding resend_as
sessions-resend_as a now r t none type d = refl
sessions-resend_as a now r t (some p) none d = refl
sessions-resend_as a now r t (some p) (some type) d =
    step (is_status sent t.status && not (safe_to_retry_on_reconnect type))
  where
    step :
        (b : Bool)
        → (if b
            then orphan a now t d
            else advance a t (deliver r (envelope t.task_id type p) d)).hub.sessions
          ≡ d.hub.sessions
    step true = rw (orphan-hub a now t d) refl
    step false =
        rw (advance-hub a t (deliver r (envelope t.task_id type p) d))
          (sessions-send r (envelope t.task_id type p) d.hub)

sessions-resend_all :
    (a : Answers) (now r : ℕ) (ts : List TaskResult) (d : Delivery)
    → (resend_all a now r ts d).hub.sessions ≡ d.hub.sessions
unfolding resend_all resend
sessions-resend_all a now r [] d = refl
sessions-resend_all a now r (t ∷ ts) d =
    sessions-resend_all a now r ts (resend a now r t d)
    ∙ sessions-resend_as a now r t t.request_payload t.task_type d

-- Sending pending tasks registers and unregisters nothing.
pub sessions-dispatch_pending :
    (a : Answers) (now r node : ℕ) (d : Delivery)
    → (dispatch_pending a now r node d).hub.sessions ≡ d.hub.sessions
unfolding dispatch_pending
sessions-dispatch_pending a now r node d =
    let s = sessions-resend_all a now r (list_pending_by_node node d.tasks) d in ground arith
