-- ===== src/Agents/Pending/Sent.antt =====
-- What the agent is sent.
use netbox_conductor.Base.{
  zero, suc, ℕ, ◌-◌, false, ◌&&◌, not, ◌≡◌, refl, ◌∙◌, ap, sym, Option, none, some, List, [], ◌∷◌,
  ◌++◌, length, if◌then◌else◌, ltb, arith, Bool-cases, inl, inr,
}
use netbox_conductor.Protocol.{TaskType, Envelope, safe_to_retry_on_reconnect}
use netbox_conductor.Hub.{Hub, send, send_capacity}
use netbox_conductor.Failover.State.{RequestPayload}
use netbox_conductor.TaskResults.{TaskResult, sent, is_status, list_pending_by_node}
use netbox_conductor.Agents.Pending.{
  Answers, Delivery, envelope, resend, resend_as, resend_all, dispatch_pending, deliver, advance,
  orphan,
}

-- The message that a pending row gives: none if the row lacks its type or its parameters, or if the
-- task may have run and must not run twice.
abbrev pub message_as : TaskResult → Option RequestPayload → Option TaskType → List Envelope
message_as t none type = []
message_as t (some payload) none = []
message_as t (some payload) (some type) =
    if is_status sent t.status && not (safe_to_retry_on_reconnect type)
    then []
    else envelope t.task_id type payload ∷ []

abbrev pub messages : List TaskResult → List Envelope
messages [] = []
messages (t ∷ ts) = message_as t t.request_payload t.task_type ++ messages ts

-- The first elements, at most `n`.
abbrev pub take {ℓ} : {A : Type ℓ} → ℕ → List A → List A
take n [] = []
take zero (x ∷ xs) = []
take (suc n) (x ∷ xs) = x ∷ take n xs

-- The buffer with as many of the messages behind it as it has room for.
abbrev pub filled : List Envelope → List Envelope → List Envelope
filled buffer new = buffer ++ take (send_capacity - length buffer) new

abbrev push : List Envelope → Envelope → List Envelope
push b x = if ltb (length b) send_capacity then b ++ x ∷ [] else b

length-push : (b : List Envelope) (x : Envelope) → length (b ++ x ∷ []) ≡ suc (length b)
length-push [] x = refl
length-push (y ∷ b) x = ap suc (length-push b x)

pub append-nil : (b : List Envelope) → b ++ [] ≡ b
append-nil [] = refl
append-nil (x ∷ b) = ap (λ c. x ∷ c) (append-nil b)

append-push :
    (b : List Envelope) (x : Envelope) (c : List Envelope) → (b ++ x ∷ []) ++ c ≡ b ++ x ∷ c
append-push [] x c = refl
append-push (y ∷ b) x c = ap (λ d. y ∷ d) (append-push b x c)

pub take-zero : (n : ℕ) (xs : List Envelope) → n ≡ 0 → take n xs ≡ []
take-zero zero [] e = refl
take-zero zero (x ∷ xs) e = refl
take-zero (suc n) xs e = absurd (omega arith)

take-suc :
    (n m : ℕ) (x : Envelope) (xs : List Envelope) → n ≡ suc m → take n (x ∷ xs) ≡ x ∷ take m xs
take-suc n m x xs e = rw e refl

filled-push :
    (b : List Envelope) (x : Envelope) (xs : List Envelope)
    → filled (push b x) xs ≡ filled b (x ∷ xs)
filled-push b x xs = elim (Bool-cases (ltb (length b) send_capacity)) [
  | inl e ↦
      let l = length-push b x in
      rw e (
        append-push b x (take (send_capacity - length (b ++ x ∷ [])) xs)
        ∙ ap (λ c. b ++ c)
            (sym (
              take-suc (send_capacity - length b) (send_capacity - length (b ++ x ∷ [])) x xs
                (ground arith))))
  | inr e ↦ rw e (
      ap (λ c. b ++ c)
        (take-zero (send_capacity - length b) xs (ground arith)
          ∙ sym (take-zero (send_capacity - length b) (x ∷ xs) (ground arith))))
]

abbrev pub buffer : ℕ → Hub → List Envelope
buffer r h = (h.heap r).send

send_lem :
    (r : ℕ) (env : Envelope) (h : Hub)
    → (h.heap r).closed ≡ false
    → (buffer r (send r env h).1 ≡ push (buffer r h) env)
      × (((send r env h).1.heap r).closed ≡ false)
unfolding send
send_lem r env h o = ground arith

pub orphan-hub :
    (a : Answers) (now : ℕ) (t : TaskResult) (d : Delivery) → (orphan a now t d).hub ≡ d.hub
unfolding orphan
orphan-hub a now t d = ground arith

pub advance-hub : (a : Answers) (t : TaskResult) (d : Delivery) → (advance a t d).hub ≡ d.hub
unfolding advance
advance-hub a t d = ground arith

-- One row leaves the buffer filled with its message.
resend_as_lem :
    (a : Answers) (now r : ℕ) (t : TaskResult) (p : Option RequestPayload) (type : Option TaskType)
    (d : Delivery) (new : List Envelope)
    → (d.hub.heap r).closed ≡ false
    → (filled (buffer r (resend_as a now r t p type d).hub) new
        ≡ filled (buffer r d.hub) (message_as t p type ++ new))
      × (((resend_as a now r t p type d).hub.heap r).closed ≡ false)
unfolding resend_as
resend_as_lem a now r t none type d new o = (refl, o)
resend_as_lem a now r t (some p) none d new o = (refl, o)
resend_as_lem a now r t (some p) (some type) d new o =
    elim (Bool-cases (is_status sent t.status && not (safe_to_retry_on_reconnect type))) [
      | inl e ↦ rw (e, orphan-hub a now t d) (refl, o)
      | inr e ↦
          let env = envelope t.task_id type p in
          let s = send_lem r env d.hub o in
          rw (e, advance-hub a t (deliver r env d))
            (ap (λ b. filled b new) s.0 ∙ filled-push (buffer r d.hub) env new, s.1)
    ]

append_assoc : (b c d : List Envelope) → (b ++ c) ++ d ≡ b ++ (c ++ d)
append_assoc [] c d = refl
append_assoc (x ∷ b) c d = ap (λ e. x ∷ e) (append_assoc b c d)

resend_all-filled :
    (a : Answers) (now r : ℕ) (ts : List TaskResult) (d : Delivery)
    → (d.hub.heap r).closed ≡ false
    → buffer r (resend_all a now r ts d).hub ≡ filled (buffer r d.hub) (messages ts)
unfolding resend_all resend
resend_all-filled a now r [] d o = sym (append-nil (buffer r d.hub))
resend_all-filled a now r (t ∷ ts) d o =
    let s = resend_as_lem a now r t t.request_payload t.task_type d (messages ts) o in
    resend_all-filled a now r ts (resend a now r t d) s.1 ∙ s.0

-- The agent's channel holds, behind what it held, the messages of the node's pending rows in the order
-- in which they were queued, as many of them as there is room for: none for a row that is "sent" and
-- whose task may not run twice, nor for one without type or parameters. Where the rows cannot be
-- listed, nothing is sent.
pub dispatch_pending-messages :
    (a : Answers) (now r node : ℕ) (d : Delivery)
    → (d.hub.heap r).closed ≡ false
    → buffer r (dispatch_pending a now r node d).hub
      ≡ filled
          (buffer r d.hub)
          (if a.list_ok then messages (list_pending_by_node node d.tasks) else [])
unfolding dispatch_pending
dispatch_pending-messages a now r node d o = elim (Bool-cases a.list_ok) [
  | inl e ↦ rw e (resend_all-filled a now r (list_pending_by_node node d.tasks) d o)
  | inr e ↦ rw e (sym (append-nil (buffer r d.hub)))
]
