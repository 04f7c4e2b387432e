-- ===== src/Agents/Pending/Full.antt =====
-- An agent for which more tasks wait than its channel holds when it connects.
use netbox_conductor.Base.{
  ℕ, zero, suc, ◌+◌, ◌≤◌, ◌-◌, ◌≡◌, refl, ◌∙◌, ap, sym, true, false, List, [], ◌∷◌, ◌++◌, length,
  In, arith,
}
use netbox_conductor.Protocol.{Envelope}
use netbox_conductor.Hub.{send_capacity}
use netbox_conductor.TaskResults.{TaskResult, list_pending_by_node}
use netbox_conductor.Agents.Pending.{Answers, Delivery, dispatch_pending}
use netbox_conductor.Agents.Pending.Sent.{
  buffer, filled, messages, message_as, take, dispatch_pending-messages,
}
use netbox_conductor.Agents.Pending.Rows.{NotQueued, IsWaiting, dispatch_pending-NotQueued}

append_assoc : (xs ys zs : List Envelope) → (xs ++ ys) ++ zs ≡ xs ++ (ys ++ zs)
append_assoc [] ys zs = refl
append_assoc (x ∷ xs) ys zs = ap (λ l. x ∷ l) (append_assoc xs ys zs)

messages-append : (ts us : List TaskResult) → messages (ts ++ us) ≡ messages ts ++ messages us
messages-append [] us = refl
messages-append (t ∷ ts) us =
    let here = message_as t t.request_payload t.task_type in
    ap (λ l. here ++ l) (messages-append ts us)
    ∙ sym (append_assoc here (messages ts) (messages us))

take-append : (n : ℕ) (xs ys : List Envelope) → n ≤ length xs → take n (xs ++ ys) ≡ take n xs
take-append zero [] [] h = refl
take-append zero [] (y ∷ ys) h = refl
take-append (suc n) [] ys h = absurd (omega arith)
take-append zero (x ∷ xs) ys h = refl
take-append (suc n) (x ∷ xs) ys h = ap (λ l. x ∷ l) (take-append n xs ys (omega arith))

-- Of the tasks that wait for a node, listed by their age, one before which the others fill the channel of
-- the new session is not sent: the channel gets as many of the messages for those others as it has
-- room for, and no other. The task is recorded all the same, no longer as one that waits, if it has
-- a type and parameters and the statements succeed.
pub dispatch_pending-full :
    (a : Answers) (now r node : ℕ) (t : TaskResult) (before after : List TaskResult) (d : Delivery)
    → a.list_ok ≡ true
    → a.set_sent_ok ≡ true
    → (d.hub.heap r).closed ≡ false
    → list_pending_by_node node d.tasks ≡ before ++ t ∷ after
    → send_capacity ≤ length (buffer r d.hub) + length (messages before)
    → In t d.tasks
    → t.node_id ≡ node
    → IsWaiting t
    → (buffer r (dispatch_pending a now r node d).hub ≡ filled (buffer r d.hub) (messages before))
      × NotQueued t.task_id (dispatch_pending a now r node d).tasks
dispatch_pending-full a now r node t before after d listed ok open_ order full i n w =
    let rest = send_capacity - length (buffer r d.hub) in
    let cut : take rest (messages (list_pending_by_node node d.tasks))
        ≡ take rest (messages before) =
      ap (λ l. take rest (messages l)) order
      ∙ ap (take rest) (messages-append before (t ∷ after))
      ∙ take-append rest (messages before) (messages (t ∷ after)) (omega arith) in
    (
      dispatch_pending-messages a now r node d open_
          ∙ rw listed (ap (λ l. buffer r d.hub ++ l) cut),
      dispatch_pending-NotQueued a now r node t d listed ok i n w,
    )
