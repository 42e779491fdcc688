-- ===== src/MesgQueue/External/Wait.antt =====
-- The wait of the idle game thread for a host message.
use n64modern_runtime.Base.{ℕ, ◌≡◌, ap, ◌∙◌, false, List, [], ◌∷◌}
use n64modern_runtime.MesgQueue.{QueuedMessage, System, Result, do_send, done}
use n64modern_runtime.MesgQueue.Buffer.{Shape}
use n64modern_runtime.MesgQueue.Send.{InRam, do_send-full}
use n64modern_runtime.MesgQueue.External.{dequeued, wait_for_external_message}

-- `wait_for_external_message` takes a message, reliable or not, whose queue is full, out of the
-- external queue, and the send fails: the message is then neither in the external queue nor in
-- its queue, whose members and messages are as before, and no thread is woken.
pub wait_for_external_message_loses :
    (s : System) (m : QueuedMessage) (rest : List QueuedMessage) (f c : ℕ)
    → s.external ≡ m ∷ rest
    → InRam s m.mq
    → Shape (s.mq m.mq) f c c
    → (s' : System) × (wait_for_external_message s ≡ done false s')
      × (s'.external ≡ rest)
      × (s'.mq ≡ s.mq)
      × (s'.word ≡ s.word)
      × (s'.kernel ≡ s.kernel)
unfolding wait_for_external_message
wait_for_external_message_loses s m rest f c e i v =
    let d =
      do_send-full (dequeued s rest) m.mq m.mesg f c m.jam
        (record { queue = i.queue; buffer = i.buffer }) v in
    (d.0, waits ∙ d.1, d.5, d.2, d.3, d.4)
  where
    waits : wait_for_external_message s ≡ do_send (dequeued s rest) m.mq m.mesg m.jam false
    waits =
        ap
          (λ (l : List QueuedMessage). elim l as (λ x. Result) [
            | [] ↦ done false s
            | n ∷ ns ↦ do_send (dequeued s ns) n.mq n.mesg n.jam false
          ])
          e
