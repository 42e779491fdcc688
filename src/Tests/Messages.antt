-- ===== src/Tests/Messages.antt =====
-- The theorems on message queues at concrete inputs.
use n64modern_runtime.Base.{
  ℕ, ◌+◌, ◌≡◌, refl, Bool, true, false, List, [], ◌∷◌, ◌++◌, arith, ◌==◌, if◌then◌else◌,
}
use mathlib.Core.List.{Perm}
use n64modern_runtime.Base.Int.{pos}
use n64modern_runtime.MesgQueue.Wake.{Waiting, do_send_wakes}
use n64modern_runtime.ThreadQueue.Chain.{Holds}
use n64modern_runtime.ThreadQueue.Place.{place, priorities}
use n64modern_runtime.MesgQueue.Log.{Event, QState, MesgLog}
use n64modern_runtime.EventRing.{Ring}
use n64modern_runtime.ThreadQueue.{running_queue}
use n64modern_runtime.MesgQueue.{QueuedMessage, System, do_send, do_recv, done}
use n64modern_runtime.MesgQueue.Buffer.{Shape, messages_from}
use n64modern_runtime.MesgQueue.Recv.{Represents, do_recv_takes, do_send_puts}
use n64modern_runtime.MesgQueue.External.{drain}
use n64modern_runtime.MesgQueue.External.Drain.{reliable, Counted, Drained, drain_accounts}
use n64modern_runtime.Tests.Threads.{thread_a, thread_b, two_in, mail, mail-Holds, senders-Holds}

abbrev no_event : Event
no_event = record {
  seq = 0;
  ms = 0;
  mq = 0;
  msg = 0;
  thread = 0;
  thread_id = 0;
  valid_before = 0;
  valid_after = 0;
  op = 0;
  block = false;
  game_thread = false;
}

abbrev no_state : QState
no_state = record { queue = 0; count = 0; last = λ i. no_event }

abbrev no_mesg_log : MesgLog
no_mesg_log = record {
  ring = record { next_seq = 0; slot = λ i. no_event };
  qstates = λ i. no_state;
}

abbrev host_message : ℕ → Bool → QueuedMessage
host_message m coalescible = record { mq = mail; mesg = m; jam = false; coalescible = coalescible }

-- A queue of two slots at 0x80002000 that holds the message 5 in its second slot, and two messages
-- from the host.
abbrev one_mail : System
one_mail = record {
  kernel = two_in running_queue;
  mq = λ a. record { valid_count = pos 1; first = pos 1; msg_count = pos 2; msg = 0x8000_2000 };
  word = λ a. if a == 0x8000_2004 then 5 else 0;
  external = host_message 6 false ∷ host_message 7 true ∷ [];
  pending = 2;
  requeues = 0;
  log = no_mesg_log;
}

one_mail-Shape : Shape (one_mail.mq mail) 1 1 2
one_mail-Shape = record {
  first_is = refl;
  count_is = refl;
  size_is = refl;
  first_in = omega arith;
  count_in = omega arith;
  size_in = omega arith;
}

one_mail-Represents : Represents one_mail mail 2 (5 ∷ [])
unfolding messages_from
one_mail-Represents = record {
  first = 1;
  shape = one_mail-Shape;
  contents = refl;
  in_ram = record { queue = refl; buffer = refl };
}

do_send_puts_example :
    (s' : System) × (do_send one_mail mail 9 true false ≡ done true s')
    × Represents s' mail 2 (9 ∷ 5 ∷ [])
do_send_puts_example = do_send_puts one_mail mail 2 9 (5 ∷ []) true one_mail-Represents

do_recv_takes_example :
    (s' : System) × (do_recv one_mail mail 0x8000_3000 true ≡ done true s')
    × (s'.word 0x8000_3000 ≡ 5)
    × Represents s' mail 2 []
do_recv_takes_example =
    do_recv_takes one_mail mail 2 0x8000_3000 5 [] true one_mail-Represents (omega arith)
      (λ i h. omega arith)

drain_accounts_example :
    (d : List QueuedMessage) × (s' : System) × (drain one_mail one_mail.external ≡ done true s')
    × Drained one_mail one_mail.external d s'
    × Perm (reliable one_mail.external) (reliable d ++ reliable s'.external)
    × Counted s'
drain_accounts_example = drain_accounts one_mail one_mail.external refl refl

abbrev full_mail : System
full_mail = record one_mail {
  mq = λ a. record { valid_count = pos 2; first = pos 1; msg_count = pos 2; msg = 0x8000_2000 };
}

full_mail-Shape : Shape (full_mail.mq mail) 1 2 2
full_mail-Shape = record {
  first_is = refl;
  count_is = refl;
  size_is = refl;
  first_in = omega arith;
  count_in = omega arith;
  size_in = omega arith;
}

abbrev empty_ring : Ring ℕ
empty_ring = record { next_seq = 0; slot = λ i. 0 }

abbrev waiting_mail : System
waiting_mail = record one_mail { kernel = two_in mail }

mail-Waiting : Waiting (two_in mail) mail thread_a (thread_b ∷ []) []
mail-Waiting = record {
  waiters = mail-Holds;
  runnable = record { chain = refl; distinct = tt };
  other_queue = omega arith;
  out = tt;
  small = omega arith;
  apart = ((omega arith, tt), tt);
}

do_send_wakes_example :
    (s' : System) × (do_send waiting_mail mail 9 false true ≡ done true s')
    × Holds s'.kernel running_queue (place (priorities (two_in mail)) thread_a [])
    × Holds s'.kernel mail (thread_b ∷ [])
do_send_wakes_example =
    do_send_wakes waiting_mail mail 9 1 1 2 thread_a (thread_b ∷ []) [] false true
      (record { queue = refl; buffer = refl }) one_mail-Shape (omega arith) mail-Waiting

abbrev sending_mail : System
sending_mail = record one_mail { kernel = two_in (mail + 4) }

senders-Waiting : Waiting (two_in (mail + 4)) (mail + 4) thread_a (thread_b ∷ []) []
senders-Waiting = record {
  waiters = senders-Holds;
  runnable = record { chain = refl; distinct = tt };
  other_queue = omega arith;
  out = tt;
  small = omega arith;
  apart = ((omega arith, tt), tt);
}
