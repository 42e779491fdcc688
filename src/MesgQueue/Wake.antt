-- ===== src/MesgQueue/Wake.antt =====
-- The threads that wait for a message: which one a send makes runnable.
use n64modern_runtime.Base.{
  ℕ, suc, ◌+◌, ◌≤◌, ◌<◌, ◌≡◌, refl, sym, ◌∙◌, ◌≢◌, Bool, true, List, ◌∷◌, ==_apart, length, All,
}
use mathlib.Core.Path.{fun_ext, subst}
use n64modern_runtime.ThreadQueue.{
  Kernel, running_queue, guard_limit, trace, thread_queue_insert, thread_queue_pop,
  thread_queue_empty, queued,
}
use n64modern_runtime.ThreadQueue.Chain.{IsThread, NotIn, Holds, IsThread-ne-zero, Chain-touch}
use n64modern_runtime.ThreadQueue.Place.{place, priorities}
use n64modern_runtime.ThreadQueue.Insert.{thread_queue_insert-Holds, thread_queue_insert_others}
use n64modern_runtime.ThreadQueue.Pop.{thread_queue_pop-Holds}
use n64modern_runtime.Scheduling.{mark, schedule_running_thread}
use n64modern_runtime.Scheduling.Agree.{mark-Agrees, set_state-Agrees, Agrees-Holds, pop-KeepsRank}
use n64modern_runtime.MesgQueue.Send.{InRam, do_send_room}
use n64modern_runtime.MesgQueue.Recv.{do_recv_full}
use n64modern_runtime.MesgQueue.Buffer.{Shape}
use n64modern_runtime.MesgQueue.{
  System, wake_waiter, put, deliver, do_send, take_front, do_recv, done,
}

-- Popping a queue leaves every other queue.
pop_others :
    (k : Kernel) (q q' t : ℕ) (ts us : List ℕ)
    → Holds k q (t ∷ ts)
    → q' ≢ q
    → Holds k q' us
    → Holds (thread_queue_pop k q).1 q' us
unfolding thread_queue_pop trace
pop_others k q q' t ts us h ne g =
    rw (h.chain.0, h.chain.1)
      (record {
        chain = rw (==_apart q q' (λ e. ne (sym e))) (
            Chain-touch k.thread (k.head q') us t (record (k.thread t) { queue = 0 }) refl g.chain);
        distinct = g.distinct;
      })

-- What it takes for `t` to move from a wait list into the running queue.
schedule_moves :
    (k : Kernel) (q t : ℕ) (ts rs : List ℕ)
    → Holds k running_queue rs
    → Holds k q ts
    → q ≢ running_queue
    → IsThread t
    → NotIn t rs
    → length rs ≤ guard_limit
    → All (λ u. NotIn u (t ∷ rs)) ts
    → Holds (schedule_running_thread k t) running_queue (place (priorities k) t rs)
      × Holds (schedule_running_thread k t) q ts
unfolding schedule_running_thread mark trace
schedule_moves k q t ts rs hr hq ne vt out small apart =
    let m = mark-Agrees k 100 running_queue t in
    let km = mark k 100 running_queue t in
    let s = set_state-Agrees (thread_queue_insert km running_queue t) t queued in
    let hr₁ = Agrees-Holds running_queue rs m hr in
    (
      Agrees-Holds running_queue (place (priorities k) t rs) s
          (thread_queue_insert-Holds km running_queue t rs hr₁ small vt out),
      Agrees-Holds q ts s (
          thread_queue_insert_others km running_queue t q rs ts hr₁ small vt out ne apart
            (Agrees-Holds q ts m hq)),
    )

wake_waiter-kernel :
    (s : System) (b : ℕ)
    → s.kernel.head b ≢ 0
    → (wake_waiter s b).kernel
      ≡ schedule_running_thread (thread_queue_pop s.kernel b).1 (thread_queue_pop s.kernel b).0
unfolding wake_waiter thread_queue_empty
wake_waiter-kernel s b nz = rw (==_apart (s.kernel.head b) 0 nz) refl

-- The wait list and the running queue: well formed, without a thread in both.
pub record Waiting (k : Kernel) (q t : ℕ) (ts rs : List ℕ) : Type 0 where
  pub waiters : Holds k q (t ∷ ts)
  pub runnable : Holds k running_queue rs
  pub other_queue : q ≢ running_queue
  pub out : NotIn t rs
  pub small : length rs ≤ guard_limit
  pub apart : All (λ u. NotIn u (t ∷ rs)) ts

wake_moves :
    (s : System) (q t : ℕ) (ts rs : List ℕ)
    → Waiting s.kernel q t ts rs
    → let k' = (wake_waiter s q).kernel in
      Holds k' running_queue (place (priorities s.kernel) t rs) × Holds k' q ts
wake_moves s q t ts rs w =
    let p = thread_queue_pop-Holds s.kernel q t ts w.waiters in
    let nz = λ (e : s.kernel.head q ≡ 0).
      IsThread-ne-zero t w.waiters.chain.1 (sym w.waiters.chain.0 ∙ e) in
    let m =
      schedule_moves (thread_queue_pop s.kernel q).1 q t ts rs
        (pop_others s.kernel q running_queue t ts rs w.waiters (λ e. w.other_queue (sym e))
          w.runnable)
        p.2 w.other_queue w.waiters.chain.1 w.out w.small w.apart in
    let keep = pop-KeepsRank s.kernel q in
    rw (wake_waiter-kernel s q nz, p.0)
      (
        subst
            (λ prio.
              Holds (schedule_running_thread (thread_queue_pop s.kernel q).1 t) running_queue
                (place prio t rs))
            (fun_ext keep.priority) m.0,
        m.1,
      )

-- A send, blocking or not, to a queue with room where the thread `t` and then the threads `ts`
-- wait to receive: it succeeds, `t` moves from the wait list into the running queue by its
-- priority, and `ts` go on waiting.
pub do_send_wakes :
    (s : System) (mq m f n c t : ℕ) (ts rs : List ℕ) (jam block : Bool)
    → InRam s mq
    → Shape (s.mq mq) f n c
    → n < c
    → Waiting s.kernel mq t ts rs
    → (s' : System) × (do_send s mq m jam block ≡ done true s')
      × Holds s'.kernel running_queue (place (priorities s.kernel) t rs)
      × Holds s'.kernel mq ts
unfolding deliver put
do_send_wakes s mq m f n c t ts rs jam block i v room w =
    let p = wake_moves (put s mq m jam) mq t ts rs w in
    (deliver s mq m jam, do_send_room s mq m f n c jam block i v room, p.0, p.1)

-- A receive, blocking or not, from a queue that holds messages, where the thread `t` and then the
-- threads `ts` wait to send: it succeeds, `t` moves from the wait list into the running queue by
-- its priority, and `ts` go on waiting.
pub do_recv_wakes :
    (s : System) (mq p f n c t : ℕ) (ts rs : List ℕ) (block : Bool)
    → Shape (s.mq mq) f (suc n) c
    → Waiting s.kernel (mq + 4) t ts rs
    → (s' : System) × (do_recv s mq p block ≡ done true s')
      × Holds s'.kernel running_queue (place (priorities s.kernel) t rs)
      × Holds s'.kernel (mq + 4) ts
unfolding take_front
do_recv_wakes s mq p f n c t ts rs block v w =
    let q = wake_moves (take_front s mq p) (mq + 4) t ts rs w in
    (wake_waiter (take_front s mq p) (mq + 4), do_recv_full s mq p f n c block v, q.0, q.1)
