-- ===== src/Wait/Join.antt =====
-- A new member at the end of a wait queue.
use system_studying.Sched.{vruntime, max_long}
use system_studying.Base.Int.{◌≤ℤ◌}
use system_studying.Sched.Queue.{IsQueue}
use system_studying.Links.Ops.{list_init-IsRing, before-head}
use system_studying.Wait.{wait_queue_init, Waits}
use system_studying.Base.{
  ◌≡◌, ◌≢◌, refl, sym, subst, ap, arith, true, false, List, [], ◌∷◌, ◌++◌, All, All-mono,
  All-append, Fresh, Apart, Apart-symm, Distinct, Distinct-append, ◌==◌,
}
use system_studying.Links.{Addr, Links, update, list_init, list_add_before}
use system_studying.Links.Ring.{IsRing}
use system_studying.Links.Other.{Kept, IsRing-Kept, before_head-IsRing-other}
use system_studying.Wait.Queue.{IsQueue-links, IsWaiting, CanWake, tasks}

list_init-other : (s : Links) (l c : Addr) → c ≢ l → Kept s (list_init l s) c
unfolding list_init update
list_init-other s l c ne =
    let other : (c == l) ≡ false = ground arith in (rw other refl, rw other refl)

list_init-IsRing-other :
    (s : Links) (l m : Addr) (zs : List Addr)
    → Fresh l (m ∷ zs)
    → IsRing s m zs
    → IsRing (list_init l s) m zs
list_init-IsRing-other s l m zs f r =
    IsRing-Kept s (list_init l s) m zs
      (All-mono (λ c. l ≢ c) (Kept s (list_init l s)) (m ∷ zs)
        (λ c ne. list_init-other s l c (λ e. ne (sym e))) f)
      r

-- The current task is none of those that wait, and the member `wait` is a new one.
pub record CanSleep (w : Waits) (head wait : Addr) (ws xs : List Addr) : Type 0 where
  pub new : Fresh wait (head ∷ ws)
  pub outside : Fresh wait (w.cpu.head ∷ xs)
  pub no_task : Fresh wait (tasks w.task ws)
  pub not_idle : w.cpu.current ≢ w.cpu.init
  pub not_queued : Fresh w.cpu.current (w.cpu.head ∷ xs)
  pub no_member : Fresh w.cpu.current (wait ∷ head ∷ ws)
  pub not_waiting : Fresh w.cpu.current (tasks w.task ws)

tasks-update :
    (f : Addr → Addr) (wait t : Addr) (ws : List Addr)
    → Fresh wait ws
    → tasks (update f wait t) (ws ++ wait ∷ []) ≡ tasks f ws ++ t ∷ []
unfolding update
tasks-update f wait t [] h = let same : (wait == wait) ≡ true = ground arith in rw same refl
tasks-update f wait t (a ∷ ws) h =
    let other : (a == wait) ≡ false = ground (arith, h.0) in
    rw other (ap (λ l. f a ∷ l) (tasks-update f wait t ws h.1))

-- The state with the member `wait`, for the current task, at the end of the queue of `head`.
abbrev pub added : Waits → Addr → Addr → Waits
added w head wait = record {
  cpu = record w.cpu { links = list_add_before head wait (list_init wait w.cpu.links) };
  task = update w.task wait w.cpu.current;
}

module _ (w : Waits) (head wait : Addr) (ws xs : List Addr) (h : IsWaiting w head ws xs)
    (can : CanSleep w head wait ws xs) where
  -- The store behind `list_init` of `wait`.
  cleared : Links
  cleared = list_init wait w.cpu.links

  cleared-IsRing : IsRing cleared head ws
  unfolding cleared
  cleared-IsRing = list_init-IsRing-other w.cpu.links wait head ws can.new h.ring

  cleared-IsRing-queue : IsRing cleared w.cpu.head xs
  unfolding cleared
  cleared-IsRing-queue =
      list_init-IsRing-other w.cpu.links wait w.cpu.head xs can.outside h.queue.ring

  added-IsRing : IsRing (added w head wait).cpu.links head (ws ++ wait ∷ [])
  unfolding cleared
  added-IsRing = before-head cleared head wait ws can.new cleared-IsRing

  added-IsQueue : IsQueue (added w head wait).cpu xs
  unfolding cleared
  added-IsQueue =
      IsQueue-links w.cpu (list_add_before head wait cleared) xs
        (before_head-IsRing-other cleared head wait w.cpu.head ws xs cleared-IsRing
          (Apart-symm (head ∷ ws) (w.cpu.head ∷ xs) h.apart) can.outside cleared-IsRing-queue)
        h.queue

  added-Apart : Apart (head ∷ ws ++ wait ∷ []) (w.cpu.head ∷ xs)
  added-Apart =
      All-append (λ c. Fresh c (w.cpu.head ∷ xs)) (head ∷ ws) (wait ∷ []) h.apart (can.outside, tt)

  pub CanWake-more :
      (ts : List Addr)
      → All (CanWake w head ws xs) ts
      → Fresh wait ts
      → All (CanWake w head (ws ++ wait ∷ []) xs) ts
  CanWake-more [] a f = tt
  CanWake-more (t ∷ ts) a f =
      let last : Fresh t (wait ∷ []) = ((λ e. f.0 (sym e)), tt) in
      (
        (a.0.0, a.0.1, (a.0.2.0, All-append (λ y. t ≢ y) ws (wait ∷ []) a.0.2.1 last)),
        CanWake-more ts a.1 f.1,
      )

  added-CanWake : All (CanWake w head (ws ++ wait ∷ []) xs) (tasks w.task ws ++ w.cpu.current ∷ [])
  added-CanWake =
      let t = w.cpu.current in
      All-append (CanWake w head (ws ++ wait ∷ []) xs) (tasks w.task ws) (t ∷ [])
        (CanWake-more (tasks w.task ws) h.sleepers can.no_task)
        (
          (
            can.not_idle,
            can.not_queued,
            (
              can.no_member.1.0,
              All-append (λ y. t ≢ y) ws (wait ∷ []) can.no_member.1.1 (can.no_member.0, tt),
            ),
          ),
          tt,
        )

  pub added-tasks :
      tasks (added w head wait).task (ws ++ wait ∷ []) ≡ tasks w.task ws ++ w.cpu.current ∷ []
  added-tasks = tasks-update w.task wait w.cpu.current ws can.new.1

  pub added-IsWaiting : IsWaiting (added w head wait) head (ws ++ wait ∷ []) xs
  added-IsWaiting = record {
    queue = added-IsQueue;
    ring = added-IsRing;
    apart = added-Apart;
    sleepers =
        subst (λ l. All (CanWake w head (ws ++ wait ∷ []) xs) l) (sym added-tasks) added-CanWake;
    distinct =
        subst (λ l. Distinct l) (sym added-tasks)
          (Distinct-append (tasks w.task ws) (w.cpu.current ∷ []) h.distinct (tt, tt)
            (Apart-symm (w.cpu.current ∷ []) (tasks w.task ws) (can.not_waiting, tt)));
    long = h.long;
  }

-- A wait queue that has been set up is empty, and beside the run queue.
pub wait_queue_init-IsWaiting :
    (w : Waits) (head t : Addr) (xs : List Addr)
    → IsQueue w.cpu xs
    → Fresh head (w.cpu.head ∷ xs)
    → ((u : Addr) → vruntime w.cpu u ≤ℤ max_long)
    → IsWaiting (wait_queue_init head t w) head [] xs
unfolding wait_queue_init
wait_queue_init-IsWaiting w head t xs q f long = record {
  queue =
      IsQueue-links w.cpu (list_init head w.cpu.links) xs
        (list_init-IsRing-other w.cpu.links head w.cpu.head xs f q.ring) q;
  ring = list_init-IsRing head w.cpu.links;
  apart = (f, tt);
  sleepers = tt;
  distinct = tt;
  long = long;
}
