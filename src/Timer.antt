-- ===== src/Timer.antt =====
-- The kernel timers: os/kernel/time.c over `struct timer_list` of os/kernel/time.h.
-- `get_cmos_time` only reads ports and is left out; the text that `do_timer` prints, too.
pub mod Add
pub mod Fire
pub mod Late
mod Tests
use system_studying.Base.{
  ℕ, zero, suc, ◌+◌, ◌%◌, ◌^◌, Bool, true, false, not, ◌&&◌, Option, none, some, if◌then◌else◌, ltb,
  leb,
}
use system_studying.Links.{
  Addr, Links, update, list_init, list_add_behind, list_delete, list_is_empty, list_next,
}
use system_studying.Links.Walk.{walk}

-- The timers at all addresses, with `timer_list_head` and the clock.
pub record Timers : Type 0 where
  pub links : Links
  pub expire_jiffies : Addr → ℕ
  pub head : Addr
  pub jiffies : ℕ

-- `func` and `data` of a timer stand in its structure, and are what the parameter `func` below
-- finds there. The sum is one of `unsigned long`.
unfoldable pub init_timer : Addr → ℕ → Timers → Timers
unfolding update list_init
init_timer timer after w = record w {
  links = list_init timer w.links;
  expire_jiffies = update w.expire_jiffies timer ((w.jiffies + after) % 2 ^ 64);
}

abbrev pub expires_before : Timers → Addr → Addr → Bool
expires_before w timer tmp = ltb (w.expire_jiffies tmp) (w.expire_jiffies timer)

abbrev pub link_timer : Addr → Timers → Option Addr → Option Timers
link_timer timer w none = none
link_timer timer w (some tmp) = some (record w { links = list_add_behind tmp timer w.links })

unfoldable pub add_timer : ℕ → Addr → Timers → Option Timers
add_timer fuel timer w =
    let tmp = list_next w.head w.links in
    let place =
      if list_is_empty w.head w.links
      then some tmp
      else walk fuel (expires_before w timer) w.links tmp in
    link_timer timer w place

unfoldable pub del_timer : Addr → Timers → Timers
del_timer timer w = record w { links = list_delete timer w.links }

-- `tmp->func(tmp->data)` may change the timers and anything else, which is `S`.
module _ {S : Type 0} (func : Addr → Timers × S → Timers × S) where
  unfoldable pub do_timer_loop : ℕ → Addr → Timers × S → Option (Timers × S)
  unfolding del_timer
  do_timer_loop zero tmp (w, s) = none
  do_timer_loop (suc f) tmp (w, s) =
      elim (not (list_is_empty w.head w.links) && leb (w.expire_jiffies tmp) w.jiffies) [
        | true ↦
            let (w', s') = func tmp (del_timer tmp w, s) in
            do_timer_loop f (list_next w'.head w'.links) (w', s')
        | false ↦ some (w, s)
      ]

  unfoldable pub do_timer : ℕ → Timers × S → Option (Timers × S)
  unfolding do_timer_loop
  do_timer fuel (w, s) = do_timer_loop fuel (list_next w.head w.links) (w, s)
