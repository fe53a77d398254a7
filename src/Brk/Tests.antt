-- ===== src/Brk/Tests.antt =====
-- A task with two pages of memory above 4M, and allocators that count up.
use system_studying.Base.{ℕ, ◌-◌, ◌+◌, ◌*◌, ◌^◌, arith, some}
use system_studying.Brk.{Space, Supply, sys_brk}
use system_studying.Brk.Extend.{Extended, sys_brk-extends}

abbrev counting : Supply ℕ
counting = record {
  kmalloc_4k = λ n. some (2 ^ 64 - 2 ^ 47 + n * 4096, n + 1);
  alloc_page = λ n. some (n, n + 1);
  wiped = λ p n. n;
}

abbrev task : Space ℕ
task = record {
  word = λ a. 0;
  p_address = λ q. q * 2 ^ 21;
  pgd = 0;
  start_brk = 2 ^ 22;
  end_brk = 2 ^ 23;
  world = 64;
}

sys_brk-extends_example : Extended counting 10000000 task (sys_brk counting 3 10000000 task)
sys_brk-extends_example =
    sys_brk-extends counting 3 10000000 task (omega arith) (omega arith) (omega arith) (omega arith)
      (omega arith) (omega arith) (omega arith)
