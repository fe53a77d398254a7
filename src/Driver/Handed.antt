-- ===== src/Driver/Handed.antt =====
-- What `disk_transfer` of os/kernel/disk.c leaves in the node that it hands in, and in its task.
use system_studying.Base.{
  ℕ, ◌%◌, ◌^◌, ◌≡◌, ◌≢◌, ◌⊎◌, ◌==◌, refl, ap, ◌∙◌, arith, inl, inr, true, Bool-cases, List, [], ◌∷◌,
}
use system_studying.Base.Int.{ℤ}
use system_studying.Links.{Addr, update}
use system_studying.Sched.{Cpu, task_uninterruptible, set_state}
use system_studying.Sched.Pick.{unflagged}
use system_studying.Wait.{Waits}
use system_studying.Wait.Sleep.{given, gone, stopping}
use system_studying.Driver.{Ports, Node, Drive, read_end, write_end}
use system_studying.Driver.Calls.{command_node}

-- The request of a read, the command 0x20 of the drive, or of a write, its command 0x30.
abbrev pub requested : {cmd : ℕ} → (cmd ≡ 0x20) ⊎ (cmd ≡ 0x30) → ℕ → ℕ → Addr → Node
requested (inl reads) blocks count buffer = record {
  count = count % 2 ^ 32;
  cmd = 0x20;
  lba = blocks;
  buffer = buffer;
  end_handler = read_end;
}
requested (inr writes) blocks count buffer = record {
  count = count % 2 ^ 32;
  cmd = 0x30;
  lba = blocks;
  buffer = buffer;
  end_handler = write_end;
}

-- From `st` to `st'` the current task has handed in the node at `node`, which holds `request`, belongs
-- to it and will wake it, and sleeps: its state is TASK_UNINTERRUPTIBLE. No other node has changed.
pub record Handed {W : Type 0} (st st' : Drive W) (node : Addr) (request : Node) : Type 0 where
  pub contents : st'.nodes node ≡ request
  pub others : (a : Addr) → a ≢ node → st'.nodes a ≡ st.nodes a
  pub task : st'.waits.task node ≡ st.waits.cpu.current
  pub asleep : (st'.waits.cpu.tasks st.waits.cpu.current).state ≡ 4

pub command_node-requested :
    (p : Ports) (cmd blocks count buffer : ℕ) (known : (cmd ≡ 0x20) ⊎ (cmd ≡ 0x30))
    → command_node p cmd blocks count buffer ≡ requested known blocks count buffer
command_node-requested p cmd blocks count buffer (inl e) =
    ap (λ c. command_node p c blocks count buffer) e
command_node-requested p cmd blocks count buffer (inr e) =
    ap (λ c. command_node p c blocks count buffer) e

unflagged-state : (c : Cpu) (t : Addr) → ((unflagged c).tasks t).state ≡ (c.tasks t).state
unfolding update
unflagged-state c t = elim (Bool-cases (t == c.current)) [
  | inl e ↦ let same : t ≡ c.current = ground arith in rw e (rw same refl)
  | inr e ↦ rw e refl
]

given-state :
    (c : Cpu) (xs : List Addr) (i : ℤ) (t : Addr)
    → ((given c xs i).tasks t).state ≡ (c.tasks t).state
given-state c [] i t = unflagged-state c t
given-state c (x ∷ xs) i t = unflagged-state c t

-- The task that has stopped is asleep once another has the processor.
pub gone-asleep :
    (w : Waits) (xs : List Addr) (i : ℤ)
    → ((gone (stopping task_uninterruptible w) xs i).cpu.tasks w.cpu.current).state ≡ 4
unfolding update
gone-asleep w xs i =
    let same : (w.cpu.current == w.cpu.current) ≡ true = ground arith in
    given-state (set_state w.cpu.current task_uninterruptible w.cpu) xs i w.cpu.current
    ∙ rw same refl
