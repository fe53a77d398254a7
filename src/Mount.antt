-- ===== src/Mount.antt =====
-- The list of file system types: the first part of os/kernel/vfs.c. A `struct file_system_type` is an
-- address, `NULL` is 0, and `filesystem` the first of the list, which is never taken out.
pub mod Found
pub mod Linked
pub mod Registered
mod Tests
use system_studying.Base.{ℕ, zero, suc, Bool, Option, none, some, List, if◌then◌else◌, ◌==◌}
use system_studying.Links.{Addr, update}
use system_studying.Sched.{◌>>=◌}
use system_studying.Shell.{same_text}

-- The members `name` and `next` of all types.
pub record Types : Type 0 where
  pub filesystem : Addr
  pub name : Addr → List ℕ
  pub next : Addr → Addr

-- `for (p = &filesystem; p; p = p->next)` up to the first that passes the test, or 0.
unfoldable pub find_type : ℕ → (Addr → Bool) → (Addr → Addr) → Addr → Option Addr
find_type zero test next p = none
find_type (suc f) test next p =
    let rest = find_type f test next (next p) in
    if p == 0 then some 0 else if test p then some p else rest

-- `read_superblock` is what the member of a type gives for the disk entry and the buffer.
unfoldable pub mount_fs {ℓ} : {B : Type ℓ} → ℕ → (Addr → B) → B → List ℕ → Types → Option B
unfolding find_type
mount_fs fuel read_superblock null name t = do
  p ← find_type fuel (λ p. same_text (t.name p) name) t.next t.filesystem
  some (if p == 0 then null else read_superblock p)

abbrev pub linked_type : Addr → Types → Types
linked_type fs t =
    let next1 = update t.next fs (t.next t.filesystem) in
    record t { next = update next1 t.filesystem fs }

unfoldable pub register_filesystem : ℕ → Addr → Types → Option (ℕ × Types)
unfolding find_type update
register_filesystem fuel fs t = do
  p ← find_type fuel (λ p. same_text (t.name fs) (t.name p)) t.next t.filesystem
  some (if p == 0 then (1, linked_type fs t) else (0, t))

-- `p->next = p->next->next; fs->next = NULL;`
abbrev pub unlinked_type : Addr → Addr → Types → Types
unlinked_type p fs t =
    let next1 = update t.next p (t.next (t.next p)) in record t { next = update next1 fs 0 }

unfoldable pub unregister_from : ℕ → Addr → Addr → Types → Option (ℕ × Types)
unfolding update
unregister_from zero p fs t = none
unregister_from (suc f) p fs t =
    let rest = unregister_from f (t.next p) fs t in
    if t.next p == 0
    then some (0, t)
    else if t.next p == fs
    then some (1, unlinked_type p fs t)
    else rest

unfoldable pub unregister_filesystem : ℕ → Addr → Types → Option (ℕ × Types)
unfolding unregister_from
unregister_filesystem fuel fs t = unregister_from fuel t.filesystem fs t
