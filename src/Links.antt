-- ===== src/Links.antt =====
-- The doubly linked circular lists of os/kernel/lib.h. A `struct List` is an address, and `Links`
-- is the store of the `prev` and `next` words at every address. A structure that embeds a
-- `struct List` goes by the address of that member: `container_of` takes off a constant.
pub mod Ring
pub mod Ops
pub mod Walk
pub mod Other
mod Tests
use system_studying.Base.{ℕ, Bool, ◌==◌, ◌&&◌, if◌then◌else◌}

abbrev pub Addr : Type 0
Addr = ℕ

-- `*a = v` on one member of every structure.
unfoldable pub update {ℓ} : {V : Type ℓ} → (Addr → V) → Addr → V → Addr → V
update f a v x = if x == a then v else f x

pub record Links : Type 0 where
  pub prev : Addr → Addr
  pub next : Addr → Addr

abbrev set_prev : Addr → Addr → Links → Links
set_prev a v s = record s { prev = update s.prev a v }

abbrev set_next : Addr → Addr → Links → Links
set_next a v s = record s { next = update s.next a v }

unfoldable pub list_init : Addr → Links → Links
unfolding update
list_init list s = set_next list list (set_prev list list s)

-- The four assignments in the source's order; each reads the store that the one before it left.
unfoldable pub list_add_behind : Addr → Addr → Links → Links
unfolding update
list_add_behind list newn s =
    let s1 = set_next newn (s.next list) s in
    let s2 = set_prev newn list s1 in
    let s3 = set_prev (s2.next newn) newn s2 in set_next list newn s3

unfoldable pub list_add_before : Addr → Addr → Links → Links
unfolding update
list_add_before list newn s =
    let s1 = set_next (s.prev list) newn s in
    let s2 = set_prev newn (s1.prev list) s1 in
    let s3 = set_prev list newn s2 in set_next newn list s3

unfoldable pub list_delete : Addr → Links → Links
unfolding update
list_delete list s =
    let s1 = set_prev (s.next list) (s.prev list) s in set_next (s1.prev list) (s1.next list) s1

unfoldable pub list_is_empty : Addr → Links → Bool
list_is_empty list s = s.next list == list && s.prev list == list

-- `list_prev` and `list_next` return the word, which is `NULL` where it is `NULL`.
unfoldable pub list_prev : Addr → Links → Addr
list_prev list s = if s.prev list == 0 then 0 else s.prev list

unfoldable pub list_next : Addr → Links → Addr
list_next list s = if s.next list == 0 then 0 else s.next list
