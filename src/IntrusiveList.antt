-- ===== src/IntrusiveList.antt =====
-- The intrusive doubly linked lists of src/src/list.c and src/inc/list.h. A `struct list_head` is
-- an address; `Links` is the memory that the functions see, the `next` and `prev` field of every
-- address. Address 0 is NULL.
pub mod Ring
pub mod Insert
pub mod Delete
pub mod Splice
pub mod Walk
mod Tests
use spbau_os_hw.Prelude.{ℕ, zero, suc, Bool, not, Option, none, some, ◌==◌, if◌then◌else◌}

abbrev pub Addr : Type 0
Addr = ℕ

abbrev pub null : Addr
null = 0

pub record Links : Type 0 where
  pub next : Addr → Addr
  pub prev : Addr → Addr

-- The memory `f` with `v` written at `a`.
unfoldable pub write : (Addr → Addr) → Addr → Addr → Addr → Addr
write f a v x = if x == a then v else f x

-- `a->next = v`
unfoldable pub set_next : Addr → Addr → Links → Links
unfolding write
set_next a v m = record m { next = write m.next a v }

-- `a->prev = v`
unfoldable pub set_prev : Addr → Addr → Links → Links
unfolding write
set_prev a v m = record m { prev = write m.prev a v }

unfoldable pub list_init : Addr → Links → Links
unfolding set_next set_prev
list_init head m = set_next head head (set_prev head head m)

unfoldable pub list_insert : (new prev next : Addr) → Links → Links
unfolding set_next set_prev
list_insert new prev next m =
    set_prev next new (set_next prev new (set_next new next (set_prev new prev m)))

unfoldable pub list_add : (new head : Addr) → Links → Links
unfolding list_insert
list_add new head m = list_insert new head (m.next head) m

unfoldable pub list_add_tail : (new head : Addr) → Links → Links
unfolding list_insert
list_add_tail new head m = list_insert new (m.prev head) head m

unfoldable pub unlink : (prev next : Addr) → Links → Links
unfolding set_next set_prev
unlink prev next m = set_prev next prev (set_next prev next m)

unfoldable pub list_del : Addr → Links → Links
unfolding unlink
list_del entry m =
    set_prev entry null (set_next entry null (unlink (m.prev entry) (m.next entry) m))

unfoldable pub list_empty : Addr → Links → Bool
list_empty head m = m.next head == head

-- `first` and `last` are read before the four writes.
unfoldable pub splice_between : (list prev next : Addr) → Links → Links
unfolding set_next set_prev
splice_between list prev next m =
    let first = m.next list in
    let last = m.prev list in
    set_prev next last (set_next last next (set_next prev first (set_prev first prev m)))

unfoldable pub list_splice : (list head : Addr) → Links → Links
unfolding list_empty splice_between list_init
list_splice list head m =
    if not (list_empty list m) then list_init list (splice_between list head (m.next head) m) else m

unfoldable pub list_first : Addr → Links → Addr
list_first head m = m.next head

-- The loop of `list_size` from `pos` on, with `size` counted so far; `none` if the rounds run out.
unfoldable pub size_loop : (fuel : ℕ) → (head pos size : Addr) → Links → Option ℕ
size_loop zero head pos size m = none
size_loop (suc f) head pos size m =
    let rest = size_loop f head (m.next pos) (suc size) m in if pos == head then some size else rest

unfoldable pub list_size : (fuel : ℕ) → Addr → Links → Option ℕ
unfolding size_loop
list_size f head m = size_loop f head (m.next head) 0 m
