-- ===== src/Links.antt =====
-- The doubly linked lists of include/sys/list.h, on a store of link fields.
pub mod Laws
use ertos.Base.{ℕ, Ptr, null, Store, write, ◌==◌, if◌then◌else◌}

-- `struct list`
pub record Link : Type 0 where
  pub next : Ptr
  pub prev : Ptr

-- `list_add_after`; the link back of the node that followed is left as it was.
pub add_after : Store Link → (list add : Ptr) → Store Link
add_after h list add =
    let h1 = write h add (record { next = (h list).next; prev = list }) in
    write h1 list (record (h1 list) { next = add })

-- `list_remove`
pub remove : Store Link → Ptr → Store Link
remove h rem =
    let h1 =
      if (h rem).prev == null
      then h
      else write h (h rem).prev (record (h (h rem).prev) { next = (h rem).next }) in
    let n = (h1 rem).next in
    if n == null then h1 else write h1 n (record (h1 n) { prev = (h1 rem).prev })
