-- ===== src/Links/Laws.antt =====
-- What insertion and removal do to the forward links.
use ertos.Base.{◌≡◌, ◌≢◌, Ptr, null, Store, write, arith}
use ertos.Links.{Link, add_after, remove}

module _ (h : Store Link) (list a : Ptr) (set : list ≢ null) (ne : a ≢ list) where
  -- A node inserted behind another one, which is not NULL, and removed before anything else is
  -- inserted leaves the forward links of all other nodes as they were before.
  pub remove-add_after : (p : Ptr) → p ≢ a → (remove (add_after h list a) a p).next ≡ (h p).next
  unfolding add_after remove write
  remove-add_after p np = ground arith

-- Of two nodes inserted behind the same one, the removal of the first drops the second as well:
-- behind `list` then stands what stood there at first, and not `b`. The three nodes are distinct,
-- `list` and `a` are not NULL, and `b` did not follow `list` before.
pub remove_older :
    (h : Store Link) (list a b : Ptr)
    → list ≢ null
    → a ≢ list
    → b ≢ list
    → a ≢ b
    → a ≢ null
    → (h list).next ≢ b
    → let h' = remove (add_after (add_after h list a) list b) a in
      ((h' list).next ≡ (h list).next) × ((h' list).next ≢ b)
unfolding add_after remove write
remove_older h list a b set na nb ne nz nn = ground arith
