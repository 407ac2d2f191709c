-- ===== src/Syscall/Dispatch.antt =====
-- `c_svc`: which numbers it serves.
use ertos.Base.{ℕ, ◌<◌, ◌≡◌, refl, ◌≢◌, Ptr, arith, lt→ltb, le→ltb}
use ertos.Base.Int.{err}
use ertos.Syscall.{Sys, current, table_size, call, leave, returned, wild_jump, c_svc}

call-wild_jump : (fuel : ℕ) (s : Sys) (arg : ℕ) → call fuel s table_size arg ≡ wild_jump
unfolding call
call-wild_jump fuel s arg = refl

call-ne-wild_jump :
    (fuel : ℕ) (s : Sys) (num arg : ℕ) → num < table_size → leave (call fuel s num arg) ≢ wild_jump
unfolding call
call-ne-wild_jump fuel s num arg h = ground arith

-- Every number below the table's size is served without a wild jump, and every number above it is
-- refused with -1, nothing changed but the `self` pointer; the table's size itself passes the test
-- and jumps through the word behind the table.
pub c_svc_numbers :
    (fuel : ℕ) (kernel_self : Ptr) (s : Sys) (num arg : ℕ)
    → (num < table_size → c_svc fuel kernel_self s num arg ≢ wild_jump)
      × (num ≡ table_size → c_svc fuel kernel_self s num arg ≡ wild_jump)
      × (table_size < num
          → c_svc fuel kernel_self s num arg
            ≡ returned err
                (record s { kernel = record (s.kernel) { self = (current s.kernel).self } }))
unfolding c_svc
c_svc_numbers fuel ks s num arg = (
  λ h. rw (le→ltb table_size num (omega arith)) (call-ne-wild_jump fuel s' num arg h),
  λ e. rw (e, call-wild_jump fuel s' arg),
  λ h. rw (lt→ltb table_size num h),
)
  where
    s' : Sys
    s' = record s { kernel = record (s.kernel) { self = ks } }
