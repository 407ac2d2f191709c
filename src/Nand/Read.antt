-- ===== src/Nand/Read.antt =====
-- What `nand_read_page` and `nand_read` ask the chip for, and what they store.
use mathlib.Core.Option
use mathlib.Core.Path.{subst}
use ertos.Base.Options.{bind_ends}
use ertos.Base.{
  ℕ, zero, suc, ◌+◌, ◌/◌, ◌%◌, ◌≡◌, ◌≤◌, ◌<◌, ◌∙◌, ◌⊎◌, inl, refl, ap, sym, arith, false, Bool,
  List, [], ◌∷◌, Option, some, Ptr, write, write_self, write_ne,
}
use ertos.CString.{Bytes}
use ertos.Nand.{
  Bus, Strobe, wrote, got, put, get, get_bytes, put_page, put_col, select, deselect, set_ale,
  set_cle, cmd, load_page, seek, read,
}
use ertos.Nand.Signals.{
  idle, as_data, as_address, command, page_address, col_address, after, IsReady, waiting, Waited,
  wait_ready-Waited,
}

-- The chip gets ready within `f` looks at any time.
abbrev pub GetsReady : ℕ → Bus → Type 0
GetsReady f b = (n : ℕ) → IsReady f (record b { polls = n })

-- The sequence that loads a page, and the one that seeks a byte of it.
abbrev pub loading : (kept page : ℕ) → List Strobe
loading kept page =
    command kept 0x00 (col_address kept 0 (page_address kept page (command kept 0x30 [])))

abbrev pub seeking : (kept col : ℕ) → List Strobe
seeking kept col = command kept 0x05 (col_address kept col (command kept 0xE0 []))

-- The bytes that the chip answers from its `r`th on.
abbrev pub gotten : (kept : ℕ) → (answers : ℕ → ℕ) → (r n : ℕ) → List Strobe
gotten kept answers r zero = []
gotten kept answers r (suc n) = got (as_data kept) (answers r) ∷ gotten kept answers (suc r) n

-- The bytes read stand in the buffer, and all else is unchanged.
pub record Stored (m m' : Bytes) (buf : Ptr) (len : ℕ) (answers : ℕ → ℕ) (r : ℕ) : Type 0 where
  pub at : (i : ℕ) → i < len → m' (buf + i) ≡ answers (r + i)
  pub kept : (a : Ptr) → (a < buf) ⊎ (buf + len ≤ a) → m' a ≡ m a

Stored-step :
    (m m' : Bytes) (p n : ℕ) (answers : ℕ → ℕ) (r : ℕ)
    → Stored (write m p (answers r)) m' (p + 1) n answers (suc r)
    → Stored m m' p (suc n) answers r
Stored-step m m' p n answers r s = record {
  at = at;
  kept = λ a l. s.kept a (ground (arith, l)) ∙ write_ne m p a (answers r) (ground (arith, l));
}
  where
    at : (i : ℕ) → i < suc n → m' (p + i) ≡ answers (r + i)
    at zero lt =
        ap m' (omega arith)
        ∙ s.kept p (inl (omega arith))
        ∙ write_self m p (answers r)
        ∙ ap answers (omega arith)
    at (suc i) lt = ap m' (omega arith) ∙ s.at i (omega (arith, lt)) ∙ ap answers (omega arith)

get_bytes-Stored :
    (n kept : ℕ) (p : Ptr) (m : Bytes) (b : Bus)
    → b.ctrl ≡ as_data kept
    → (m' : Bytes) × (get_bytes n p (m, b) ≡ (
      m',
      record b { reads = b.reads + n; log = after (gotten kept b.answers b.reads n) b.log },
    ))
      × Stored m m' p n b.answers b.reads
unfolding get_bytes get
get_bytes-Stored zero kept p m b c = (
  m,
  ap (λ r. (m, record b { reads = r })) (omega arith),
  record { at = λ i lt. elim lt [ ]; kept = λ a l. refl },
)
get_bytes-Stored (suc n) kept p m b c =
    let x = b.answers b.reads in
    let b1 : Bus = record b { reads = suc b.reads; log = got b.ctrl x ∷ b.log } in
    let (m', e, s) = get_bytes-Stored n kept (p + 1) (write m p x) b1 c in
    (
      m',
      e
          ∙ ap
              (λ r. (
                m',
                record b {
                  reads = r;
                  log = after (gotten kept b.answers (suc b.reads) n) (got b.ctrl x ∷ b.log);
                },
              ))
              (omega arith)
          ∙ ap
              (λ c. (
                m',
                record b {
                  reads = b.reads + suc n;
                  log = after (gotten kept b.answers (suc b.reads) n) (got c x ∷ b.log);
                },
              ))
              c,
      Stored-step m m' p n b.answers b.reads s,
    )

load_page_lem :
    (f page kept : ℕ) (b : Bus)
    → GetsReady f b
    → Waited
        (record b { ctrl = as_data kept; log = after (loading kept page) b.log })
        (load_page f page (record b { ctrl = as_data kept }))
unfolding load_page cmd set_cle set_ale put put_page
load_page_lem f page kept b g =
    let r = g b.polls in
    subst
      (λ third.
        Waited (record b { ctrl = as_data kept; log = loaded third })
          (load_page f page (record b { ctrl = as_data kept })))
      thirds
      (wait_ready-Waited f (record b { ctrl = as_data kept; log = loaded (page / 256 / 256) })
        (record { look = r.look; ready = r.ready; soon = r.soon }))
  where
    thirds : page / 256 / 256 ≡ page / 65536
    thirds = omega arith

    loaded : ℕ → List Strobe
    loaded third =
        after
          (command kept 0x00 (
            col_address kept 0 (
              wrote (as_address kept) (page % 256)
              ∷ (wrote (as_address kept) (page / 256 % 256)
                  ∷ (wrote (as_address kept) (third % 256) ∷ command kept 0x30 [])))))
          b.log

seek_lem :
    (f col kept : ℕ) (b : Bus)
    → GetsReady f b
    → Waited
        (record b { ctrl = as_data kept; log = after (seeking kept col) b.log })
        (seek f col (record b { ctrl = as_data kept }))
unfolding seek cmd set_cle set_ale put put_col
seek_lem f col kept b g =
    let r = g b.polls in
    wait_ready-Waited f (record b { ctrl = as_data kept; log = after (seeking kept col) b.log })
      (record { look = r.look; ready = r.ready; soon = r.soon })

-- The log of `nand_read` up to its last wait, with the looks of the two waits.
abbrev pub sought : (kept page col looks1 looks2 : ℕ) → List Strobe → List Strobe
sought kept page col looks1 looks2 log =
    after (waiting looks2 [])
      (after (seeking kept col) (after (waiting looks1 []) (after (loading kept page) log)))

-- What `nand_read` leaves.
pub record Got (b : Bus) (kept page col : ℕ) (m : Bytes) (buf : Ptr) (len : ℕ)
    (r : Option (Bytes × Bus)) : Type 0 where
  pub memory : Bytes
  pub end : Bus
  pub looks1 : ℕ
  pub looks2 : ℕ
  pub eq : r ≡ some (memory, end)
  pub log :
      end.log ≡ after (gotten kept b.answers b.reads len) (sought kept page col looks1 looks2 b.log)
  pub ctrl : end.ctrl ≡ idle false kept
  pub stored : Stored m memory buf len b.answers b.reads

-- Both waits.
record Sought (b : Bus) (kept page col : ℕ) (r : Option Bus) : Type 0 where
  looks1 : ℕ
  looks2 : ℕ
  polls : ℕ
  eq :
      r
      ≡ some (record b {
        ctrl = as_data kept;
        polls = polls;
        log = sought kept page col looks1 looks2 b.log;
      })

loaded_lem :
    (f page col kept : ℕ) (nce : Bool) (b : Bus)
    → GetsReady f b
    → Sought b kept page col
        (Option.bind (load_page f page (select (record b { ctrl = idle nce kept }))) (seek f col))
unfolding select
loaded_lem f page col kept nce b g =
    let w1 = load_page_lem f page kept b g in
    let b1 : Bus = record b {
      polls = w1.polls;
      log = after (waiting w1.looks []) (after (loading kept page) b.log);
    } in
    let w2 =
      seek_lem f col kept b1
        (λ n. record { look = (g n).look; ready = (g n).ready; soon = (g n).soon }) in
    record {
      looks1 = w1.looks;
      looks2 = w2.looks;
      polls = w2.polls;
      eq =
          bind_ends (load_page f page (record b { ctrl = as_data kept }))
            (record b1 { ctrl = as_data kept }) (seek f col)
            (record b {
              ctrl = as_data kept;
              polls = w2.polls;
              log = sought kept page col w1.looks w2.looks b.log;
            })
            w1.eq w2.eq;
    }

read_idle :
    (f page col len kept : ℕ) (nce : Bool) (buf : Ptr) (m : Bytes) (b : Bus)
    → GetsReady f b
    → Got
        (record b { ctrl = idle nce kept })
        kept
        page
        col
        m
        buf
        len
        (read f page col buf len m (record b { ctrl = idle nce kept }))
unfolding read deselect
read_idle f page col len kept nce buf m b g =
    let w = loaded_lem f page col kept nce b g in
    let b1 : Bus = record b {
      ctrl = as_data kept;
      polls = w.polls;
      log = sought kept page col w.looks1 w.looks2 b.log;
    } in
    let (m', e', s) = get_bytes-Stored len kept buf m b1 refl in
    record {
      memory = m';
      end = _;
      looks1 = w.looks1;
      looks2 = w.looks2;
      eq =
          ap (Option.map (λ b1. let (m', b2) = get_bytes len buf (m, b1) in (m', deselect b2))) w.eq
          ∙ ap (λ (r : Bytes × Bus). some (r.0, deselect r.1)) e';
      log = refl;
      ctrl = refl;
      stored = s;
    }

-- With a chip that gets ready in time whenever it is waited for, `nand_read` ends, for a bus whose
-- latch enables are off: it sends the sequence that loads the page and looks at the busy line until
-- that shows a chip that is ready; it sends the one that seeks the column and waits in the same way
-- once more; only then it reads `len` bytes, which are stored in the buffer in their order, and no
-- other byte of the memory is changed. The chip is deselected behind it.
pub read-Got :
    (f page col len kept : ℕ) (nce : Bool) (buf : Ptr) (m : Bytes) (b : Bus)
    → b.ctrl ≡ idle nce kept
    → GetsReady f b
    → Got b kept page col m buf len (read f page col buf len m b)
read-Got f page col len kept nce buf m b c g =
    subst
      (λ c.
        Got (record b { ctrl = c }) kept page col m buf len
          (read f page col buf len m (record b { ctrl = c })))
      (sym c) (read_idle f page col len kept nce buf m b g)
