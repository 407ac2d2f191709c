-- ===== src/Nand.antt =====
-- dev/nand.c: the driver of the NAND flash. The chip is on the other side of three registers: what
-- the driver writes to the data register is kept in a log with the lines of the control register,
-- what it reads is a sequence of answers, and so is the busy line; the reads stand in the log, too.
-- The waiting loops are on fuel.
pub mod Signals
pub mod Read
pub mod Program
mod Tests
use mathlib.Core.Option
use ertos.Base.{
  ℕ, zero, suc, ◌+◌, ◌*◌, ◌/◌, ◌%◌, Bool, true, false, not, Ptr, write, List, [], ◌∷◌, Option, none,
  some, if◌then◌else◌, u32_mod, bit_or,
}
use ertos.CString.{Bytes}

-- The byte of `NAND_CTRL`: the latch enables, the chip enable, and the bits that the driver keeps.
pub record Ctrl : Type 0 where
  pub ale : Bool
  pub cle : Bool
  pub nce : Bool
  pub kept : ℕ

-- An access to `NAND_DATA`, or a look at the busy line and what it showed.
pub data Strobe : Type 0 where
  wrote : Ctrl → ℕ → Strobe
  got : Ctrl → ℕ → Strobe
  looked : (busy : Bool) → Strobe

-- The registers. `log` has the last strobe first; `answers` and `busy` are what the chip shows on
-- each read, and `reads` and `polls` count the reads so far.
pub record Bus : Type 0 where
  pub ctrl : Ctrl
  pub log : List Strobe
  pub answers : ℕ → ℕ
  pub reads : ℕ
  pub busy : ℕ → Bool
  pub polls : ℕ

-- `nand_select`
unfoldable pub select : Bus → Bus
select b = record b { ctrl = record (b.ctrl) { nce = true } }

-- `nand_deselect`
unfoldable pub deselect : Bus → Bus
deselect b = record b { ctrl = record (b.ctrl) { nce = false } }

-- `NAND_CTRL_ALE` set or cleared.
unfoldable pub set_ale : Bool → Bus → Bus
set_ale on b = record b { ctrl = record (b.ctrl) { ale = on } }

-- `NAND_CTRL_CLE` set or cleared.
unfoldable pub set_cle : Bool → Bus → Bus
set_cle on b = record b { ctrl = record (b.ctrl) { cle = on } }

-- `outb(NAND_DATA, x)`
unfoldable pub put : ℕ → Bus → Bus
put x b = record b { log = wrote b.ctrl (x % 256) ∷ b.log }

-- `inb(NAND_DATA)`
unfoldable pub get : Bus → ℕ × Bus
get b = (
  b.answers b.reads,
  record b { reads = suc b.reads; log = got b.ctrl (b.answers b.reads) ∷ b.log },
)

-- `while (nand_busy())`
unfoldable pub wait_ready : ℕ → Bus → Option Bus
wait_ready zero b = none
wait_ready (suc f) b =
    let b1 : Bus = record b { polls = suc b.polls; log = looked (b.busy b.polls) ∷ b.log } in
    let rest = wait_ready f b1 in if b.busy b.polls then rest else some b1

-- `nand_cmd`
unfoldable pub cmd : ℕ → Bus → Bus
unfolding set_cle put
cmd c b = set_cle false (put c (set_cle true b))

-- `nand_reset`; `NAND_CTRL_MASK` has the bits of the two latch enables.
unfoldable pub reset : ℕ → Bus → Option Bus
unfolding select deselect set_ale set_cle cmd wait_ready
reset f b = Option.map deselect (wait_ready f (cmd 0xFF (select (set_ale false (set_cle false b)))))

-- The two bytes of an identifier.
unfoldable pub get_id : Bus → ℕ × Bus
unfolding get deselect
get_id b = let (hi, b1) = get b in let (lo, b2) = get b1 in (bit_or (hi * 256) lo, deselect b2)

-- `nand_read_id`; the command goes out once before `NAND_CTRL_CLE` is set.
unfoldable pub read_id : ℕ → Bus → Option (ℕ × Bus)
unfolding select put cmd set_ale wait_ready get_id
read_id f b =
    let b1 = cmd 0x90 (put 0x90 (select b)) in
    let b2 = set_ale false (put 0 (set_ale true b1)) in Option.map get_id (wait_ready f b2)

-- `for (i = 0; i < 3; ++i) { outb(NAND_DATA, page & 0xFF); page >>= 8; }`
unfoldable pub put_page : (rounds page : ℕ) → Bus → Bus
unfolding put
put_page zero page b = b
put_page (suc n) page b = put_page n (page / 256) (put page b)

-- The two bytes of a column.
unfoldable pub put_col : ℕ → Bus → Bus
unfolding put
put_col col b = put (col / 256) (put col b)

-- `nand_load_page`
unfoldable pub load_page : ℕ → (page : ℕ) → Bus → Option Bus
unfolding cmd set_ale put put_page wait_ready
load_page f page b =
    let b1 = set_ale true (cmd 0x00 b) in
    let b2 = put_page 3 page (put 0x00 (put 0x00 b1)) in wait_ready f (cmd 0x30 (set_ale false b2))

-- `for (i = 0; i < len; ++i) *p++ = inb(NAND_DATA);`
unfoldable pub get_bytes : (len : ℕ) → (p : Ptr) → Bytes × Bus → Bytes × Bus
unfolding get
get_bytes zero p (m, b) = (m, b)
get_bytes (suc n) p (m, b) = let (x, b1) = get b in get_bytes n (p + 1) (write m p x, b1)

-- `NAND_RAW_PAGE_SIZE`
abbrev pub raw_page_size : ℕ
raw_page_size = 2112

-- `NAND_PAGE_SIZE`
abbrev pub page_size : ℕ
page_size = 2048

-- The part of `nand_read_page` that reads the page.
unfoldable pub read_raw : ℕ → (page : ℕ) → (buf : Ptr) → Bytes → Bus → Option (Bytes × Bus)
unfolding select load_page get_bytes deselect
read_raw f page buf m b =
    Option.map (λ b1. let (m', b2) = get_bytes raw_page_size buf (m, b1) in (m', deselect b2))
      (load_page f page (select b))

-- The seek of `nand_read`.
unfoldable pub seek : ℕ → (col : ℕ) → Bus → Option Bus
unfolding cmd set_ale put_col wait_ready
seek f col b = wait_ready f (cmd 0xE0 (set_ale false (put_col col (set_ale true (cmd 0x05 b)))))

-- `nand_read`
unfoldable pub read :
    ℕ → (page col : ℕ) → (buf : Ptr) → (len : ℕ) → Bytes → Bus → Option (Bytes × Bus)
unfolding select load_page seek get_bytes deselect Option.bind
read f page col buf len m b =
    Option.map (λ b1. let (m', b2) = get_bytes len buf (m, b1) in (m', deselect b2))
      (Option.bind (load_page f page (select b)) (seek f col))

-- `nand_read_status`
unfoldable pub read_status : Bus → ℕ × Bus
unfolding cmd get
read_status b = get (cmd 0x70 b)

-- The end of `nand_erase` and `nand_write_sector`, the status behind the wait.
unfoldable pub finish : Bus → ℕ × Bus
unfolding read_status deselect
finish b = let (status, b1) = read_status b in (status, deselect b1)

-- `NAND_PAGES_PER_BLOCK`
abbrev pub pages_per_block : ℕ
pages_per_block = 64

-- `nand_erase`
unfoldable pub erase : ℕ → (block : ℕ) → Bus → Option (ℕ × Bus)
unfolding select cmd set_ale put wait_ready finish
erase f block b =
    let page : ℕ = block * pages_per_block % u32_mod in
    let b1 = set_ale true (cmd 0x60 (select b)) in
    let b2 = put (page / 65536) (put (page / 256) (put page b1)) in
    Option.map finish (wait_ready f (cmd 0xD0 (set_ale false b2)))

-- `nand_random_data_input`
unfoldable pub random_data_input : (col : ℕ) → Bus → Bus
unfolding cmd set_ale put_col
random_data_input col b = set_ale false (put_col col (set_ale true (cmd 0x85 b)))

-- `for (i = 0; i < 512; ++i) outb(NAND_DATA, (*p++));`
unfoldable pub put_bytes : (len : ℕ) → Bytes → Ptr → Bus → Bus
unfolding put
put_bytes zero m p b = b
put_bytes (suc n) m p b = put_bytes n m (p + 1) (put (m p) b)

-- The three bytes of an error-correcting code.
unfoldable pub put_ecc : ℕ × ℕ × ℕ → Bus → Bus
unfolding put
put_ecc (x, y, z) b = put z (put y (put x b))

-- dev/hamming.c, the code of 256 bytes: `hamming_compute_256`, and `hamming_correct_256`, which
-- may correct the data, with its answer.
pub record Hamming : Type 0 where
  pub compute : Bytes → Ptr → ℕ × ℕ × ℕ
  pub correct : Bytes → (block code : Ptr) → ℕ × ℕ × ℕ → ℕ × Bytes

-- `nand_write_sector`
unfoldable pub write_sector :
    Hamming → ℕ → (page sect : ℕ) → Bytes → (buf : Ptr) → Bus → Option (ℕ × Bus)
unfolding select cmd set_ale put_col put_page put_bytes random_data_input put_ecc wait_ready finish
write_sector h f page sect m buf b =
    let b1 = set_ale true (cmd 0x80 (select b)) in
    let b2 = set_ale false (put_page 3 page (put_col (sect * 512) b1)) in
    let b3 = random_data_input (page_size + 40 + sect * 6) (put_bytes 512 m buf b2) in
    let b4 = put_ecc (h.compute m (buf + 256)) (put_ecc (h.compute m buf) b3) in
    Option.map finish (wait_ready f (cmd 0x10 b4))

-- The loop of `nand_read_page` that checks the codes: `n` rounds from `i` on, and the answers that
-- its messages tell.
unfoldable pub correct_all : Hamming → (n i : ℕ) → (buf : Ptr) → Bytes → List ℕ × Bytes
correct_all h zero i buf m = ([], m)
correct_all h (suc n) i buf m =
    let (rc, m1) =
      h.correct m (buf + i * 256) (buf + page_size + 40 + i * 3) (h.compute m (buf + i * 256)) in
    let (rcs, m2) = correct_all h n (i + 1) buf m1 in (rc ∷ rcs, m2)

-- `nand_read_page`
unfoldable pub read_page :
    Hamming → ℕ → (page : ℕ) → (buf : Ptr) → Bytes → Bus → Option (List ℕ × Bytes × Bus)
unfolding read_raw correct_all
read_page h f page buf m b =
    Option.map (λ r. let (rcs, m') = correct_all h 8 0 buf (r.0) in (rcs, m', r.1))
      (read_raw f page buf m b)
