-- ===== src/Nand/Program.antt =====
-- What `nand_write_sector` and `nand_erase` send to the chip.
use ertos.Nand.Signals.{as_address}
use mathlib.Core.Option
use mathlib.Core.Path.{subst}
use ertos.Base.{
  ℕ, zero, suc, ◌+◌, ◌*◌, ◌/◌, ◌%◌, ◌≡◌, ◌∙◌, refl, ap, sym, arith, true, false, Bool, List, [],
  ◌∷◌, Option, some, Ptr, u32_mod,
}
use ertos.CString.{Bytes, bytes}
use ertos.Nand.{
  Bus, Strobe, wrote, got, Hamming, wait_ready, put_bytes, put, put_page, put_col, put_ecc,
  random_data_input, select, set_ale, set_cle, cmd, finish, read_status, get, deselect,
  write_sector, erase, page_size, pages_per_block,
}
use ertos.Nand.Signals.{
  idle, as_data, command, page_address, col_address, stream, after, after-stream, IsReady, waiting,
  after-waiting, wait_ready-Waited,
}

put_bytes_log :
    (n kept : ℕ) (m : Bytes) (p : Ptr) (b : Bus)
    → b.ctrl ≡ as_data kept
    → put_bytes n m p b ≡ record b { log = after (stream kept (bytes m p n) []) b.log }
unfolding put_bytes put
put_bytes_log zero kept m p b c = refl
put_bytes_log (suc n) kept m p b c =
    put_bytes_log n kept m (p + 1) (put (m p) b) c
    ∙ ap
        (λ c. record b {
          log = after (stream kept (bytes m (p + 1) n) []) (wrote c (m p % 256) ∷ b.log);
        })
        c

-- The sequence that erases the block of a page.
abbrev pub erasure : (kept page : ℕ) → List Strobe
erasure kept page = command kept 0x60 (page_address kept page (command kept 0xD0 []))

-- The sequence that programs a sector: its data, and behind it, in the spare area of the page,
-- the two codes.
abbrev pub programming : (kept page sect : ℕ) → List ℕ → (ecc1 ecc2 : ℕ × ℕ × ℕ) → List Strobe
programming kept page sect block (x1, y1, z1) (x2, y2, z2) = command kept 0x80 (
    col_address kept (sect * 512) (
      page_address kept page (
        stream kept block (
          command kept 0x85 (
            col_address kept (page_size + 40 + sect * 6)
              (stream kept (x1 ∷ y1 ∷ z1 ∷ x2 ∷ y2 ∷ z2 ∷ []) (command kept 0x10 [])))))))

-- What a programming function leaves behind that has sent the strobes, then has looked at the busy
-- line until the chip was ready, and then has read the status.
pub record Done (b : Bus) (kept : ℕ) (sent : List Strobe) (r : Option (ℕ × Bus)) : Type 0 where
  pub end : Bus
  pub looks : ℕ
  pub eq : r ≡ some (b.answers b.reads, end)
  pub log :
      end.log
      ≡ after
          (waiting looks (command kept 0x70 (got (as_data kept) (b.answers b.reads) ∷ [])))
          (after sent b.log)
  pub ctrl : end.ctrl ≡ idle false kept

-- Behind the wait.
finish-Done :
    (f : ℕ) (b : Bus) (kept : ℕ) (sent : List Strobe)
    → IsReady f b
    → Done b kept sent (
        Option.map finish (wait_ready f (record b { ctrl = as_data kept; log = after sent b.log })))
unfolding finish read_status cmd set_cle put get deselect
finish-Done f b kept sent r =
    let b1 : Bus = record b { ctrl = as_data kept; log = after sent b.log } in
    let w = wait_ready-Waited f b1 (record { look = r.look; ready = r.ready; soon = r.soon }) in
    record {
      end = (finish (record b1 { polls = w.polls; log = after (waiting w.looks []) b1.log })).1;
      looks = w.looks;
      eq = ap (Option.map finish) w.eq;
      log = sym (
          after-waiting w.looks (command kept 0x70 (got (as_data kept) (b.answers b.reads) ∷ []))
            (after sent b.log));
      ctrl = refl;
    }

erase_idle :
    (f : ℕ) (b : Bus) (nce : Bool) (kept block : ℕ)
    → IsReady f b
    → Done
        (record b { ctrl = idle nce kept })
        kept
        (erasure kept (block * pages_per_block % u32_mod))
        (erase f block (record b { ctrl = idle nce kept }))
unfolding erase select set_ale set_cle cmd put
erase_idle f b nce kept block r =
    finish-Done f (record b { ctrl = idle nce kept }) kept
      (erasure kept (block * pages_per_block % u32_mod))
      (record { look = r.look; ready = r.ready; soon = r.soon })

-- With a chip that gets ready in time, `nand_erase` ends, for a bus whose latch enables are off: it
-- sends the erase command, the address of the block's first page, modulo 2^32 and in three bytes,
-- and the confirmation; it looks at the busy line until that shows a chip that is ready, and only
-- then it asks for the status, which it returns. The chip is deselected behind it.
pub erase-Done :
    (f : ℕ) (b : Bus) (nce : Bool) (kept block : ℕ)
    → b.ctrl ≡ idle nce kept
    → IsReady f b
    → Done b kept (erasure kept (block * pages_per_block % u32_mod)) (erase f block b)
erase-Done f b nce kept block c r =
    subst
      (λ c.
        Done (record b { ctrl = c }) kept (erasure kept (block * pages_per_block % u32_mod))
          (erase f block (record b { ctrl = c })))
      (sym c) (erase_idle f b nce kept block r)

-- The address part of `nand_write_sector`.
abbrev addressed : (kept page sect : ℕ) → List Strobe → List Strobe
addressed kept page sect rest =
    command kept 0x80 (col_address kept (sect * 512) (page_address kept page rest))

abbrev coded : (kept sect : ℕ) → (ecc1 ecc2 : ℕ × ℕ × ℕ) → List Strobe
coded kept sect (x1, y1, z1) (x2, y2, z2) = command kept 0x85 (
    col_address kept (page_size + 40 + sect * 6)
      (stream kept (x1 ∷ y1 ∷ z1 ∷ x2 ∷ y2 ∷ z2 ∷ []) (command kept 0x10 [])))

unfoldable start_sector : (page sect : ℕ) → Bus → Bus
unfolding select cmd set_ale put_col put_page put set_cle
start_sector page sect b =
    set_ale false (put_page 3 page (put_col (sect * 512) (set_ale true (cmd 0x80 (select b)))))

unfoldable end_sector : (sect : ℕ) → (ecc1 ecc2 : ℕ × ℕ × ℕ) → Bus → Bus
unfolding random_data_input put_ecc cmd set_cle put put_col set_ale
end_sector sect ecc1 ecc2 b =
    cmd 0x10 (put_ecc ecc2 (put_ecc ecc1 (random_data_input (page_size + 40 + sect * 6) b)))

start_sector_lem :
    (page sect kept : ℕ) (nce : Bool) (b : Bus)
    → start_sector page sect (record b { ctrl = idle nce kept })
      ≡ record b { ctrl = as_data kept; log = after (addressed kept page sect []) b.log }
unfolding start_sector
start_sector_lem page sect kept nce b =
    ap
      (λ (x : ℕ). record b {
        ctrl = as_data kept;
        log =
            wrote (as_address kept) (x % 256)
            ∷ after
                (command kept 0x80 (
                  col_address kept (sect * 512) (
                    wrote (as_address kept) (page % 256)
                    ∷ wrote (as_address kept) (page / 256 % 256)
                    ∷ [])))
                b.log;
      })
      thirds
  where
    thirds : page / 256 / 256 ≡ page / 65536
    thirds = omega arith

end_sector_lem :
    (sect kept : ℕ) (ecc1 ecc2 : ℕ × ℕ × ℕ) (b : Bus)
    → end_sector sect ecc1 ecc2 (record b { ctrl = as_data kept })
      ≡ record b { ctrl = as_data kept; log = after (coded kept sect ecc1 ecc2) b.log }
unfolding end_sector
end_sector_lem sect kept (x1, y1, z1) (x2, y2, z2) b = refl

sector_lem :
    (n page sect kept : ℕ) (nce : Bool) (ecc1 ecc2 : ℕ × ℕ × ℕ) (m : Bytes) (buf : Ptr) (b : Bus)
    → end_sector sect ecc1 ecc2
        (put_bytes n m buf (start_sector page sect (record b { ctrl = idle nce kept })))
      ≡ record b {
        ctrl = as_data kept;
        log = after (programming kept page sect (bytes m buf n) ecc1 ecc2) b.log;
      }
sector_lem n page sect kept nce ecc1 ecc2 m buf b =
    let started = after (addressed kept page sect []) b.log in
    let b1 : Bus = record b { ctrl = as_data kept; log = started } in
    let b2 : Bus = record b1 { log = after (stream kept (bytes m buf n) []) started } in
    ap (λ x. end_sector sect ecc1 ecc2 (put_bytes n m buf x))
      (start_sector_lem page sect kept nce b)
    ∙ ap (end_sector sect ecc1 ecc2) (put_bytes_log n kept m buf b1 refl)
    ∙ end_sector_lem sect kept ecc1 ecc2 b2
    ∙ ap (λ log. record b { ctrl = as_data kept; log = log })
        (sym (after-stream kept (bytes m buf n) (coded kept sect ecc1 ecc2) started))

write_sector_idle :
    (h : Hamming) (f page sect : ℕ) (m : Bytes) (buf : Ptr) (b : Bus) (nce : Bool) (kept : ℕ)
    → IsReady f b
    → Done
        (record b { ctrl = idle nce kept })
        kept
        (programming kept page sect (bytes m buf 512) (h.compute m buf) (h.compute m (buf + 256)))
        (write_sector h f page sect m buf (record b { ctrl = idle nce kept }))
unfolding write_sector start_sector end_sector
write_sector_idle h f page sect m buf b nce kept r =
    subst
      (λ b1.
        Done (record b { ctrl = idle nce kept }) kept
          (programming kept page sect (bytes m buf 512) (h.compute m buf) (h.compute m (buf + 256)))
          (Option.map finish (wait_ready f b1)))
      (sym (sector_lem 512 page sect kept nce (h.compute m buf) (h.compute m (buf + 256)) m buf b))
      (finish-Done f (record b { ctrl = idle nce kept }) kept
        (programming kept page sect (bytes m buf 512) (h.compute m buf) (h.compute m (buf + 256)))
        (record { look = r.look; ready = r.ready; soon = r.soon }))

-- With a chip that gets ready in time, `nand_write_sector` ends, for a bus whose latch enables are
-- off: it sends the program command, the sector's column, the page in three bytes, the 512 bytes of
-- the buffer, and behind them, at byte 40 + 6 * `sect` of the spare area, the codes of the buffer's
-- two halves; it confirms, looks at the busy line until that shows a chip that is ready, and only
-- then it asks for the status, which it returns. The chip is deselected behind it.
pub write_sector-Done :
    (h : Hamming) (f page sect : ℕ) (m : Bytes) (buf : Ptr) (b : Bus) (nce : Bool) (kept : ℕ)
    → b.ctrl ≡ idle nce kept
    → IsReady f b
    → Done b kept
        (programming kept page sect (bytes m buf 512) (h.compute m buf) (h.compute m (buf + 256)))
        (write_sector h f page sect m buf b)
write_sector-Done h f page sect m buf b nce kept c r =
    subst
      (λ c.
        Done (record b { ctrl = c }) kept
          (programming kept page sect (bytes m buf 512) (h.compute m buf) (h.compute m (buf + 256)))
          (write_sector h f page sect m buf (record b { ctrl = c })))
      (sym c) (write_sector_idle h f page sect m buf b nce kept r)
