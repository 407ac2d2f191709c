-- ===== src/Irq/Slots.antt =====
-- Which vectors `register_irq_handler` can fill.
use ertos.Base.{plus_zero, zero_plus, plus_suc}
use ertos.Irq.{int_enable}
use ertos.Base.Int.{ok}
use ertos.Base.{bit_or}
use ertos.Base.{
  ℕ, zero, suc, ◌+◌, ◌*◌, ◌≡◌, ◌≢◌, ◌≤◌, ◌<◌, ◌∙◌, refl, sym, ap, Ptr, null, Bool, Store, write,
  write_ne, write_self, arith, some,
}
use ertos.Irq.{Irqs, Bank, bank, bank_of, claim, selected, register_on, register_irq_handler}

-- Below the vector it starts at, the search changes nothing.
claim_same :
    (n i : ℕ) (b : Bank) (irq handler : ℕ) (regs : Store ℕ) (a : Ptr)
    → a < b.addr + 16 * i
    → b.addr < b.ctrl
    → (claim n i b irq handler regs).1 a ≡ regs a
unfolding claim write
claim_same zero i b irq handler regs a h lt = refl
claim_same (suc n) i b irq handler regs a h lt =
    ground (arith, claim_same n (i + 1) b irq handler regs a (omega (arith, h)) lt)

claim_taken :
    (n i : ℕ) (b : Bank) (irq handler : ℕ) (regs : Store ℕ)
    → regs (b.addr + 16 * i) ≢ null
    → claim (suc n) i b irq handler regs ≡ claim n (i + 1) b irq handler regs
unfolding claim
claim_taken n i b irq handler regs h = ground (arith, h)

claim_four :
    (b : Bank) (irq handler : ℕ) (regs : Store ℕ)
    → ((i : ℕ) → i < 4 → regs (b.addr + 16 * i) ≢ null)
    → claim 16 0 b irq handler regs ≡ claim 12 4 b irq handler regs
claim_four b irq handler regs h =
    claim_taken 15 0 b irq handler regs (h 0 (omega arith))
    ∙ claim_taken 14 1 b irq handler regs (h 1 (omega arith))
    ∙ claim_taken 13 2 b irq handler regs (h 2 (omega arith))
    ∙ claim_taken 12 3 b irq handler regs (h 3 (omega arith))

-- The write to the select register leaves the vectors alone.
kept : (w : Irqs) (base v a : ℕ) → base + 0x100 ≤ a → write w.regs (base + 0xC) v a ≡ w.regs a
kept w base v a h = write_ne w.regs (base + 0xC) a v (omega (arith, h))

-- Where four handlers of a controller stand in the vectors 0, 4, 8 and 12, which are the ones that
-- the search looks at, a fifth one is in no vector, whatever `register_irq_handler` returns: none
-- of the 16 vector address registers is changed.
pub register_fifth :
    (w : Irqs) (irq n base : ℕ) (handler : Ptr) (fast : Bool)
    → bank_of irq ≡ some (n, bank base)
    → ((i : ℕ) → i < 4 → w.regs (base + 0x100 + 16 * i) ≢ null)
    → (j : ℕ) → j < 16
    → (register_irq_handler w irq handler fast).1.regs (base + 0x100 + 4 * j)
      ≡ w.regs (base + 0x100 + 4 * j)
unfolding register_irq_handler register_on
register_fifth w irq n base handler fast e h j lt =
    let b = bank base in
    let regs1 = write w.regs b.sel (selected fast n (w.regs b.sel)) in
    let a = base + 0x100 + 4 * j in
    ap (λ o. (register_on w o handler fast).1.regs a) e
    ∙ ap (λ r. r.1 a)
        (claim_four b n handler regs1 (λ i le z. h i le (
          sym (kept w base (selected fast n (w.regs b.sel)) (base + 0x100 + 16 * i) (omega arith))
          ∙ z)))
    ∙ claim_same 12 4 b n handler regs1 a (omega (arith, lt)) (omega arith)
    ∙ kept w base (selected fast n (w.regs b.sel)) a (omega arith)

-- The registers once vector `i` is given out.
abbrev given : Bank → (irq handler i : ℕ) → Store ℕ → Store ℕ
given b irq handler i regs =
    write (write regs (b.addr + 16 * i) handler) (b.ctrl + 16 * i) (bit_or irq int_enable)

claim_open :
    (n i : ℕ) (b : Bank) (irq handler : ℕ) (regs : Store ℕ)
    → regs (b.addr + 16 * i) ≡ null
    → claim (suc n) i b irq handler regs ≡ (ok, given b irq handler i regs)
unfolding claim
claim_open n i b irq handler regs h = rw h refl

claim_finds :
    (k n i : ℕ) (b : Bank) (irq handler : ℕ) (regs : Store ℕ)
    → k < n
    → ((j : ℕ) → j < k → regs (b.addr + 16 * (i + j)) ≢ null)
    → regs (b.addr + 16 * (i + k)) ≡ null
    → claim n i b irq handler regs ≡ (ok, given b irq handler (i + k) regs)
claim_finds k zero i b irq handler regs lt taken h = elim lt [ ]
claim_finds zero (suc n) i b irq handler regs lt taken h =
    claim_open n i b irq handler regs (ap (λ j. regs (b.addr + 16 * j)) (sym (plus_zero i)) ∙ h)
    ∙ ap (λ j. (ok, given b irq handler j regs)) (sym (plus_zero i))
claim_finds (suc k) (suc n) i b irq handler regs lt taken h =
    claim_taken n i b irq handler regs
      (λ z. taken 0 (omega arith) (ap (λ j. regs (b.addr + 16 * j)) (plus_zero i) ∙ z))
    ∙ claim_finds k n (i + 1) b irq handler regs (omega (arith, lt))
        (λ j le z.
          taken (suc j) (omega (arith, le)) (ap (λ x. regs (b.addr + 16 * x)) (plus_suc i j) ∙ z))
        (ap (λ x. regs (b.addr + 16 * x)) (sym (plus_suc i k)) ∙ h)
    ∙ ap (λ j. (ok, given b irq handler j regs)) (sym (plus_suc i k))

slot_kept :
    (w : Irqs) (base v i : ℕ)
    → write w.regs (base + 0xC) v (base + 0x100 + 16 * (0 + i)) ≡ w.regs (base + 0x100 + 16 * i)
slot_kept w base v i =
    ap (λ j. write w.regs (base + 0xC) v (base + 0x100 + 16 * j)) (zero_plus i)
    ∙ kept w base v (base + 0x100 + 16 * i) (omega arith)

given_handler :
    (b : Bank) (irq handler i : ℕ) (regs : Store ℕ)
    → b.addr < b.ctrl
    → given b irq handler i regs (b.addr + 16 * i) ≡ handler
given_handler b irq handler i regs lt =
    write_ne (write regs (b.addr + 16 * i) handler) (b.ctrl + 16 * i) (b.addr + 16 * i)
      (bit_or irq int_enable) (omega (arith, lt))
    ∙ write_self regs (b.addr + 16 * i) handler

-- The first word that reads 0, of the sixteen that are looked at, takes the handler and is enabled
-- for the interrupt's number, and the result is 0.
pub register_first :
    (w : Irqs) (irq n base k : ℕ) (handler : Ptr) (fast : Bool)
    → bank_of irq ≡ some (n, bank base)
    → k < 16
    → ((i : ℕ) → i < k → w.regs (base + 0x100 + 16 * i) ≢ null)
    → w.regs (base + 0x100 + 16 * k) ≡ null
    → let (rc, w') = register_irq_handler w irq handler fast in
      (rc ≡ ok)
      × (w'.regs (base + 0x100 + 16 * k) ≡ handler)
      × (w'.regs (base + 0x200 + 16 * k) ≡ bit_or n int_enable)
unfolding register_irq_handler register_on
register_first w irq n base k handler fast e lt taken h =
    let b = bank base in
    let v = selected fast n (w.regs b.sel) in
    let regs1 = write w.regs b.sel v in
    let found =
      claim_finds k 16 0 b n handler regs1 lt
        (λ i le z. taken i le (sym (slot_kept w base v i) ∙ z)) (slot_kept w base v k ∙ h) in
    let done = found ∙ ap (λ j. (ok, given b n handler j regs1)) (zero_plus k) in
    (
      ap (λ o. (register_on w o handler fast).0) e ∙ ap (λ r. r.0) done,
      ap (λ o. (register_on w o handler fast).1.regs (base + 0x100 + 16 * k)) e
          ∙ ap (λ r. r.1 (base + 0x100 + 16 * k)) done
          ∙ given_handler b n handler k regs1 (omega arith),
      ap (λ o. (register_on w o handler fast).1.regs (base + 0x200 + 16 * k)) e
          ∙ ap (λ r. r.1 (base + 0x200 + 16 * k)) done
          ∙ write_self (write regs1 (base + 0x100 + 16 * k) handler) (base + 0x200 + 16 * k)
              (bit_or n int_enable),
    )
