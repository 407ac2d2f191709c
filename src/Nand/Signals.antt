-- ===== src/Nand/Signals.antt =====
-- What the chip sees: commands, addresses and data, and the wait for it.
use ertos.Base.{Option}
use ertos.Base.{
  ℕ, zero, suc, ◌+◌, ◌≡◌, ◌<◌, ◌∙◌, refl, ap, arith, Bool, Bool-cases, inl, inr, true, false, List,
  [], ◌∷◌, ◌%◌, ◌/◌, some,
}
use ertos.Nand.{Bus, Ctrl, Strobe, wrote, looked, wait_ready}

-- The control lines between commands.
abbrev pub idle : (nce : Bool) (kept : ℕ) → Ctrl
idle nce kept = record { ale = false; cle = false; nce = nce; kept = kept }

-- The lines of a command, of an address, and of data, with the chip enabled.
abbrev pub as_command : (kept : ℕ) → Ctrl
as_command kept = record { ale = false; cle = true; nce = true; kept = kept }

abbrev pub as_address : (kept : ℕ) → Ctrl
as_address kept = record { ale = true; cle = false; nce = true; kept = kept }

abbrev pub as_data : (kept : ℕ) → Ctrl
as_data kept = idle true kept

-- Strobes that follow a log, in their order.
abbrev pub after : List Strobe → List Strobe → List Strobe
after [] log = log
after (s ∷ ss) log = after ss (s ∷ log)

-- The strobes of a command, of a page's address, of a column, and of data, in front of others.
abbrev pub command : (kept c : ℕ) → List Strobe → List Strobe
command kept c rest = wrote (as_command kept) c ∷ rest

abbrev pub page_address : (kept page : ℕ) → List Strobe → List Strobe
page_address kept page rest =
    wrote (as_address kept) (page % 256)
    ∷ (wrote (as_address kept) (page / 256 % 256)
        ∷ (wrote (as_address kept) (page / 65536 % 256) ∷ rest))

abbrev pub col_address : (kept col : ℕ) → List Strobe → List Strobe
col_address kept col rest =
    wrote (as_address kept) (col % 256) ∷ (wrote (as_address kept) (col / 256 % 256) ∷ rest)

abbrev pub stream : (kept : ℕ) → List ℕ → List Strobe → List Strobe
stream kept [] rest = rest
stream kept (x ∷ xs) rest = wrote (as_data kept) (x % 256) ∷ stream kept xs rest

pub after-stream :
    (kept : ℕ) (xs : List ℕ) (rest log : List Strobe)
    → after (stream kept xs rest) log ≡ after rest (after (stream kept xs []) log)
after-stream kept [] rest log = refl
after-stream kept (x ∷ xs) rest log =
    after-stream kept xs rest (wrote (as_data kept) (x % 256) ∷ log)

-- The chip is ready within `f` looks.
pub record IsReady (f : ℕ) (b : Bus) : Type 0 where
  pub look : ℕ
  pub ready : b.busy (b.polls + look) ≡ false
  pub soon : look < f

-- The looks of a wait, `k` of them at a busy chip, in front of other strobes.
abbrev pub waiting : (k : ℕ) → List Strobe → List Strobe
waiting zero rest = looked false ∷ rest
waiting (suc k) rest = looked true ∷ waiting k rest

pub after-waiting :
    (k : ℕ) (rest log : List Strobe)
    → after (waiting k rest) log ≡ after rest (after (waiting k []) log)
after-waiting zero rest log = refl
after-waiting (suc k) rest log = after-waiting k rest (looked true ∷ log)

-- A wait that has ended: it looked at the busy line until that showed a chip that is ready, and
-- did nothing else.
pub record Waited (b : Bus) (r : Option Bus) : Type 0 where
  pub looks : ℕ
  pub polls : ℕ
  pub eq : r ≡ some (record b { polls = polls; log = after (waiting looks []) b.log })

wait_ready_on :
    (f : ℕ) (b : Bus)
    → b.busy b.polls ≡ true
    → wait_ready (suc f) b
      ≡ wait_ready f (record b { polls = suc b.polls; log = looked true ∷ b.log })
unfolding wait_ready
wait_ready_on f b h = rw h refl

wait_ready_stop :
    (f : ℕ) (b : Bus)
    → b.busy b.polls ≡ false
    → wait_ready (suc f) b ≡ some (record b { polls = suc b.polls; log = looked false ∷ b.log })
unfolding wait_ready
wait_ready_stop f b h = rw h refl

wait_ready_within :
    (k f : ℕ) (b : Bus) → b.busy (b.polls + k) ≡ false → k < f → Waited b (wait_ready f b)
wait_ready_within k zero b h lt = elim lt [ ]
wait_ready_within zero (suc f) b h lt = record {
  looks = 0;
  polls = suc b.polls;
  eq = wait_ready_stop f b (ap (λ n. b.busy n) (omega arith) ∙ h);
}
wait_ready_within (suc k) (suc f) b h lt = elim (Bool-cases (b.busy b.polls)) [
  | inl busy ↦
      let w =
        wait_ready_within k f (record b { polls = suc b.polls; log = looked true ∷ b.log })
          (ap (λ n. b.busy n) (omega arith) ∙ h) (omega (arith, lt)) in
      record { looks = suc w.looks; polls = w.polls; eq = wait_ready_on f b busy ∙ w.eq }
  | inr free ↦ record { looks = 0; polls = suc b.polls; eq = wait_ready_stop f b free }
]

-- The wait ends if the chip gets ready in time.
pub wait_ready-Waited : (f : ℕ) (b : Bus) → IsReady f b → Waited b (wait_ready f b)
wait_ready-Waited f b r = wait_ready_within r.look f b r.ready r.soon
