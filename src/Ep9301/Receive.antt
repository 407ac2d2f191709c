-- ===== src/Ep9301/Receive.antt =====
-- The statuses that `process_rx_queue` gets through.
use ertos.Base.{
  ℕ, zero, suc, ◌+◌, ◌%◌, ◌≡◌, ◌≢◌, ◌≤◌, ◌<◌, ◌∙◌, refl, sym, ap, arith, true, false, ltb, ◌==◌,
  ◌||◌, u32_mod,
}
use mathlib.Core.Path.{subst}
use ertos.Ep9301.{Nic, RxSts, rx_body, rx_loop, step, process_rx_queue}

-- The frame is too short or too long.
abbrev pub IsBad : RxSts → Type 0
IsBad s = (ltb s.frame_length 60 || ltb 1518 s.frame_length) ≡ true

abbrev pub IsFit : RxSts → Type 0
IsFit s = (ltb s.frame_length 60 || ltb 1518 s.frame_length) ≡ false

-- `n` rounds have counted the same status.
pub record Stuck (n : ℕ) (c c' : Nic) : Type 0 where
  pub last : c'.rx_last ≡ c.rx_last
  pub net : c'.net ≡ c.net
  pub sts : c'.rx_sts ≡ c.rx_sts
  pub given : c'.rx_given ≡ c.rx_given
  pub frames : c'.stats.rx_frames % u32_mod ≡ (c.stats.rx_frames + n) % u32_mod
  pub refused :
      (c'.stats.runts + c'.stats.oversized) % u32_mod
      ≡ (c.stats.runts + c.stats.oversized + n) % u32_mod

rx_body-Stuck : (c : Nic) → IsBad (c.rx_sts c.rx_last) → Stuck 1 c (rx_body c)
unfolding rx_body
rx_body-Stuck c bad = record {
  last = ground (arith, bad);
  net = ground (arith, bad);
  sts = ground (arith, bad);
  given = ground (arith, bad);
  frames = ground (arith, bad);
  refused = ground (arith, bad);
}

-- A round that does not get to `cur`.
pub rx_loop_on :
    (left cur : ℕ) (c : Nic)
    → ((rx_body c).rx_last == cur) ≡ false
    → rx_loop (suc left) cur c
      ≡ ((rx_loop left cur (rx_body c)).0 + 1, (rx_loop left cur (rx_body c)).1)
unfolding rx_loop
rx_loop_on left cur c h = ground (arith, h)

rx_loop_end :
    (left cur : ℕ) (c : Nic)
    → ((rx_body c).rx_last == cur) ≡ true
    → rx_loop (suc left) cur c ≡ (1, rx_body c)
unfolding rx_loop
rx_loop_end left cur c h = ground (arith, h)

rx_loop_zero : (cur : ℕ) (c : Nic) → rx_loop 0 cur c ≡ (0, c)
unfolding rx_loop
rx_loop_zero cur c = refl

unstuck : (c c' : Nic) → c' ≡ c → Stuck 0 c c'
unstuck c c' e = record {
  last = ap (λ (c : Nic). c.rx_last) e;
  net = ap (λ (c : Nic). c.net) e;
  sts = ap (λ (c : Nic). c.rx_sts) e;
  given = ap (λ (c : Nic). c.rx_given) e;
  frames = ap (λ (c : Nic). c.stats.rx_frames % u32_mod) e ∙ omega arith;
  refused = ap (λ (c : Nic). (c.stats.runts + c.stats.oversized) % u32_mod) e ∙ omega arith;
}

same_status :
    (c c1 : Nic)
    → c1.rx_sts ≡ c.rx_sts
    → c1.rx_last ≡ c.rx_last
    → IsBad (c.rx_sts c.rx_last)
    → IsBad (c1.rx_sts c1.rx_last)
same_status c c1 s l bad = subst IsBad (ap (λ f. f c.rx_last) (sym s) ∙ ap c1.rx_sts (sym l)) bad

pub not_there : (i j : ℕ) → i ≢ j → (i == j) ≡ false
not_there i j h = ground (arith, h)

pub rx_loop-Stuck :
    (left cur : ℕ) (c : Nic)
    → IsBad (c.rx_sts c.rx_last)
    → c.rx_last ≢ cur
    → ((rx_loop left cur c).0 ≡ left) × Stuck left c (rx_loop left cur c).1
rx_loop-Stuck zero cur c bad ne = (
  ap (λ r. r.0) (rx_loop_zero cur c),
  unstuck c (rx_loop 0 cur c).1 (ap (λ r. r.1) (rx_loop_zero cur c)),
)
rx_loop-Stuck (suc left) cur c bad ne =
    let b = rx_body-Stuck c bad in
    let c1 = rx_body c in
    let bad1 : IsBad (c1.rx_sts c1.rx_last) = same_status c c1 b.sts b.last bad in
    let (q, r) = rx_loop-Stuck left cur c1 bad1 (λ e. ne (sym b.last ∙ e)) in
    rw (rx_loop_on left cur c (not_there c1.rx_last cur (λ e. ne (sym b.last ∙ e)))) (
      omega (arith, q),
      record {
        last = r.last ∙ b.last;
        net = r.net ∙ b.net;
        sts = r.sts ∙ b.sts;
        given = r.given ∙ b.given;
        frames = omega (arith, r.frames, b.frames);
        refused = omega (arith, r.refused, b.refused);
      },
    )

-- `n` rounds have got through as many statuses, to `cur`.
pub record Through (n cur : ℕ) (c : Nic) (r : ℕ × Nic) : Type 0 where
  pub rounds : r.0 ≡ n
  pub last : r.1.rx_last ≡ cur
  pub given : r.1.rx_given ≡ c.rx_given
  pub frames : r.1.stats.rx_frames % u32_mod ≡ (c.stats.rx_frames + n) % u32_mod

pub fit_body :
    (c : Nic)
    → IsFit (c.rx_sts c.rx_last)
    → let c1 = rx_body c in
      (c1.rx_last ≡ step c.rx_last)
      × (c1.rx_sts ≡ c.rx_sts)
      × (c1.rx_given ≡ c.rx_given)
      × (c1.stats.rx_frames ≡ (c.stats.rx_frames + 1) % u32_mod)
unfolding rx_body
fit_body c fit =
    (ground (arith, fit), ground (arith, fit), ground (arith, fit), ground (arith, fit))

pub step_lem : (i : ℕ) → i < 64 → step i ≡ (i + 1) % 64
step_lem i h = ground (arith, h)

pub first_index : (i : ℕ) → i < 64 → (i + 0) % 64 ≡ i
first_index i h = omega (arith, h)

there : (i j : ℕ) → i ≡ j → (i == j) ≡ true
there i j h = ground (arith, h)

apart : (i j k n : ℕ) → suc n < 64 → j ≡ (i + 1) % 64 → k ≡ (i + suc (suc n)) % 64 → j ≢ k
apart i j k n h e e' z = omega (arith, h, e, e', z)

pub next_status :
    (c c1 : Nic) (i : ℕ)
    → c1.rx_sts ≡ c.rx_sts
    → c1.rx_last ≡ (c.rx_last + 1) % 64
    → c.rx_sts ((c.rx_last + suc i) % 64) ≡ c1.rx_sts ((c1.rx_last + i) % 64)
next_status c c1 i s l =
    ap c.rx_sts (omega (arith, l)) ∙ ap (λ f. f ((c1.rx_last + i) % 64)) (sym s)

rx_loop-Through :
    (n left cur : ℕ) (c : Nic)
    → n < left
    → n < 64
    → c.rx_last < 64
    → cur ≡ (c.rx_last + suc n) % 64
    → ((i : ℕ) → i < suc n → IsFit (c.rx_sts ((c.rx_last + i) % 64)))
    → Through (suc n) cur c (rx_loop left cur c)
rx_loop-Through n zero cur c lt short l e fit = elim lt [ ]
rx_loop-Through zero (suc left) cur c lt short l e fit =
    let (last, sts, given, frames) =
      fit_body c
        (subst (λ i. IsFit (c.rx_sts i)) (first_index c.rx_last l) (fit 0 (omega arith))) in
    rw (rx_loop_end left cur c (there _ cur (last ∙ step_lem c.rx_last l ∙ sym e))) (record {
      rounds = refl;
      last = last ∙ step_lem c.rx_last l ∙ sym e;
      given = given;
      frames = omega (arith, frames);
    })
rx_loop-Through (suc n) (suc left) cur c lt short l e fit =
    let (last, sts, given, frames) =
      fit_body c
        (subst (λ i. IsFit (c.rx_sts i)) (first_index c.rx_last l) (fit 0 (omega arith))) in
    let at : (rx_body c).rx_last ≡ (c.rx_last + 1) % 64 = last ∙ step_lem c.rx_last l in
    let r =
      rx_loop-Through n left cur (rx_body c) (omega (arith, lt)) (omega (arith, short))
        (omega (arith, at)) (omega (arith, at, e))
        (λ i le.
          subst IsFit (next_status c (rx_body c) i sts at) (fit (suc i) (omega (arith, le)))) in
    rw
      (rx_loop_on left cur c (
        not_there (rx_body c).rx_last cur
          (λ z. apart c.rx_last (rx_body c).rx_last cur n short at e z)))
      (record {
        rounds = omega (arith, r.rounds);
        last = r.last;
        given = r.given ∙ given;
        frames = omega (arith, r.frames, frames);
      })

-- `n` frames of a valid length, from the status that is next up to where the controller is: each is
-- counted once, as many descriptors are given back, and the next status is the controller's.
pub process_rx_queue_all :
    (n cur : ℕ) (c : Nic)
    → 0 < n
    → n ≤ 64
    → c.rx_last < 64
    → cur ≡ (c.rx_last + n) % 64
    → ((i : ℕ) → i < n → IsFit (c.rx_sts ((c.rx_last + i) % 64)))
    → let c' = process_rx_queue cur c in
      (c'.rx_last ≡ cur)
      × (c'.rx_given ≡ c.rx_given + n)
      × (c'.stats.rx_frames % u32_mod ≡ (c.stats.rx_frames + n) % u32_mod)
unfolding process_rx_queue
process_rx_queue_all zero cur c more small l e fit = elim more [ ]
process_rx_queue_all (suc n) cur c more small l e fit =
    let t = rx_loop-Through n 64 cur c small small l e fit in
    (t.last, omega (arith, t.rounds, t.given), t.frames)
