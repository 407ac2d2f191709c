-- ===== src/EthRx/Order.antt =====
-- The receive task ends a round, and takes the frames in the reverse order of their arrival.
use ertos.Base.{length-reverse}
use mathlib.Core.Option
use mathlib.Core.List.{reverse, reverse-cons, append-nil, append_assoc}
use ertos.Base.{
  ℕ, zero, suc, ◌≡◌, ◌<◌, ◌∙◌, refl, sym, ap, Ptr, List, [], ◌∷◌, ◌++◌, Option, none, some, arith,
  length, write,
}
use ertos.Net.{Net}
use ertos.Eth
use ertos.EthRx.{handle, take, drain}
use ertos.EthRx.Handlers.{handle-SameRx}

-- The frames of a list handled one after the other.
pub process : ℕ → Ptr → List Ptr → Net → Option Net
process f d [] n = some n
process f d (p ∷ ps) n = Option.bind (handle f (take n d ps) d p) λ n'. process f d ps n'

-- The frames of a list, received one after the other.
pub rx_all : Net → Ptr → List Ptr → Net
rx_all n d [] = n
rx_all n d (p ∷ ps) = rx_all (Eth.rx n d p) d ps

bind_cong {ℓ κ} :
    {A : Type ℓ} {B : Type κ} (o : Option A) (g h : A → Option B)
    → ((x : A) → o ≡ some x → g x ≡ h x)
    → Option.bind o g ≡ Option.bind o h
unfolding Option.bind
bind_cong none g h k = refl
bind_cong (some x) g h k = k x refl

take_queue : (n : Net) (d : Ptr) (ps : List Ptr) → ((take n d ps).eth d).rx_queue ≡ ps
unfolding write
take_queue n d ps = ground arith

handled_queue :
    (f : ℕ) (n n' : Net) (d p : Ptr) (ps : List Ptr)
    → handle f (take n d ps) d p ≡ some n'
    → (n'.eth d).rx_queue ≡ ps
handled_queue f n n' d p ps e = (rw e at (handle-SameRx f (take n d ps) d p)) d ∙ take_queue n d ps

drain_empty : (r f : ℕ) (n : Net) (d : Ptr) → (n.eth d).rx_queue ≡ [] → drain (suc r) f n d ≡ some n
unfolding drain
drain_empty r f n d q = rw (q, drain)

drain_first :
    (r f : ℕ) (n : Net) (d p : Ptr) (ps : List Ptr)
    → (n.eth d).rx_queue ≡ p ∷ ps
    → drain (suc r) f n d ≡ Option.bind (handle f (take n d ps) d p) (λ n'. drain r f n' d)
unfolding drain
drain_first r f n d p ps q = rw (q, drain)

drain-process :
    (ps : List Ptr) (rounds f : ℕ) (n : Net) (d : Ptr)
    → (n.eth d).rx_queue ≡ ps
    → length ps < rounds
    → drain rounds f n d ≡ process f d ps n
unfolding process
drain-process ps zero f n d q h = elim h [ ]
drain-process [] (suc r) f n d q h = drain_empty r f n d q
drain-process (p ∷ ps) (suc r) f n d q h =
    drain_first r f n d p ps q
    ∙ (bind_cong (handle f (take n d ps) d p) _ _
        λ n' e. drain-process ps r f n' d (handled_queue f n n' d p ps e) (omega (arith, h)))

rx_queue : (n : Net) (d p : Ptr) → ((Eth.rx n d p).eth d).rx_queue ≡ p ∷ (n.eth d).rx_queue
unfolding Eth.rx write
rx_queue n d p = ground arith

rx_all-queue :
    (ps : List Ptr) (n : Net) (d : Ptr)
    → ((rx_all n d ps).eth d).rx_queue ≡ reverse ps ++ (n.eth d).rx_queue
unfolding rx_all
rx_all-queue [] n d = refl
rx_all-queue (p ∷ ps) n d =
    rx_all-queue ps (Eth.rx n d p) d
    ∙ ap (λ xs. reverse ps ++ xs) (rx_queue n d p)
    ∙ sym (append_assoc (reverse ps) (p ∷ []) (n.eth d).rx_queue)
    ∙ ap (λ xs. xs ++ (n.eth d).rx_queue) (sym (reverse-cons p ps))

-- Frames that arrive on an interface whose queue is empty: the next drain of the queue handles them
-- all and no other, but from the last one that arrived to the first. One round more than there are
-- frames is enough, whatever the frames hold, unless a handler does not return.
pub drain_last_first :
    (ps : List Ptr) (rounds f : ℕ) (n : Net) (d : Ptr)
    → (n.eth d).rx_queue ≡ []
    → length ps < rounds
    → drain rounds f (rx_all n d ps) d ≡ process f d (reverse ps) (rx_all n d ps)
drain_last_first ps rounds f n d q h =
    drain-process (reverse ps) rounds f (rx_all n d ps) d
      (rx_all-queue ps n d ∙ ap (λ xs. reverse ps ++ xs) q ∙ append-nil (reverse ps))
      (omega (arith, length-reverse ps, h))
