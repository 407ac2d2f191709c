-- ===== src/Mem/Init.antt =====
-- `mem_init`: with room behind the image it succeeds, and the pools it leaves are full, adjacent
-- and ready for `malloc` and `free`.
pub mod Fill
use ertos.Mem.{smalloc_size, pools_size}
use mathlib.Core.List.{append-nil, append_assoc}
use ertos.Base.{
  ℕ, zero, suc, ◌+◌, ◌-◌, ◌*◌, ◌%◌, ◌^◌, ◌≤◌, ◌<◌, ◌≡◌, refl, sym, ap, ◌≢◌, Bool, true, Ptr, null,
  List, [], ◌∷◌, ◌++◌, arith, All, All-append, count, ◌==◌, if◌then◌else◌, ne→==, u32_mod,
}
use mathlib.Core.Path.{subst}
use ertos.Bfifo
use ertos.Bfifo.Valid.{IsValid, fresh-IsValid}
use ertos.Bfifo.Refine.{contents}
use ertos.Mem.{
  Mem, Desc, alloc_num, alloc_steps, desc_size, fsize, heap_total, bare, fresh_desc, init_desc,
  init_descs, fill, fill_all, init,
}
use ertos.Mem.Smalloc.{IsHeap, limit, smalloc_words}
use ertos.Mem.Pools.Chunks.{free_list, IsPool}
use ertos.Mem.Pools.Loops.{IsPools, Homed, Within}
use ertos.Mem.Init.Fill.{Filled, fill-Filled, chunks, chunks-within, chunks-no_null, advance-IsHeap}

-- A pool of `alloc_num` free chunks of `size` bytes at `base`.
pub record PoolAt (base size : ℕ) (d : Desc) : Type 0 where
  pub size_is : d.size ≡ size
  pub start_is : d.start ≡ base
  pub end_is : d.end_ ≡ base + alloc_num * size
  pub fifo : IsValid d.allocations
  pub full : free_list d ≡ chunks base size alloc_num

-- One pool behind the other, with the sizes of the descriptors given.
abbrev pub Built : ℕ → List Desc → List Desc → Type 0
Built base [] [] = Unit
Built base [] (e ∷ es) = ⊥
Built base (d ∷ ds) [] = ⊥
Built base (d ∷ ds) (e ∷ es) = PoolAt base d.size e × Built (base + alloc_num * d.size) ds es

-- The bytes that the pools take.
abbrev pub space : List Desc → ℕ
space [] = 0
space (d ∷ ds) = alloc_num * d.size + space ds

-- A descriptor as the first loop leaves it.
pub record IsBlank (d : Desc) : Type 0 where
  pub words : d.size % 4 ≡ 0
  pub fifo : IsValid d.allocations
  pub empty : free_list d ≡ []
  pub room : d.allocations.free ≡ alloc_num

fill_all-Built :
    (ds : List Desc) (m : Mem)
    → IsHeap m
    → All IsBlank ds
    → space ds ≤ limit m - m.heap_cur
    → let (done, ds', m') = fill_all ds m in
      (done ≡ true) × Built m.heap_cur ds ds' × (m' ≡ record m { heap_cur = m.heap_cur + space ds })
unfolding fill_all
fill_all-Built [] m v b h = ground arith
fill_all-Built (d ∷ ds) m v b h =
    let out = fill alloc_num 0 null d m in
    let filled : Filled alloc_num 0 null d m out =
      fill-Filled alloc_num 0 null d m v b.0.fifo b.0.words (omega arith) (ground arith) in
    let cur : out.3.heap_cur ≡ m.heap_cur + alloc_num * d.size =
      ap (λ (m : Mem). m.heap_cur) filled.heap in
    let v' : IsHeap out.3 =
      subst IsHeap (sym filled.heap) (advance-IsHeap _ v (omega arith) (omega arith)) in
    let ih = fill_all-Built ds out.3 v' b.1 (ground (arith, filled.heap)) in
    let pool : PoolAt m.heap_cur d.size (record (out.2) { end_ = out.1 + out.2.size }) = record {
      size_is = filled.size;
      start_is = filled.start;
      end_is = ground (arith, filled.last, filled.size);
      fifo = filled.fifo;
      full = ground (arith, filled.cut, b.0.empty);
    } in
    rw filled.done (
      ih.0,
      (pool, subst (λ k. Built k ds (fill_all ds out.3).1) cur ih.1),
      ground (arith, ih.2, filled.heap),
    )

-- The descriptors of `n` steps from `i` on, as the first loop leaves them.
pub blanks : ℕ → ℕ → List Desc
blanks zero i = []
blanks (suc n) i = fresh_desc i ∷ blanks n (i + 1)

fresh_desc-IsBlank : (i : ℕ) → IsBlank (fresh_desc i)
unfolding fresh_desc Bfifo.fresh
fresh_desc-IsBlank i = record {
  words = omega arith;
  fifo = fresh-IsValid alloc_num (omega arith);
  empty = refl;
  room = refl;
}

blanks-IsBlank : (n i : ℕ) → All IsBlank (blanks n i)
unfolding blanks
blanks-IsBlank zero i = tt
blanks-IsBlank (suc n) i = (fresh_desc-IsBlank i, blanks-IsBlank n (i + 1))

init_descs-blanks :
    (n i : ℕ) (m : Mem)
    → IsHeap m
    → n * (desc_size + fsize) ≤ limit m - m.heap_cur
    → init_descs n i m ≡ (
      true,
      record m { heap_cur = m.heap_cur + n * (desc_size + fsize); descs = m.descs ++ blanks n i },
    )
unfolding init_descs init_desc blanks
init_descs-blanks zero i m v h = ground (arith, append-nil m.descs)
init_descs-blanks (suc n) i m v h =
    let m1 : Mem = record m { heap_cur = m.heap_cur + desc_size } in
    let v1 = advance-IsHeap desc_size v refl (omega arith) in
    let m2 : Mem = record m1 {
      heap_cur = m1.heap_cur + fsize;
      descs = m.descs ++ (fresh_desc i ∷ []);
    } in
    let v2 : IsHeap m2 = omega arith in
    rw
      (
        smalloc_words desc_size v refl (omega arith),
        smalloc_words fsize v1 refl (omega arith),
        ne→== m.heap_cur 0 (omega arith),
        ne→== m1.heap_cur 0 (omega arith),
        init_descs-blanks n (i + 1) m2 v2 (omega arith),
      )
      (ground (arith, append_assoc m.descs (fresh_desc i ∷ []) (blanks n (i + 1))))

Built-IsPools : (ds es : List Desc) (base : ℕ) → 0 < base → Built base ds es → IsPools es × Homed es
Built-IsPools [] [] base h b = (tt, tt)
Built-IsPools [] (e ∷ es) base h b = absurd b
Built-IsPools (d ∷ ds) [] base h b = absurd b
Built-IsPools (d ∷ ds) (e ∷ es) base h b =
    let rest = Built-IsPools ds es (base + alloc_num * d.size) (omega arith) b.1 in
    let none : count null (free_list e) ≡ 0 =
      rw b.0.full (chunks-no_null base d.size alloc_num h) in
    let inside : All (Within e) (free_list e) =
      rw (b.0.full, b.0.size_is, b.0.start_is, b.0.end_is)
        (chunks-within base d.size alloc_num base _ (omega arith) (omega arith)) in
    ((record { fifo = b.0.fifo; no_null = none }, rest.0), (inside, rest.1))

-- What `mem_init` leaves.
pub record IsReady (s : Ptr) (m : Mem) : Type 0 where
  pub on : m.enabled ≡ true
  pub heap : IsHeap m
  pub pools : IsPools m.descs
  pub homed : Homed m.descs
  pub built : Built (s + alloc_steps * (desc_size + fsize)) (blanks alloc_steps 0) m.descs
  pub left : m.heap_cur + smalloc_size ≡ limit m

IsHeap-fields :
    (m' m : Mem) {ds : List Desc} {b : Bool}
    → m' ≡ m
    → IsHeap m
    → IsHeap (record m' { descs = ds; enabled = b })
IsHeap-fields m' m e v = ground arith

left-fields :
    (m' m : Mem)
    → m' ≡ m
    → m.heap_cur + smalloc_size ≡ limit m
    → m'.heap_cur + smalloc_size ≡ limit m'
left-fields m' m e v = ground arith

heap_total_value : heap_total ≡ 3146564
unfolding heap_total
heap_total_value = refl

space_value : space (blanks alloc_steps 0) ≡ 2093056
unfolding blanks fresh_desc
space_value = refl

-- The state between the two loops.
abbrev between : Ptr → Mem
between s = record (bare s) {
  heap_cur = s + alloc_steps * (desc_size + fsize);
  descs = blanks alloc_steps 0;
}

init-fill_all :
    (s : Ptr)
    → init_descs alloc_steps 0 (bare s) ≡ (true, between s)
    → init s ≡ (
        let (done, ds, m) = fill_all (blanks alloc_steps 0) (between s) in
        record m { descs = ds; enabled = done })
unfolding init
init-fill_all s e = rw e

-- Started at a word boundary with room for the whole heap below 4 GB, `mem_init` succeeds: the
-- pools are enabled; each of the nine holds its 128 chunks of 32, 64, ... bytes as a free list, in
-- address order, one pool's region directly behind the other; and exactly the megabyte meant for
-- `smalloc` is left.
pub init-IsReady : (s : Ptr) → 0 < s → s % 4 ≡ 0 → s + heap_total < u32_mod → IsReady s (init s)
init-IsReady s pos a fits =
    let v : IsHeap (bare s) = omega (arith, heap_total_value) in
    let w : IsHeap (between s) = omega (arith, heap_total_value) in
    let e = init_descs-blanks alloc_steps 0 (bare s) v (omega (arith, heap_total_value)) in
    let (done, built, heap) =
      fill_all-Built (blanks alloc_steps 0) (between s) w (blanks-IsBlank alloc_steps 0)
        (omega (arith, heap_total_value, space_value)) in
    let done_heap =
      advance-IsHeap (space (blanks alloc_steps 0)) w (rw space_value)
        (omega (arith, heap_total_value, space_value)) in
    let pools = Built-IsPools _ _ _ (omega arith) built in
    rw (init-fill_all s e) (record {
      on = done;
      heap = IsHeap-fields _ _ heap done_heap;
      pools = pools.0;
      homed = pools.1;
      built = built;
      left = left-fields _ _ heap (omega (arith, heap_total_value, space_value));
    })
