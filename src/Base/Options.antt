-- ===== src/Base/Options.antt =====
-- Chains of results that may be missing.
use mathlib.Core.Path.{◌≡◌, refl}
use mathlib.Core.Option
use mathlib.Core.Option.{Option, some}

pub bind_ends {ℓ} :
    {A B : Type ℓ} (x : Option A) (a : A) (g : A → Option B) (b : B)
    → x ≡ some a
    → g a ≡ some b
    → Option.bind x g ≡ some b
unfolding Option.bind
bind_ends x a g b e e1 = rw e e1

pub bind_two {ℓ} :
    {A B : Type ℓ} (x y : Option A) (a b : A) (g : A → A → Option B)
    → x ≡ some a
    → y ≡ some b
    → Option.bind x (λ a. Option.bind y (g a)) ≡ g a b
unfolding Option.bind
bind_two x y a b g e1 e2 = rw e1 (rw e2 refl)
