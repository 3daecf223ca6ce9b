-- ===== src/Mchain/LimitedPreallocated/Window.antt =====
-- The cells of a ring, read from the head on: what a write at the back and at the head does.
use native.Mathlib.Nat.{mod-lt, mod-eq_of_lt, mod-eq-sub-mod}
use sobjectizer.Base.{
  ℕ, zero, suc, ◌+◌, ◌%◌, ◌≤◌, ◌<◌, ◌≡◌, refl, sym, ap, ap₂, ◌∙◌, ◌≢◌, List, [], ◌∷◌, ◌++◌, length,
  get_or, set, get_or-set_self, get_or-set_ne, arith,
}
use sobjectizer.Mchain.Queue.{Demand, empty_demand}

unfoldable pub window : List Demand → ℕ → ℕ → ℕ → List Demand
window s m h zero = []
window s m h (suc k) = get_or s h empty_demand ∷ window s m ((h + 1) % m) k

pub length-window : (s : List Demand) (m h k : ℕ) → length (window s m h k) ≡ k
unfolding window
length-window s m h zero = refl
length-window s m h (suc k) = ap suc (length-window s m ((h + 1) % m) k)

-- One turn round the ring moves `t` cells on from `h` by one step and `t - 1` more.
turn : (m h t : ℕ) → h < m → suc t < m → (h + suc t) % m ≡ ((h + 1) % m + t) % m
turn m h t p q = grind (arith, mod-eq_of_lt, mod-eq-sub-mod)

turn_ne : (m h t : ℕ) → h < m → suc t < m → (h + suc t) % m ≢ h
turn_ne m h t p q = grind (arith, mod-eq_of_lt, mod-eq-sub-mod)

-- A full turn less one leads from the cell after `h` back to `h`.
turn_back : (m h t : ℕ) → h < m → suc t ≡ m → ((h + 1) % m + t) % m ≡ h
turn_back m h t p q = grind (arith, mod-eq_of_lt, mod-eq-sub-mod)

next_lt : (m h : ℕ) → h < m → (h + 1) % m < m
next_lt m h p = mod-lt (h + 1) (omega arith)

-- A write at or behind the end of the window does not show in it.
window-set_ne :
    (s : List Demand) (m h k t i : ℕ) (v : Demand)
    → i ≡ (h + t) % m
    → h < m
    → k ≤ t
    → t < m
    → window (set s i v) m h k ≡ window s m h k
unfolding window
window-set_ne s m h zero t i v e p q r = refl
window-set_ne s m h (suc k) zero i v e p q r = absurd (omega arith)
window-set_ne s m h (suc k) (suc t) i v e p q r =
    ap₂ ◌∷◌ (get_or-set_ne s i h v empty_demand (λ c. turn_ne m h t p r (sym e ∙ c))) (
      window-set_ne s m ((h + 1) % m) k t i v (e ∙ turn m h t p r) (next_lt m h p) (omega arith)
        (omega arith))

-- A write right behind the window lengthens it.
pub window-push :
    (s : List Demand) (m h k i : ℕ) (d : Demand)
    → i ≡ (h + k) % m
    → length s ≡ m
    → h < m
    → k < m
    → window (set s i d) m h (suc k) ≡ window s m h k ++ d ∷ []
unfolding window
window-push s m h zero i d e l p r =
    let here : i ≡ h = grind (arith, mod-eq_of_lt) in
    rw here (ap (λ x. x ∷ []) (get_or-set_self s h d empty_demand (omega arith)))
window-push s m h (suc k) i d e l p r =
    ap₂ ◌∷◌ (get_or-set_ne s i h d empty_demand (λ c. turn_ne m h k p r (sym e ∙ c)))
      (window-push s m ((h + 1) % m) k i d (e ∙ turn m h k p r) l (next_lt m h p) (omega arith))

-- Clearing the head's cell does not show in the window that begins behind it.
pub window-pop :
    (s : List Demand) (m h k : ℕ) (v : Demand)
    → h < m
    → k < m
    → window (set s h v) m ((h + 1) % m) k ≡ window s m ((h + 1) % m) k
window-pop s zero h k v p q = absurd (omega arith)
window-pop s (suc t) h k v p q =
    window-set_ne s (suc t) ((h + 1) % suc t) k t h v (sym (turn_back (suc t) h t p refl))
      (next_lt (suc t) h p) (omega arith) (omega arith)
