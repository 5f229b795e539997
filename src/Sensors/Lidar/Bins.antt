-- ===== src/Sensors/Lidar/Bins.antt =====
-- Facts about a table of bins in which 0 is no return, for `SerialLdsSource.scans` of
-- link/robocam_client.py.
use robo_cam_stream_processi.Prelude.{
  ℕ, List, suc, ◌∷◌, replicate, ◌<◌, ◌≢◌, get_or, ◌≡◌, min, length, set, if◌then◌else◌, ◌⊎◌, refl,
  ◌+◌, arith, ap, ◌==◌, inl, ◌≤◌, false, Bool-cases, inr, true, subst, ltb, ==_iff, ◌∙◌, sym,
}
use mathlib.Core.List.{[]}
use Prim.Native.Nat.{zero}

-- The nearer of two distances, where 0 is no return.
unfoldable pub nearer : ℕ → ℕ → ℕ
nearer held zero = held
nearer zero (suc d) = suc d
nearer (suc h) (suc d) = min (suc h) (suc d)

-- How many bins hold a return.
unfoldable pub returns : List ℕ → ℕ
returns [] = 0
returns (zero ∷ rs) = returns rs
returns (suc r ∷ rs) = suc (returns rs)

pub returns-replicate : (n : ℕ) → returns (replicate n 0) ≡ 0
unfolding returns
returns-replicate zero = refl
returns-replicate (suc n) = returns-replicate n

returns-set_new :
    (rs : List ℕ) (i d : ℕ)
    → i < length rs
    → get_or rs i 0 ≡ 0
    → returns (set rs i (suc d)) ≡ returns rs + 1
unfolding returns
returns-set_new [] i d h e = absurd (omega arith)
returns-set_new (zero ∷ rs) zero d h e = omega arith
returns-set_new (suc r ∷ rs) zero d h e = absurd (omega (arith, e))
returns-set_new (zero ∷ rs) (suc i) d h e = returns-set_new rs i d (omega arith) e
returns-set_new (suc r ∷ rs) (suc i) d h e = omega (arith, returns-set_new rs i d (omega arith) e)

returns-set_old :
    (rs : List ℕ) (i d : ℕ) → 0 < get_or rs i 0 → returns (set rs i (suc d)) ≡ returns rs
unfolding returns
returns-set_old [] i d h = absurd (omega arith)
returns-set_old (zero ∷ rs) zero d h = absurd (omega arith)
returns-set_old (suc r ∷ rs) zero d h = refl
returns-set_old (zero ∷ rs) (suc i) d h = returns-set_old rs i d h
returns-set_old (suc r ∷ rs) (suc i) d h = ap suc (returns-set_old rs i d h)

get_or-set_self : (rs : List ℕ) (i d : ℕ) → i < length rs → get_or (set rs i d) i 0 ≡ d
get_or-set_self [] i d h = absurd (omega arith)
get_or-set_self (r ∷ rs) zero d h = refl
get_or-set_self (r ∷ rs) (suc i) d h = get_or-set_self rs i d (omega arith)

get_or-set_ne : (rs : List ℕ) (i k d : ℕ) → i ≢ k → get_or (set rs i d) k 0 ≡ get_or rs k 0
get_or-set_ne [] i k d n = refl
get_or-set_ne (r ∷ rs) zero zero d n = absurd (n refl)
get_or-set_ne (r ∷ rs) zero (suc k) d n = refl
get_or-set_ne (r ∷ rs) (suc i) zero d n = refl
get_or-set_ne (r ∷ rs) (suc i) (suc k) d n = get_or-set_ne rs i k d (λ e. n (ap suc e))

-- A bin that is given a value holds it, and the others what they held.
pub set_bins :
    (rs : List ℕ) (i v d : ℕ)
    → i < length rs
    → v ≡ nearer (get_or rs i 0) d
    → (bin : ℕ)
    → get_or (set rs i v) bin 0 ≡ (if i == bin then nearer (get_or rs bin 0) d else get_or rs bin 0)
set_bins rs i v d h e bin = elim (Bool-cases (i == bin)) [
  | inl t ↦ rw t (
      subst (λ k. get_or (set rs i v) k 0 ≡ nearer (get_or rs k 0) d) ((==_iff i bin).0 t)
        (get_or-set_self rs i v h ∙ e))
  | inr f ↦ rw f (get_or-set_ne rs i bin v (λ same. false_true (sym f ∙ (==_iff i bin).1 same)))
]
  where
    false_true : false ≢ true
    false_true e = absurd cc

-- A bin that keeps the nearer return that it held.
pub keep_bins :
    (rs : List ℕ) (i d : ℕ)
    → get_or rs i 0 ≡ nearer (get_or rs i 0) d
    → (bin : ℕ)
    → get_or rs bin 0 ≡ (if i == bin then nearer (get_or rs bin 0) d else get_or rs bin 0)
keep_bins rs i d e bin = elim (Bool-cases (i == bin)) [
  | inl t ↦ rw t (subst (λ k. get_or rs k 0 ≡ nearer (get_or rs k 0) d) ((==_iff i bin).0 t) e)
  | inr f ↦ rw f refl
]

pub nearer_none : (h : ℕ) → nearer h 0 ≡ h
unfolding nearer
nearer_none zero = refl
nearer_none (suc h) = refl

pub nearer_first : (d : ℕ) → nearer 0 d ≡ d
unfolding nearer
nearer_first zero = refl
nearer_first (suc d) = refl

pub nearer-min : (h d : ℕ) → 0 < h → 0 < d → nearer h d ≡ min h d
unfolding nearer
nearer-min zero d p q = absurd (omega arith)
nearer-min (suc h) zero p q = absurd (omega arith)
nearer-min (suc h) (suc d) p q = refl

pub returns-new :
    (rs : List ℕ) (i v : ℕ)
    → 0 < v
    → i < length rs
    → get_or rs i 0 ≡ 0
    → returns (set rs i v) ≡ returns rs + 1
returns-new rs i zero p h e = absurd (omega arith)
returns-new rs i (suc d) p h e = returns-set_new rs i d h e

pub returns-old :
    (rs : List ℕ) (i v : ℕ) → 0 < v → 0 < get_or rs i 0 → returns (set rs i v) ≡ returns rs
returns-old rs i zero p h = absurd (omega arith)
returns-old rs i (suc d) p h = returns-set_old rs i d h

pub dec_zero : (n : ℕ) → (n ≡ 0) ⊎ (0 < n)
dec_zero zero = inl refl
dec_zero (suc n) = inr (omega arith)

pub compare_cases : (a b : ℕ) → (a < b) ⊎ (b ≤ a)
compare_cases a b = elim (Bool-cases (ltb a b)) [
  | inl t ↦ inl (ground (arith, t))
  | inr f ↦ inr (ground (arith, f))
]
