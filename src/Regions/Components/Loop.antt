-- ===== src/Regions/Components/Loop.antt =====
-- The loop of `_components` of robocam/regions.py on one component: its invariant.
use robo_cam_stream_processi.Regions.Components.{
  Pos, Seen, mark, push_all, neighbours, grow, same_place,
}
use robo_cam_stream_processi.Regions.Components.Counting.{
  bit, times, adjacent, same_place-value, same_place_refl, times-append, same_place-eq,
  times-neighbours,
}
use robo_cam_stream_processi.Regions.Components.Growth.{
  Reach, unseen, push_all_new, push_all_counts, step, push_all_sees, push_all_measure, here,
  push_all_keeps,
}
use robo_cam_stream_processi.Prelude.{
  List, Bool, ◌∷◌, ◌+◌, ◌≡◌, ◌++◌, true, false, inl, ◌≤◌, ℕ, ◌⊎◌, [], arith, inr, length,
  Bool-cases, suc, subst, sym,
}
use mathlib.Core.List.{[]}
use Prim.Native.Nat.{zero}

module _ (block : Pos → Bool) where
  -- The loop on a component that began at `start`, when `base` had been seen.
  pub record Growing (base : Seen) (start : Pos) (queue : List Pos) (seen : Seen) (comp : List Pos)
      : Type 0 where
    pub begun : seen start ≡ true
    pub counted : (q : Pos) → times q comp + times q queue + bit (base q) ≡ bit (seen q)
    pub real :
        (q : Pos) → seen q ≡ true → (base q ≡ true) ⊎ ((block q ≡ true) × Reach block start q)
    pub closed :
        (p q : Pos) → 1 ≤ times p comp → adjacent p q ≡ true → block q ≡ true → seen q ≡ true

  pub starts-Growing :
      (base : Seen) (start : Pos)
      → base start ≡ false
      → block start ≡ true
      → Growing base start (start ∷ []) (mark start base) []
  unfolding times mark bit
  starts-Growing base start new real = record {
    begun = ground (arith, same_place_refl start);
    counted = λ q. ground (arith, same_place-value base start q, new);
    real = λ q seen. elim (Bool-cases (same_place start q)) [
      | inl same ↦ inr (
          subst (λ p. (block p ≡ true) × Reach block start p) (same_place-eq start q same)
            (real, here))
      | inr other ↦ inl (ground (arith, other, seen))
    ];
    closed = λ p q h. absurd (omega (arith, h));
  }

  module _ (base : Seen) (start p : Pos) (queue : List Pos) (seen : Seen) (comp : List Pos)
      (g : Growing base start (p ∷ queue) seen comp) where
    head_new : (seen p ≡ true) × (base p ≡ false)
    unfolding times bit
    head_new = ground (arith, g.counted p, same_place_refl p)

    head_reached : Reach block start p
    head_reached = elim (g.real p head_new.0) [
      | inl before ↦ absurd (let other = head_new.1 in cc)
      | inr (b, reach) ↦ reach
    ]

    abbrev next : List Pos × Seen
    next = push_all block (neighbours p) (queue, seen)

    next_real :
        (q : Pos) → next.1 q ≡ true → (base q ≡ true) ⊎ ((block q ≡ true) × Reach block start q)
    unfolding bit
    next_real q e = elim (push_all_new block (neighbours p) q (queue, seen) e) [
      | inl before ↦ g.real q before
      | inr (b, near) ↦ inr (b, step head_reached (ground (arith, near, times-neighbours p q)) b)
    ]

    next_closed :
        (r q : Pos)
        → 1 ≤ times r (comp ++ p ∷ [])
        → adjacent r q ≡ true
        → block q ≡ true
        → next.1 q ≡ true
    unfolding times bit
    next_closed r q h near b = elim (Bool-cases (same_place p r)) [
      | inl same ↦
          push_all_sees block (neighbours p) q (queue, seen) b
            (let at_p =
                subst (λ (k : Pos). adjacent k q ≡ true) (sym (same_place-eq p r same)) near in
              ground (arith, times-neighbours p q, at_p))
      | inr other ↦
          push_all_keeps block (neighbours p) q (queue, seen)
            (g.closed r q (ground (arith, h, other, times-append r comp (p ∷ []))) near b)
    ]

    next-Growing : Growing base start next.0 next.1 (comp ++ p ∷ [])
    unfolding times
    next-Growing = record {
      begun = push_all_keeps block (neighbours p) start (queue, seen) g.begun;
      counted = λ q. omega (
        arith,
        g.counted q,
        push_all_counts block (neighbours p) q (queue, seen),
        times-append q comp (p ∷ []),
      );
      real = next_real;
      closed = next_closed;
    }

  module _ (starts : List Pos) (listed : (q : Pos) → times q starts ≡ bit (block q)) where
    pub grow-Growing :
        (base : Seen) (start : Pos) (fuel : ℕ) (queue : List Pos) (seen : Seen) (comp : List Pos)
        → length queue + unseen block starts seen ≤ fuel
        → Growing base start queue seen comp
        → (let (comp', seen') = grow block fuel queue seen comp in
            Growing base start [] seen' comp')
    unfolding grow
    grow-Growing base start zero [] seen comp h g = g
    grow-Growing base start zero (p ∷ queue) seen comp h g = absurd (omega (arith, h))
    grow-Growing base start (suc fuel) [] seen comp h g = g
    grow-Growing base start (suc fuel) (p ∷ queue) seen comp h g =
        let (queue', seen') = push_all block (neighbours p) (queue, seen) in
        grow-Growing base start fuel queue' seen' (comp ++ p ∷ [])
          (omega (arith, h, push_all_measure block starts listed (neighbours p) (queue, seen)))
          (next-Growing base start p queue seen comp g)
