-- ===== src/Regions/Components/Growth.antt =====
-- The inner loop of `_components` of robocam/regions.py: what a component grows to.
use robo_cam_stream_processi.Regions.Components.{Pos, Seen, mark, push, same_place, push_all}
use robo_cam_stream_processi.Regions.Components.Counting.{
  bit, times, adjacent, times-append, same_place_refl, same_place-eq, same_place-value,
  same_place_sym,
}
use robo_cam_stream_processi.Prelude.{
  Bool, ◌≡◌, List, ◌+◌, true, arith, ◌⊎◌, ◌∷◌, [], sym, ℕ, false, length, refl, ◌≤◌, not,
  Bool-cases, inl, length-append, subst, inr,
}

module _ (block : Pos → Bool) where
  -- A chain of neighbouring blocks leads there.
  pub data Reach (start : Pos) : Pos → Type 0 where
    here : Reach start start
    step : {p q : Pos} → Reach start p → adjacent p q ≡ true → block q ≡ true → Reach start q

  abbrev Work : Type 0
  Work = List Pos × Seen

  push_counts :
      (q r : Pos) (w : Work)
      → times r (push block q w).0 + bit (w.1 r) ≡ times r w.0 + bit ((push block q w).1 r)
  unfolding push mark times bit
  push_counts q r (queue, seen) =
      ground (arith, times-append r queue (q ∷ []), same_place-value seen q r)

  push_keeps : (q r : Pos) (w : Work) → w.1 r ≡ true → (push block q w).1 r ≡ true
  unfolding push mark
  push_keeps q r (queue, seen) e = ground (arith, e)

  push_sees : (q : Pos) (w : Work) → block q ≡ true → (push block q w).1 q ≡ true
  unfolding push mark
  push_sees q (queue, seen) e = ground (arith, e, same_place_refl q)

  push_new :
      (q r : Pos) (w : Work)
      → (push block q w).1 r ≡ true
      → (w.1 r ≡ true) ⊎ ((block r ≡ true) × (same_place q r ≡ true))
  unfolding push mark
  push_new q r (queue, seen) e = ground (arith, e, same_place-value block q r)

  pub push_all_counts :
      (qs : List Pos) (r : Pos) (w : Work)
      → times r (push_all block qs w).0 + bit (w.1 r)
        ≡ times r w.0 + bit ((push_all block qs w).1 r)
  unfolding push_all
  push_all_counts [] r w = refl
  push_all_counts (q ∷ qs) r w =
      omega (arith, push_counts q r w, push_all_counts qs r (push block q w))

  pub push_all_keeps :
      (qs : List Pos) (r : Pos) (w : Work) → w.1 r ≡ true → (push_all block qs w).1 r ≡ true
  unfolding push_all
  push_all_keeps [] r w e = e
  push_all_keeps (q ∷ qs) r w e = push_all_keeps qs r (push block q w) (push_keeps q r w e)

  pub push_all_sees :
      (qs : List Pos) (r : Pos) (w : Work)
      → block r ≡ true
      → 1 ≤ times r qs
      → (push_all block qs w).1 r ≡ true
  unfolding push_all times bit
  push_all_sees [] r w e h = absurd (omega arith)
  push_all_sees (q ∷ qs) r w e h = elim (Bool-cases (same_place q r)) [
    | inl same ↦ push_all_keeps qs r (push block q w) (
        subst (λ p. (push block q w).1 p ≡ true) (same_place-eq q r same)
          (push_sees q w (subst (λ p. block p ≡ true) (sym (same_place-eq q r same)) e)))
    | inr other ↦ push_all_sees qs r (push block q w) e (ground (arith, h, other))
  ]

  pub push_all_new :
      (qs : List Pos) (r : Pos) (w : Work)
      → (push_all block qs w).1 r ≡ true
      → (w.1 r ≡ true) ⊎ ((block r ≡ true) × (1 ≤ times r qs))
  unfolding push_all times bit
  push_all_new [] r w e = inl e
  push_all_new (q ∷ qs) r w e = elim (push_all_new qs r (push block q w) e) [
    | inr (b, later) ↦ inr (b, omega (arith, later))
    | inl seen ↦ elim (push_new q r w seen) [
      | inl before ↦ inl before
      | inr (b, same) ↦ inr (b, ground (arith, same))
    ]
  ]

  -- Blocks of a list that are not seen yet.
  unfoldable pub unseen : List Pos → Seen → ℕ
  unseen [] seen = 0
  unseen (p ∷ ps) seen = bit (not (seen p)) + unseen ps seen

  pub unseen-mark :
      (ps : List Pos) (q : Pos) (seen : Seen)
      → seen q ≡ false
      → unseen ps (mark q seen) + times q ps ≡ unseen ps seen
  unfolding unseen times mark bit
  unseen-mark [] q seen e = refl
  unseen-mark (p ∷ ps) q seen e =
      ground (arith, unseen-mark ps q seen e, same_place-value seen p q, same_place_sym p q, e)

  module _ (starts : List Pos) (listed : (q : Pos) → times q starts ≡ bit (block q)) where
    push_measure :
        (q : Pos) (w : Work)
        → length (push block q w).0 + unseen starts (push block q w).1
          ≤ length w.0 + unseen starts w.1
    unfolding push bit
    push_measure q (queue, seen) =
        ground (arith, length-append queue (q ∷ []), unseen-mark starts q seen, listed q)

    pub push_all_measure :
        (qs : List Pos) (w : Work)
        → length (push_all block qs w).0 + unseen starts (push_all block qs w).1
          ≤ length w.0 + unseen starts w.1
    unfolding push_all
    push_all_measure [] w = omega arith
    push_all_measure (q ∷ qs) w =
        omega (arith, push_measure q w, push_all_measure qs (push block q w))
