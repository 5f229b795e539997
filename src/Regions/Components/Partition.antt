-- ===== src/Regions/Components/Partition.antt =====
-- `_components` of robocam/regions.py: the components are the connected regions of the blocks.
use robo_cam_stream_processi.Regions.Components.{
  Pos, Seen, mark, grow, components_from, components, block_at, nonzero_rows,
}
use robo_cam_stream_processi.Regions.Components.Counting.{
  bit, times, adjacent, same_place-value, same_place_refl, times-append, adjacent_sym,
  times-nonzero_rows,
}
use robo_cam_stream_processi.Regions.Components.Growth.{Reach, unseen, unseen-mark}
use robo_cam_stream_processi.Prelude.{
  List, Bool, ◌∷◌, ◌+◌, ◌≡◌, ◌++◌, true, false, inl, ◌≤◌, ◌⊎◌, [], arith, inr, length, Bool-cases,
}
use mathlib.Core.List.{[]}
use robo_cam_stream_processi.Regions.Components.Loop.{Growing, starts-Growing, grow-Growing}

abbrev pub joined : List (List Pos) → List Pos
joined [] = []
joined (comp ∷ comps) = comp ++ joined comps

module _ (block : Pos → Bool) where
  -- A connected region of the blocks: all that one block reaches, and nothing else.
  pub record IsRegion (comp : List Pos) : Type 0 where
    pub start : Pos
    pub reached : (q : Pos) → 1 ≤ times q comp → (block q ≡ true) × Reach block start q
    pub whole :
        (p q : Pos) → 1 ≤ times p comp → adjacent p q ≡ true → block q ≡ true → 1 ≤ times q comp

  unfoldable pub AllRegions : List (List Pos) → Type 0
  AllRegions [] = Unit
  AllRegions (comp ∷ comps) = IsRegion comp × AllRegions comps

  -- What is seen between two components is whole regions.
  record Settled (seen : Seen) : Type 0 where
    real : (q : Pos) → seen q ≡ true → block q ≡ true
    closed : (p q : Pos) → seen p ≡ true → adjacent p q ≡ true → block q ≡ true → seen q ≡ true

  module _ (base seen : Seen) (start : Pos) (comp : List Pos) (s : Settled base)
      (g : Growing block base start [] seen comp) where
    comp_seen : (q : Pos) → 1 ≤ times q comp → (seen q ≡ true) × (base q ≡ false)
    unfolding times bit
    comp_seen q h = ground (arith, g.counted q, h)

    seen_comp : (q : Pos) → seen q ≡ true → (base q ≡ true) ⊎ (1 ≤ times q comp)
    unfolding times bit
    seen_comp q h = ground (arith, g.counted q, h)

    base_seen : (q : Pos) → base q ≡ true → seen q ≡ true
    unfolding times bit
    base_seen q h = ground (arith, g.counted q, h)

    reached_from : (q : Pos) → 1 ≤ times q comp → (block q ≡ true) × Reach block start q
    reached_from q h = elim (g.real q (comp_seen q h).0) [
      | inl before ↦ absurd (let new = (comp_seen q h).1 in cc)
      | inr this ↦ this
    ]

    whole_of :
        (p q : Pos) → 1 ≤ times p comp → adjacent p q ≡ true → block q ≡ true → 1 ≤ times q comp
    whole_of p q h near b = elim (seen_comp q (g.closed p q h near b)) [
      | inr this ↦ this
      | inl before ↦
          let old = s.closed q p before (adjacent_sym p q near) (reached_from p h).0 in
          let new = (comp_seen p h).1 in absurd cc
    ]

    comp-IsRegion : IsRegion comp
    comp-IsRegion = record { start = start; reached = reached_from; whole = whole_of }

    seen-Settled : Settled seen
    seen-Settled = record {
      real = λ q h. elim (g.real q h) [ inl before ↦ s.real q before | inr (b, _) ↦ b ];
      closed = λ p q h near b. elim (seen_comp p h) [
        | inl before ↦ base_seen q (s.closed p q before near b)
        | inr this ↦ g.closed p q this near b
      ];
    }

  -- The components of the starts that are left.
  record Rest (starts : List Pos) (seen : Seen) (comps : List (List Pos)) : Type 0 where
    regions : AllRegions comps
    most : (q : Pos) → times q (joined comps) + bit (seen q) ≤ bit (block q)
    least : (q : Pos) → 1 ≤ times q starts → 1 ≤ times q (joined comps) + bit (seen q)

  unseen-le : (ps : List Pos) (seen : Seen) → unseen block ps seen ≤ length ps
  unfolding unseen bit
  unseen-le [] seen = omega arith
  unseen-le (p ∷ ps) seen = ground (arith, unseen-le ps seen)

  after_seen :
      (p : Pos) (starts : List Pos) (seen : Seen) (comps : List (List Pos))
      → seen p ≡ true
      → Rest starts seen comps
      → Rest (p ∷ starts) seen comps
  unfolding times bit
  after_seen p starts seen comps old r = record {
    regions = r.regions;
    most = r.most;
    least = λ q h. ground (arith, h, r.least q, same_place-value seen p q, old);
  }

  after_grown :
      (p : Pos) (starts comp : List Pos) (seen seen' : Seen) (comps : List (List Pos))
      → Settled seen
      → Growing block seen p [] seen' comp
      → seen' p ≡ true
      → Rest starts seen' comps
      → Rest (p ∷ starts) seen (comp ∷ comps)
  unfolding times bit AllRegions
  after_grown p starts comp seen seen' comps s g first r = record {
    regions = (comp-IsRegion seen seen' p comp s g, r.regions);
    most = λ q. omega (arith, r.most q, g.counted q, times-append q comp (joined comps));
    least = λ q h. ground (
      arith,
      h,
      r.least q,
      g.counted q,
      times-append q comp (joined comps),
      same_place-value seen' p q,
      first,
    );
  }

  module _ (all : List Pos) (listed : (q : Pos) → times q all ≡ bit (block q)) where
    components_from-Rest :
        (starts : List Pos) (seen : Seen)
        → ((q : Pos) → times q starts ≤ bit (block q))
        → Settled seen
        → Rest starts seen (components_from block (length all) starts seen)
    unfolding components_from times bit AllRegions
    components_from-Rest [] seen real s = record {
      regions = tt;
      most = λ q. ground (arith, s.real q);
      least = λ q h. absurd (omega (arith, h));
    }
    components_from-Rest (p ∷ starts) seen real s = elim (Bool-cases (seen p)) [
      | inl old ↦ rw old (
          after_seen p starts seen (components_from block (length all) starts seen) old
            (components_from-Rest starts seen (λ q. omega (arith, real q)) s))
      | inr new ↦
          let (comp, seen') = grow block (length all) (p ∷ []) (mark p seen) [] in
          let g =
            grow-Growing block all listed seen p (length all) (p ∷ []) (mark p seen) []
              (ground
                (arith, unseen-mark block all p seen new, listed p, unseen-le all seen, head_block))
              (starts-Growing block seen p new head_block) in
          rw new (
            after_grown p starts comp seen seen' (components_from block (length all) starts seen') s
              g g.begun
              (components_from-Rest starts seen' (λ q. omega (arith, real q))
                (seen-Settled seen seen' p comp s g)))
    ]
      where
        head_block : block p ≡ true
        head_block = ground (arith, real p, same_place_refl p)

-- What the components of an array of blocks are.
pub record IsPartition (blocks : List (List Bool)) (comps : List (List Pos)) : Type 0 where
  pub once : (q : Pos) → times q (joined comps) ≡ bit (block_at blocks q)
  pub regions : AllRegions (block_at blocks) comps

-- Each block stands in one component and once, and nothing else stands in any. A component is a
-- connected region: it is reached from one of its blocks by steps to neighbouring blocks, and it
-- holds every block beside one of its own.
pub components-IsPartition : (blocks : List (List Bool)) → IsPartition blocks (components blocks)
unfolding components bit
components-IsPartition blocks =
    let starts = nonzero_rows 0 blocks in
    let listed = times-nonzero_rows blocks in
    let r =
      components_from-Rest (block_at blocks) starts listed starts (λ p. false)
        (λ q. omega (arith, listed q))
        (record { real = λ q h. absurd cc; closed = λ p q h near b. absurd cc }) in
    record { once = λ q. ground (arith, r.most q, r.least q, listed q); regions = r.regions }
