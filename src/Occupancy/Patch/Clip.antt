-- ===== src/Occupancy/Patch/Clip.antt =====
-- One axis of a merge, index by index.
use robo_cam_stream_processi.Prelude.Int.{ℤ, pos, negsuc, pos_part, neg_part, ◌-ℤ◌}
use robo_cam_stream_processi.Occupancy.Patch.{Overlap, clip, some, paste}
use robo_cam_stream_processi.Prelude.{
  List, Option, ℕ, get_elem?, ◌≡◌, none, ◌+◌, arith, ◌≤◌, ◌⊎◌, ◌<◌, refl, length, ◌-◌, ap, ◌∙◌,
  get_elem?_past, dec_lt, get_elem?-some, sym, inl, inr,
}
use mathlib.Core.Option.{none}
use robo_cam_stream_processi.Occupancy.Array.Paste.{lift₂, paste_before, paste_inside, paste_after}

-- The entry at a signed index: `none` before the start too.
abbrev pub get_at {ℓ} : {A : Type ℓ} → List A → ℤ → Option A
get_at xs (pos i) = get_elem? xs i
get_at xs (negsuc i) = none

-- An entry with what lies over it, if anything does.
abbrev pub overlay {ℓ κ} : {A : Type ℓ} {B : Type κ} → (A → B → A) → Option A → Option B → Option A
overlay f none b = none
overlay f (some a) none = some a
overlay f (some a) (some b) = some (f a b)

record Fits (extent : ℕ) (offset : ℤ) (patch_extent : ℕ) (x : Overlap) : Type 0 where
  start : x.start ≡ pos_part offset
  from : x.from ≡ neg_part offset
  inside : x.start + x.count ≤ extent
  covers : x.from + x.count ≤ patch_extent
  whole : (x.start + x.count ≡ extent) ⊎ (x.from + x.count ≡ patch_extent)

clip-Fits :
    (extent : ℕ) (offset : ℤ) (patch_extent : ℕ) (x : Overlap)
    → clip extent offset patch_extent ≡ some x
    → Fits extent offset patch_extent x
unfolding clip
clip-Fits extent (pos n) patch_extent x e = ground arith
clip-Fits extent (negsuc n) patch_extent x e = ground arith

clip_apart :
    (extent : ℕ) (offset : ℤ) (patch_extent : ℕ)
    → clip extent offset patch_extent ≡ none
    → (extent ≤ pos_part offset) ⊎ (patch_extent ≤ neg_part offset)
unfolding clip
clip_apart extent (pos n) patch_extent e = ground arith
clip_apart extent (negsuc n) patch_extent e = ground arith

index_after :
    (k : ℕ) (offset : ℤ)
    → pos_part offset ≤ k
    → pos k -ℤ offset ≡ pos (k - pos_part offset + neg_part offset)
index_after k (pos n) h = ground arith
index_after k (negsuc n) h = ground arith

get_at_before {ℓ} :
    {A : Type ℓ} (xs : List A) (k : ℕ) (offset : ℤ)
    → k < pos_part offset
    → get_at xs (pos k -ℤ offset) ≡ none
get_at_before xs k (pos n) h = let e : pos k -ℤ pos n ≡ negsuc (n - k - 1) = ground arith in rw e
get_at_before xs k (negsuc n) h = absurd (omega arith)

get_at_after {ℓ} :
    {A : Type ℓ} (xs : List A) (k : ℕ) (offset : ℤ)
    → pos_part offset ≤ k
    → get_at xs (pos k -ℤ offset) ≡ get_elem? xs (k - pos_part offset + neg_part offset)
get_at_after xs k offset h = ap (get_at xs) (index_after k offset h)

module _ {ℓ κ} {A : Type ℓ} {B : Type κ} (f : A → B → A) where
  pub overlay-none : (a : Option A) → overlay f a none ≡ a
  overlay-none none = refl
  overlay-none (some a) = refl

  overlay-lift : (a : Option A) (b : B) → overlay f a (some b) ≡ lift₂ f a (some b)
  overlay-lift none b = refl
  overlay-lift (some a) b = refl

module _ {ℓ κ} {A : Type ℓ} {B : Type κ} (f : A → B → A) (xs : List A) (ys : List B)
    (offset : ℤ) where
  -- The list with the other laid over it from `offset` on.
  abbrev pub over : ℕ → Option A
  over k = overlay f (get_elem? xs k) (get_at ys (pos k -ℤ offset))

  over_bare : (k : ℕ) → get_at ys (pos k -ℤ offset) ≡ none → over k ≡ get_elem? xs k
  over_bare k e = ap (overlay f (get_elem? xs k)) e ∙ overlay-none f (get_elem? xs k)

  over_before : (k : ℕ) → k < pos_part offset → over k ≡ get_elem? xs k
  over_before k h = over_bare k (get_at_before ys k offset h)

  over_past : (k : ℕ) → length xs ≤ k → over k ≡ get_elem? xs k
  over_past k h =
      let e = get_elem?_past xs k h in ap (λ a. overlay f a (get_at ys (pos k -ℤ offset))) e ∙ sym e

  over_beyond :
      (k : ℕ)
      → pos_part offset ≤ k
      → length ys ≤ k - pos_part offset + neg_part offset
      → over k ≡ get_elem? xs k
  over_beyond k h l = over_bare k (get_at_after ys k offset h ∙ get_elem?_past ys _ l)

  pub apart-over :
      (extent patch_extent : ℕ)
      → extent ≡ length xs
      → patch_extent ≡ length ys
      → clip extent offset patch_extent ≡ none
      → (k : ℕ) → over k ≡ get_elem? xs k
  apart-over extent patch_extent p q e k = elim (dec_lt k (pos_part offset)) [
    | yes before ↦ over_before k before
    | no later ↦ elim (clip_apart extent offset patch_extent e) [
      | inl right ↦ over_past k (omega (arith, later, right, p))
      | inr left ↦ over_beyond k (omega (arith, later)) (omega (arith, later, left, q))
    ]
  ]

  over_inside :
      (k : ℕ)
      → pos_part offset ≤ k
      → k - pos_part offset + neg_part offset < length ys
      → lift₂ f (get_elem? xs k) (get_elem? ys (k - pos_part offset + neg_part offset)) ≡ over k
  over_inside k h l =
      let i = k - pos_part offset + neg_part offset in
      let (b, e) = get_elem?-some ys i l in
      ap (lift₂ f (get_elem? xs k)) e
      ∙ sym (overlay-lift f (get_elem? xs k) b)
      ∙ ap (overlay f (get_elem? xs k)) (sym (get_at_after ys k offset h ∙ e))

  paste-over-Fits :
      (extent patch_extent : ℕ) (x : Overlap)
      → extent ≡ length xs
      → patch_extent ≡ length ys
      → Fits extent offset patch_extent x
      → (k : ℕ) → get_elem? (paste f x.start x.count x.from xs ys) k ≡ over k
  paste-over-Fits extent patch_extent x p q v k =
      let inside : x.start + x.count ≤ length xs = omega (arith, v.inside, p) in
      let covers : x.from + x.count ≤ length ys = omega (arith, v.covers, q) in
      elim (dec_lt k x.start) [
        | yes before ↦
            paste_before f x.start x.count x.from xs ys inside covers k before
            ∙ sym (over_before k (omega (arith, before, v.start)))
        | no later ↦ elim (dec_lt k (x.start + x.count)) [
          | yes within ↦
              paste_inside f x.start x.count x.from xs ys inside covers k (omega (arith, later))
                within
              ∙ ap (λ i. lift₂ f (get_elem? xs k) (get_elem? ys i)) (omega (arith, v.start, v.from))
              ∙ over_inside k (omega (arith, later, v.start))
                  (omega (arith, later, within, v.start, v.from, covers))
          | no past ↦
              paste_after f x.start x.count x.from xs ys inside covers k (omega (arith, past))
              ∙ sym (elim v.whole [
                | inl right ↦ over_past k (omega (arith, past, right, p))
                | inr left ↦
                    over_beyond k (omega (arith, later, v.start))
                      (omega (arith, past, left, q, v.start, v.from))
              ])
        ]
      ]

  pub paste-over :
      (extent patch_extent : ℕ) (x : Overlap)
      → extent ≡ length xs
      → patch_extent ≡ length ys
      → clip extent offset patch_extent ≡ some x
      → (k : ℕ) → get_elem? (paste f x.start x.count x.from xs ys) k ≡ over k
  paste-over extent patch_extent x p q e =
      paste-over-Fits extent patch_extent x p q (clip-Fits extent offset patch_extent x e)
