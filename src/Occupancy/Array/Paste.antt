-- ===== src/Occupancy/Array/Paste.antt =====
-- What an assignment to a slice leaves at each index.
use robo_cam_stream_processi.Occupancy.Array.{zip_with, slice, paste, some}
use robo_cam_stream_processi.Prelude.{
  Option, List, ℕ, get_elem?, length, ◌+◌, ◌≡◌, ◌≤◌, ◌∷◌, take, ◌<◌, suc, arith, ◌-◌, ap,
  length-take, refl, drop, length-drop, get_elem?-append_left, ◌++◌, ◌∙◌, length-append,
  get_elem?-take, get_elem?-append_right, ap₂, get_elem?-drop,
}
use mathlib.Core.Option.{none}
use mathlib.Core.List.{[]}
use Prim.Native.Nat.{zero}

module _ {ℓ κ} {A : Type ℓ} {B : Type κ} (f : A → B → A) where
  abbrev pub lift₂ : Option A → Option B → Option A
  lift₂ none b = none
  lift₂ (some a) none = none
  lift₂ (some a) (some b) = some (f a b)

  get_elem?-zip_with :
      (xs : List A) (ys : List B) (i : ℕ)
      → get_elem? (zip_with f xs ys) i ≡ lift₂ (get_elem? xs i) (get_elem? ys i)
  get_elem?-zip_with [] ys i = refl
  get_elem?-zip_with (x ∷ xs) [] zero = refl
  get_elem?-zip_with (x ∷ xs) [] (suc i) = ground arith
  get_elem?-zip_with (x ∷ xs) (y ∷ ys) zero = refl
  get_elem?-zip_with (x ∷ xs) (y ∷ ys) (suc i) = get_elem?-zip_with xs ys i

  length-zip_with :
      (xs : List A) (ys : List B) → length xs ≡ length ys → length (zip_with f xs ys) ≡ length xs
  length-zip_with [] ys e = refl
  length-zip_with (x ∷ xs) [] e = absurd (omega arith)
  length-zip_with (x ∷ xs) (y ∷ ys) e = ap suc (length-zip_with xs ys (omega arith))

  module _ (i n j : ℕ) (xs : List A) (ys : List B) (fits : i + n ≤ length xs)
      (covers : j + n ≤ length ys) where
    length-head : length (take i xs) ≡ i
    length-head = omega (arith, length-take i xs, fits)

    abbrev middle : List A
    middle = zip_with f (slice i n xs) (slice j n ys)

    length-middle : length middle ≡ n
    length-middle =
        let xs' = length-take n (drop i xs) in
        let ys' = length-take n (drop j ys) in
        let left : length (slice i n xs) ≡ n = omega (arith, xs', length-drop i xs, fits) in
        let right : length (slice j n ys) ≡ n = omega (arith, ys', length-drop j ys, covers) in
        omega
          (arith, length-zip_with (slice i n xs) (slice j n ys) (omega (arith, left, right)), left)

    pub length-paste : length (paste f i n j xs ys) ≡ length xs
    unfolding paste
    length-paste = omega (
      arith,
      fits,
      length-head,
      length-middle,
      length-drop n (drop i xs),
      length-drop i xs,
      length-append (take i xs) (middle ++ drop n (drop i xs)),
      length-append middle (drop n (drop i xs)),
    )

    -- Before the slice nothing changes.
    pub paste_before : (k : ℕ) → k < i → get_elem? (paste f i n j xs ys) k ≡ get_elem? xs k
    unfolding paste
    paste_before k h =
        get_elem?-append_left (take i xs) _ k (omega (arith, length-head)) ∙ get_elem?-take i xs k h

    past_head :
        (k : ℕ)
        → i ≤ k
        → get_elem? (paste f i n j xs ys) k ≡ get_elem? (middle ++ drop n (drop i xs)) (k - i)
    unfolding paste
    past_head k h =
        get_elem?-append_right (take i xs) (middle ++ drop n (drop i xs)) k
          (omega (arith, length-head))
        ∙ ap (λ l. get_elem? (middle ++ drop n (drop i xs)) (k - l)) length-head

    -- In the slice each entry meets the one of the other list.
    pub paste_inside :
        (k : ℕ)
        → i ≤ k
        → k < i + n
        → get_elem? (paste f i n j xs ys) k ≡ lift₂ (get_elem? xs k) (get_elem? ys (k - i + j))
    paste_inside k h l =
        let m : k - i < n = omega arith in
        past_head k h
        ∙ get_elem?-append_left middle (drop n (drop i xs)) (k - i)
            (omega (arith, length-middle, m))
        ∙ get_elem?-zip_with (slice i n xs) (slice j n ys) (k - i)
        ∙ ap₂ lift₂
            (get_elem?-take n (drop i xs) (k - i) m ∙ get_elem?-drop i xs (k - i) k (omega arith))
            (get_elem?-take n (drop j ys) (k - i) m
              ∙ get_elem?-drop j ys (k - i) (k - i + j) (omega arith))

    -- Nor does anything change after it.
    pub paste_after : (k : ℕ) → i + n ≤ k → get_elem? (paste f i n j xs ys) k ≡ get_elem? xs k
    paste_after k h =
        past_head k (omega arith)
        ∙ get_elem?-append_right middle (drop n (drop i xs)) (k - i) (omega (arith, length-middle))
        ∙ get_elem?-drop n (drop i xs) (k - i - length middle) (k - i)
            (omega (arith, length-middle))
        ∙ get_elem?-drop i xs (k - i) k (omega arith)
