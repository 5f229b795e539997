-- ===== src/Mission/Ranking.antt =====
-- `rank_exits` of robocam/mission.py. A score is a float, a parameter with its order `less`; what
-- the pose and the unseen volume make an exit's score is the parameter `score_of`, and whether its
-- gap is under the minimum `too_narrow`.
use mathlib.Core.List.Perm
use robo_cam_stream_processi.Prelude.{
  String, Bool, if◌then◌else◌, Option, true, List, str_eq, false, not, ◌∷◌, map, Perm, ◌||◌, none,
  ◌++◌, if_both, some, Option-cases, ◌≡◌, inl, Bool-cases, inr, refl, ◌⊎◌, ◌≢◌, subst, sym, ◌∙◌, ap,
}
use mathlib.Core.List.{[], perm_middle}

pub data Status : Type 0 where
  open_exit visited blocked : Status

-- `status` of a candidate; a word that the protocol does not have is unusable.
unfoldable pub status_of : String → Status
status_of word =
    if str_eq word "open" || str_eq word ""
    then open_exit
    else if str_eq word "visited"
    then visited
    else blocked

pub record Exit (Place : Type 0) : Type 0 where
  pub id : String
  pub place : Place
  pub status : Status

pub data Reason : Type 0 where
  usable not_open narrow : Reason

pub record Entry (Score : Type 0) : Type 0 where
  pub id : String
  pub score : Option Score
  pub reason : Reason

module _ {Place Score : Type 0} (score_of : Exit Place → Score) (too_narrow : Exit Place → Bool)
    (less : Score → Score → Bool) where
  is_open : Status → Bool
  is_open open_exit = true
  is_open _ = false

  -- The body of the loop.
  unfoldable pub entry : Exit Place → Entry Score
  unfolding is_open
  entry e =
      if not (is_open e.status)
      then record { id = e.id; score = none; reason = not_open }
      else if too_narrow e
      then record { id = e.id; score = none; reason = narrow }
      else record { id = e.id; score = some (score_of e); reason = usable }

  -- Those with a score, and those without.
  pub scored : List (Entry Score) → List (Score × Entry Score)
  scored [] = []
  scored (e ∷ es) = elim e.score [ none ↦ scored es | some f ↦ (f, e) ∷ scored es ]

  pub rejected : List (Entry Score) → List (Entry Score)
  rejected [] = []
  rejected (e ∷ es) = elim e.score [ none ↦ e ∷ rejected es | some f ↦ rejected es ]

  -- `sort(key=..., reverse=True)`, which keeps entries of one score in their order.
  insert : Score × Entry Score → List (Score × Entry Score) → List (Score × Entry Score)
  insert x [] = x ∷ []
  insert x (y ∷ ys) = let rest = insert x ys in if less x.0 y.0 then y ∷ rest else x ∷ y ∷ ys

  pub sort : List (Score × Entry Score) → List (Score × Entry Score)
  unfolding insert
  sort [] = []
  sort (x ∷ xs) = insert x (sort xs)

  first_id : List (Score × Entry Score) → String
  first_id [] = ""
  first_id (x ∷ xs) = x.1.id

  -- The ranking and the id that is chosen.
  unfoldable pub rank_exits : List (Exit Place) → List (Entry Score) × String
  unfolding first_id
  rank_exits candidates =
      let best = sort (scored (map entry candidates)) in
      (map (λ x. x.1) best ++ rejected (map entry candidates), first_id best)

  abbrev entries : List (Score × Entry Score) → List (Entry Score)
  entries = map (λ x. x.1)

  insert-perm :
      (x : Score × Entry Score) (xs : List (Score × Entry Score))
      → Perm (x.1 ∷ entries xs) (entries (insert x xs))
  unfolding insert
  insert-perm x [] = Perm.refl _
  insert-perm x (y ∷ ys) =
      if_both (λ (zs : List (Score × Entry Score)). Perm (x.1 ∷ y.1 ∷ entries ys) (entries zs))
        (less x.0 y.0)
        (Perm.trans (Perm.swap y.1 x.1 (entries ys)) (Perm.cons y.1 (insert-perm x ys)))
        (Perm.refl _)

  sort-perm : (xs : List (Score × Entry Score)) → Perm (entries xs) (entries (sort xs))
  unfolding sort
  sort-perm [] = Perm.refl _
  sort-perm (x ∷ xs) = Perm.trans (Perm.cons x.1 (sort-perm xs)) (insert-perm x (sort xs))

  partition : (es : List (Entry Score)) → Perm es (entries (scored es) ++ rejected es)
  unfolding scored rejected
  partition [] = Perm.refl _
  partition (e ∷ es) = elim (Option-cases e.score) [
    | inl none_given ↦ simp none_given (
        Perm.trans (Perm.cons e (partition es))
          (Perm.symm (perm_middle (entries (scored es)) (rejected es))))
    | inr (f, given) ↦ simp given (Perm.cons e (partition es))
  ]

  -- The ranking loses and invents no exit: it is the candidates' entries in another order.
  pub rank_exits-perm :
      (candidates : List (Exit Place)) → Perm (map entry candidates) (rank_exits candidates).0
  unfolding rank_exits
  rank_exits-perm candidates =
      let es = map entry candidates in
      Perm.trans (partition es) (Perm.append_right (rejected es) (sort-perm (scored es)))

  abbrev pub NoneAbove : Score → List (Score × Entry Score) → Type 0
  NoneAbove f [] = Unit
  NoneAbove f (y ∷ ys) = (less f y.0 ≡ false) × NoneAbove f ys

  -- Not open, or not wide enough.
  abbrev pub IsUnusable : Exit Place → Type 0
  IsUnusable e = (e.status ≢ open_exit) ⊎ (too_narrow e ≡ true)

  abbrev pub AllUnusable : List (Exit Place) → Type 0
  AllUnusable [] = Unit
  AllUnusable (e ∷ es) = IsUnusable e × AllUnusable es

  abbrev pub Among : Exit Place → List (Exit Place) → Type 0
  Among e [] = ⊥
  Among e (c ∷ cs) = (e ≡ c) ⊎ Among e cs

  -- Each candidate is unusable or has a score that is not above.
  abbrev pub NoneBetter : Score → List (Exit Place) → Type 0
  NoneBetter f [] = Unit
  NoneBetter f (e ∷ es) = (IsUnusable e ⊎ (less f (score_of e) ≡ false)) × NoneBetter f es

  -- The choice of a ranking: none where all candidates are unusable; else one of them that is open
  -- and wide enough, which stands first with its score, and none is better.
  pub IsBest : List (Exit Place) → List (Entry Score) × String → Type 0
  IsBest candidates (ranked, chosen) =
      (AllUnusable candidates × (chosen ≡ ""))
      ⊎ ((best : Exit Place) × (rest : List (Entry Score)) × Among best candidates
          × (best.status ≡ open_exit)
          × (too_narrow best ≡ false)
          × (chosen ≡ best.id)
          × (ranked ≡ record { id = best.id; score = some (score_of best); reason = usable } ∷ rest)
          × NoneBetter (score_of best) candidates)

  closed : (s : Status) → is_open s ≡ false → s ≢ open_exit
  unfolding is_open
  closed open_exit e = absurd cc
  closed visited e = λ same. absurd cc
  closed blocked e = λ same. absurd cc

  opened : (s : Status) → is_open s ≡ true → s ≡ open_exit
  unfolding is_open
  opened open_exit e = refl
  opened visited e = absurd cc
  opened blocked e = absurd cc

  abbrev usable_entry : Exit Place → Entry Score
  usable_entry e = record { id = e.id; score = some (score_of e); reason = usable }

  -- What `entry` makes of a candidate.
  abbrev IsEntry : Exit Place → Entry Score → Type 0
  IsEntry e x =
      (IsUnusable e × (x.score ≡ none))
      ⊎ ((e.status ≡ open_exit) × (too_narrow e ≡ false) × (x ≡ usable_entry e))

  entry-IsEntry : (e : Exit Place) → IsEntry e (entry e)
  unfolding entry
  entry-IsEntry e = elim (Bool-cases (is_open e.status)) [
    | inr shut ↦ rw shut (inl (inl (closed e.status shut), refl))
    | inl is ↦ elim (Bool-cases (too_narrow e)) [
      | inl slim ↦ rw (is, slim) (inl (inr refl, refl))
      | inr wide ↦ rw (is, wide) (inr (opened e.status is, refl, refl))
    ]
  ]

  scored_one :
      (x : Entry Score) (xs : List (Entry Score)) → x.score ≡ none → scored (x ∷ xs) ≡ scored xs
  unfolding scored
  scored_one x xs e = simp e refl

  scored_more :
      (e : Exit Place) (x : Entry Score) (xs : List (Entry Score))
      → x ≡ usable_entry e
      → scored (x ∷ xs) ≡ (score_of e, usable_entry e) ∷ scored xs
  unfolding scored
  scored_more e x xs same = ap (λ y. scored (y ∷ xs)) same

  cons_differs : {A : Type 0} (x : A) (xs : List A) → x ∷ xs ≢ []
  cons_differs x xs e = absurd cc

  -- Where nothing is scored nothing is usable.
  none_scored : (es : List (Exit Place)) → scored (map entry es) ≡ [] → AllUnusable es
  none_scored [] e = tt
  none_scored (x ∷ xs) e = elim (entry-IsEntry x) [
    | inl (out, bare) ↦ (out, none_scored xs (sym (scored_one (entry x) (map entry xs) bare) ∙ e))
    | inr (_, _, same) ↦
        absurd (cons_differs _ _ (sym (scored_more x (entry x) (map entry xs) same) ∙ e))
  ]

  none_better :
      (f : Score) (es : List (Exit Place)) → NoneAbove f (scored (map entry es)) → NoneBetter f es
  none_better f [] h = tt
  none_better f (x ∷ xs) h = elim (entry-IsEntry x) [
    | inl (out, bare) ↦ (
      inl out,
      none_better f xs (subst (NoneAbove f) (scored_one (entry x) (map entry xs) bare) h),
    )
    | inr (_, _, same) ↦
        let (here, rest) : NoneAbove f ((score_of x, usable_entry x) ∷ scored (map entry xs)) =
          subst (NoneAbove f) (scored_more x (entry x) (map entry xs) same) h in
        (inr here, none_better f xs rest)
  ]

  module _ (asym : (a b : Score) → less a b ≡ true → less b a ≡ false)
      (chain : (a b c : Score) → less a b ≡ false → less b c ≡ false → less a c ≡ false) where
    irreflexive : (a : Score) → less a a ≡ false
    irreflexive a = elim (Bool-cases (less a a)) [ inl e ↦ asym a a e | inr e ↦ e ]

    NoneAbove-insert :
        (f : Score) (x : Score × Entry Score) (ys : List (Score × Entry Score))
        → less f x.0 ≡ false
        → NoneAbove f ys
        → NoneAbove f (insert x ys)
    unfolding insert
    NoneAbove-insert f x [] e h = (e, tt)
    NoneAbove-insert f x (y ∷ ys) e (d, h) =
        if_both (NoneAbove f) (less x.0 y.0) (d, NoneAbove-insert f x ys e h) (e, (d, h))

    below :
        (f g : Score) (ys : List (Score × Entry Score))
        → less f g ≡ false
        → NoneAbove g ys
        → NoneAbove f ys
    below f g [] e h = tt
    below f g (y ∷ ys) e (d, h) = (chain f g y.0 e d, below f g ys e h)

    -- Nothing is above the first.
    Top : List (Score × Entry Score) → Type 0
    Top [] = Unit
    Top (y ∷ ys) = NoneAbove y.0 ys

    Top-insert :
        (x : Score × Entry Score) (ys : List (Score × Entry Score)) → Top ys → Top (insert x ys)
    unfolding insert Top
    Top-insert x [] h = tt
    Top-insert x (y ∷ ys) h = elim (Bool-cases (less x.0 y.0)) [
      | inl worse ↦ simp worse (NoneAbove-insert y.0 x ys (asym x.0 y.0 worse) h)
      | inr better ↦ simp better (refl, below x.0 y.0 ys better h)
    ]

    Top-sort : (xs : List (Score × Entry Score)) → Top (sort xs)
    unfolding sort Top
    Top-sort [] = tt
    Top-sort (x ∷ xs) = Top-insert x (sort xs) (Top-sort xs)

    NoneAbove-uninsert :
        (f : Score) (x : Score × Entry Score) (ys : List (Score × Entry Score))
        → NoneAbove f (insert x ys)
        → NoneAbove f (x ∷ ys)
    unfolding insert
    NoneAbove-uninsert f x [] h = h
    NoneAbove-uninsert f x (y ∷ ys) h = elim (Bool-cases (less x.0 y.0)) [
      | inl worse ↦
          let (d, r) : (less f y.0 ≡ false) × NoneAbove f (insert x ys) = simp worse at h in
          let (e, k) = NoneAbove-uninsert f x ys r in (e, (d, k))
      | inr better ↦ simp better at h
    ]

    NoneAbove-unsort :
        (f : Score) (xs : List (Score × Entry Score)) → NoneAbove f (sort xs) → NoneAbove f xs
    unfolding sort
    NoneAbove-unsort f [] h = h
    NoneAbove-unsort f (x ∷ xs) h =
        let (e, r) = NoneAbove-uninsert f x (sort xs) h in (e, NoneAbove-unsort f xs r)

    -- Each stands for a candidate that is usable.
    Honest : List (Exit Place) → List (Score × Entry Score) → Type 0
    Honest cs [] = Unit
    Honest cs (y ∷ ys) =
        ((e : Exit Place) × Among e cs
          × (e.status ≡ open_exit)
          × (too_narrow e ≡ false)
          × (y ≡ (score_of e, usable_entry e)))
        × Honest cs ys

    Honest-insert :
        (cs : List (Exit Place)) (x : Score × Entry Score) (ys : List (Score × Entry Score))
        → Honest cs (x ∷ [])
        → Honest cs ys
        → Honest cs (insert x ys)
    unfolding insert Honest
    Honest-insert cs x [] e h = e
    Honest-insert cs x (y ∷ ys) e (d, h) =
        if_both (Honest cs) (less x.0 y.0) (d, Honest-insert cs x ys e h) (e.0, (d, h))

    Honest-sort :
        (cs : List (Exit Place)) (xs : List (Score × Entry Score))
        → Honest cs xs
        → Honest cs (sort xs)
    unfolding sort Honest
    Honest-sort cs [] h = tt
    Honest-sort cs (x ∷ xs) (e, h) = Honest-insert cs x (sort xs) (e, tt) (Honest-sort cs xs h)

    Honest-more :
        (c : Exit Place) (cs : List (Exit Place)) (xs : List (Score × Entry Score))
        → Honest cs xs
        → Honest (c ∷ cs) xs
    unfolding Honest
    Honest-more c cs [] h = tt
    Honest-more c cs (x ∷ xs) ((e, m, is, wide, same), h) =
        ((e, inr m, is, wide, same), Honest-more c cs xs h)

    Honest-scored : (es : List (Exit Place)) → Honest es (scored (map entry es))
    unfolding Honest scored
    Honest-scored [] = tt
    Honest-scored (x ∷ xs) =
        let later = Honest-more x xs (scored (map entry xs)) (Honest-scored xs) in
        elim (entry-IsEntry x) [
          | inl (_, bare) ↦
              subst (Honest (x ∷ xs)) (sym (scored_one (entry x) (map entry xs) bare)) later
          | inr (is, wide, same) ↦
              subst (Honest (x ∷ xs)) (sym (scored_more x (entry x) (map entry xs) same))
                ((x, inl refl, is, wide, refl), later)
        ]

    insert_filled : (x : Score × Entry Score) (ys : List (Score × Entry Score)) → insert x ys ≢ []
    unfolding insert
    insert_filled x [] = λ e. absurd cc
    insert_filled x (y ∷ ys) =
        if_both (λ (zs : List (Score × Entry Score)). zs ≢ []) (less x.0 y.0) (λ e. absurd cc)
          (λ e. absurd cc)

    sort_empty : (xs : List (Score × Entry Score)) → sort xs ≡ [] → xs ≡ []
    unfolding sort
    sort_empty [] e = refl
    sort_empty (x ∷ xs) e = absurd (insert_filled x (sort xs) e)

    first-IsBest :
        (cs : List (Exit Place)) (xs : List (Score × Entry Score))
        → sort (scored (map entry cs)) ≡ xs
        → Top xs
        → Honest cs xs
        → IsBest cs (entries xs ++ rejected (map entry cs), first_id xs)
    unfolding IsBest first_id Top Honest
    first-IsBest cs [] e t h = inl (none_scored cs (sort_empty (scored (map entry cs)) e), refl)
    first-IsBest cs (x ∷ xs) e t ((best, m, is, wide, same), _) =
        let above =
          NoneAbove-unsort x.0 (scored (map entry cs))
            (subst (NoneAbove x.0) (sym e) (irreflexive x.0, t)) in
        inr (
          best,
          entries xs ++ rejected (map entry cs),
          m,
          is,
          wide,
          ap (λ (y : Score × Entry Score). y.1.id) same,
          ap (λ (y : Score × Entry Score). y.1 ∷ (entries xs ++ rejected (map entry cs))) same,
          none_better (score_of best) cs (
              subst (λ (y : Score × Entry Score). NoneAbove y.0 (scored (map entry cs))) same
                above),
        )

    -- If the order of the scores is that of numbers (no NaN): where some candidate is open and wide
    -- enough, the exit that is chosen is one of these, it stands first in the ranking with its score,
    -- and no candidate that is open and wide enough has a score above its; where none is, nothing
    -- is chosen.
    pub rank_exits-IsBest :
        (candidates : List (Exit Place)) → IsBest candidates (rank_exits candidates)
    unfolding rank_exits
    rank_exits-IsBest candidates =
        let found = scored (map entry candidates) in
        first-IsBest candidates (sort found) refl (Top-sort found)
          (Honest-sort candidates found (Honest-scored candidates))
