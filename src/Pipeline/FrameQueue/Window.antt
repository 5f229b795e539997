-- ===== src/Pipeline/FrameQueue/Window.antt =====
-- What one `put` does to the queue: a sliding window over the arrivals.
use mathlib.Core.Option
use mathlib.Core.List.Perm
use mathlib.Core.List.{perm_append_comm}
use robo_cam_stream_processi.Prelude.{
  ℕ, suc, ◌-◌, ◌≤◌, ◌≡◌, inl, inr, some, List, [], ◌∷◌, length, take, drop, leb, Bool-cases, arith,
  take-append_left, drop-append_left, ◌++◌, ◌+◌, length-drop, length-append, if◌then◌else◌,
  length-map, length-take, Perm, false, sym, map-append, ◌∙◌, ap, take-append-drop,
}
use robo_cam_stream_processi.Pipeline.FrameQueue.{
  stored, make_room, FrameQueue, put, oldest, DropPolicy, enqueue, refuse_or_enqueue, newest,
  frames,
}

-- How many of `n` entries go to bring the queue under `d`.
abbrev pub excess : ℕ → ℕ → ℕ
excess d n = suc n - d

module _ {ℓ} {A : Type ℓ} where
  make_room_lem :
      (d : ℕ) (xs : List (ℕ × A))
      → 1 ≤ d
      → make_room d xs
        ≡ some (stored (take (excess d (length xs)) xs), drop (excess d (length xs)) xs)
  unfolding make_room
  make_room_lem d [] h = let e : 1 - d ≡ 0 = omega arith in rw e (ground arith)
  make_room_lem d ((t, a) ∷ xs) h = elim (Bool-cases (leb d (suc (length xs)))) [
    | inl full ↦
        let e : suc (suc (length xs)) - d ≡ suc (suc (length xs) - d) = ground arith in
        rw (full, make_room_lem d xs h, e)
    | inr room ↦ let e : suc (suc (length xs)) - d ≡ 0 = ground arith in rw (room, e)
  ]

  -- The queue after an arrival: the window slides, and what falls out of it is handed back.
  pub slide : ℕ → A → FrameQueue A → FrameQueue A × List A
  slide now frame q = (
    record q {
      items = drop (excess q.max_depth (length q.items)) (q.items ++ (now, frame) ∷ []);
      dropped_total = q.dropped_total + excess q.max_depth (length q.items);
    },
    stored (take (excess q.max_depth (length q.items)) (q.items ++ (now, frame) ∷ [])),
  )

  -- What "newest" does: a full queue refuses the arrival.
  pub refuse : ℕ → A → FrameQueue A → FrameQueue A × List A
  refuse now frame q =
      if leb q.max_depth (length q.items)
      then (record q { dropped_total = q.dropped_total + 1 }, frame ∷ [])
      else (record q { items = q.items ++ (now, frame) ∷ [] }, [])

  outcome_for : DropPolicy → ℕ → A → FrameQueue A → FrameQueue A × List A
  outcome_for oldest = slide
  outcome_for newest = refuse

  -- The abstract view of `put`: a closed queue hands the arrival back, an open one slides or refuses.
  unfoldable pub outcome : ℕ → A → FrameQueue A → FrameQueue A × List A
  unfolding outcome_for slide refuse
  outcome now frame q = if q.closed then (q, frame ∷ []) else outcome_for q.drop_policy now frame q

  slide_lem :
      (now : ℕ) (frame : A) (q : FrameQueue A)
      → 1 ≤ q.max_depth
      → Option.map (enqueue now frame q) (make_room q.max_depth q.items) ≡ some (slide now frame q)
  unfolding slide enqueue
  slide_lem now frame q deep =
      let k = excess q.max_depth (length q.items) in
      let fits : k ≤ length q.items = omega arith in
      let kept = take k q.items in
      let count : length (stored kept) ≡ k =
        omega (arith, length-map kept (λ (item : ℕ × A). item.1), length-take k q.items) in
      simp (
        make_room_lem q.max_depth q.items deep,
        take-append_left k q.items ((now, frame) ∷ []) fits,
        drop-append_left k q.items ((now, frame) ∷ []) fits,
        count,
      )

  put_for_lem :
      (p : DropPolicy) (now : ℕ) (frame : A) (q : FrameQueue A)
      → 1 ≤ q.max_depth
      → refuse_or_enqueue p now frame q ≡ some (outcome_for p now frame q)
  unfolding refuse_or_enqueue outcome_for refuse
  put_for_lem oldest now frame q deep = slide_lem now frame q deep
  put_for_lem newest now frame q deep = ground arith

  -- On a queue of depth at least 1 `put` never fails, and is `outcome`: a closed queue hands the
  -- arrival back and counts nothing; under "newest" a full queue hands the arrival back and counts
  -- it; under "oldest" the queue keeps exactly the last `max_depth` of the entries it held followed
  -- by the arrival, and hands back and counts the others.
  pub put-outcome :
      (now : ℕ) (frame : A) (q : FrameQueue A)
      → 1 ≤ q.max_depth
      → put now frame q ≡ some (outcome now frame q)
  unfolding put outcome
  put-outcome now frame q deep = ground (arith, put_for_lem q.drop_policy now frame q deep)

  -- The bound on the backlog, with the configuration that `QueueConfig` lets through.
  pub record IsValid (q : FrameQueue A) : Type 0 where
    pub deep : 1 ≤ q.max_depth
    pub bounded : length q.items ≤ q.max_depth

  outcome_for-IsValid :
      (p : DropPolicy) (now : ℕ) (frame : A) (q : FrameQueue A)
      → IsValid q
      → IsValid (outcome_for p now frame q).0
  unfolding outcome_for slide refuse
  outcome_for-IsValid oldest now frame q v = record {
    deep = v.deep;
    bounded = omega (
      arith,
      v.deep,
      v.bounded,
      length-drop (excess q.max_depth (length q.items)) (q.items ++ (now, frame) ∷ []),
      length-append q.items ((now, frame) ∷ []),
    );
  }
  outcome_for-IsValid newest now frame q v =
      ground (arith, v.deep, v.bounded, length-append q.items ((now, frame) ∷ []))

  pub outcome-IsValid :
      (now : ℕ) (frame : A) (q : FrameQueue A) → IsValid q → IsValid (outcome now frame q).0
  unfolding outcome
  outcome-IsValid now frame q v = ground (arith, v, outcome_for-IsValid q.drop_policy now frame q v)

  -- What left the queue at an arrival, and what it holds, are the frames it held and the arrival.
  slide-exact :
      (now : ℕ) (frame : A) (q : FrameQueue A)
      → (slide now frame q).1 ++ frames (slide now frame q).0 ≡ frames q ++ frame ∷ []
  unfolding slide
  slide-exact now frame q =
      let k = excess q.max_depth (length q.items) in
      let arrivals = q.items ++ (now, frame) ∷ [] in
      sym (map-append _ (take k arrivals) (drop k arrivals))
      ∙ ap stored (take-append-drop k arrivals)
      ∙ map-append _ q.items ((now, frame) ∷ [])

  outcome_for-perm :
      (p : DropPolicy) (now : ℕ) (frame : A) (q : FrameQueue A)
      → Perm
          (frames q ++ frame ∷ [])
          ((outcome_for p now frame q).1 ++ frames (outcome_for p now frame q).0)
  unfolding outcome_for refuse
  outcome_for-perm oldest now frame q = rw slide-exact (Perm.refl _)
  outcome_for-perm newest now frame q = elim (Bool-cases (leb q.max_depth (length q.items))) [
    | inl full ↦ rw full (perm_append_comm (frames q) (frame ∷ []))
    | inr room ↦ rw (room, map-append) (Perm.refl _)
  ]

  pub outcome-perm :
      (now : ℕ) (frame : A) (q : FrameQueue A)
      → Perm (frames q ++ frame ∷ []) ((outcome now frame q).1 ++ frames (outcome now frame q).0)
  unfolding outcome
  outcome-perm now frame q = elim (Bool-cases q.closed) [
    | inl shut ↦ simp shut (perm_append_comm (frames q) (frame ∷ []))
    | inr opened ↦ simp opened (outcome_for-perm q.drop_policy now frame q)
  ]

  outcome_for-length :
      (p : DropPolicy) (now : ℕ) (frame : A) (q : FrameQueue A)
      → length (outcome_for p now frame q).1 + length (frames (outcome_for p now frame q).0)
        ≡ suc (length (frames q))
  unfolding outcome_for refuse
  outcome_for-length oldest now frame q = omega (
    arith,
    ap length (slide-exact now frame q),
    length-append (slide now frame q).1 (frames (slide now frame q).0),
    length-append (frames q) (frame ∷ []),
  )
  outcome_for-length newest now frame q = elim (Bool-cases (leb q.max_depth (length q.items))) [
    | inl full ↦ simp full (omega arith)
    | inr room ↦ simp (room, map-append) (omega (arith, length-append (frames q) (frame ∷ [])))
  ]

  -- One frame more is answered or queued.
  pub outcome-length :
      (now : ℕ) (frame : A) (q : FrameQueue A)
      → length (outcome now frame q).1 + length (frames (outcome now frame q).0)
        ≡ suc (length (frames q))
  unfolding outcome
  outcome-length now frame q = elim (Bool-cases q.closed) [
    | inl shut ↦ simp shut (omega arith)
    | inr opened ↦ simp opened (outcome_for-length q.drop_policy now frame q)
  ]

  pub outcome-fifo :
      (now : ℕ) (frame : A) (q : FrameQueue A)
      → q.drop_policy ≡ oldest
      → q.closed ≡ false
      → (outcome now frame q).1 ++ frames (outcome now frame q).0 ≡ frames q ++ frame ∷ []
  unfolding outcome
  outcome-fifo now frame q policy opened = simp (policy, opened) (slide-exact now frame q)

  -- The configuration that the server ships with, while it runs.
  pub record IsFifo (q : FrameQueue A) : Type 0 where
    pub policy : q.drop_policy ≡ oldest
    pub opened : q.closed ≡ false

  pub outcome-IsFifo :
      (now : ℕ) (frame : A) (q : FrameQueue A) → IsFifo q → IsFifo (outcome now frame q).0
  unfolding outcome
  outcome-IsFifo now frame q f = ground (arith, f.policy, f.opened)
