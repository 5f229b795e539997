-- ===== src/Pipeline/Workers/Conservation.antt =====
-- Every submitted frame is in one place, whatever the interleaving.
use mathlib.Core.List.Perm
use mathlib.Core.List.{perm_append_comm, perm_middle}
use robo_cam_stream_processi.Pipeline.FrameQueue.{FrameQueue, get, frames}
use robo_cam_stream_processi.Pipeline.Workers.{
  Processor, ProcessedResult, Pool, Step, submit, pull, finish, flush, Reach, here, next, work,
  unsent, sent,
}
use robo_cam_stream_processi.Prelude.{
  List, Perm, ℕ, map, ◌++◌, append_assoc, sym, ◌∙◌, ◌∷◌, [], ◌≡◌, ap, some, map-append, subst,
  Option, refl, some_inj, Bool, Bool-cases, inl, ◌+◌, inr,
}
use robo_cam_stream_processi.Pipeline.FrameQueue.Window.{
  IsValid, outcome-perm, put-outcome, outcome, outcome-IsValid,
}
use robo_cam_stream_processi.Pipeline.FrameQueue.Trace.{given, get-exact, get-IsValid}

module _ {ℓ} {A : Type ℓ} where
  swap_front : (b e f : List A) → Perm (b ++ (e ++ f)) (e ++ (b ++ f))
  swap_front b e f =
      let swapped = Perm.append_right f (perm_append_comm b e) in simp append_assoc at swapped

module _ (p : Processor) where
  open p use {Frame, State}

  abbrev held : List (State × (ℕ × Frame)) → List Frame
  held = map (λ b. b.1.1)

  abbrev finished : List (ProcessedResult p) → List Frame
  finished = map (λ r. r.frame)

  -- Where a frame can be: thrown away with its session, answered, finished, with a worker, or queued.
  abbrev pub placed : Pool p → List Frame
  placed c = c.discarded ++ (c.answered ++ (finished c.results ++ (held c.busy ++ frames c.queue)))

  abbrev pub Accounted : Pool p → Type 0
  Accounted c = Perm c.submitted (placed c)

  submit-Accounted :
      (c : Pool p) (now : ℕ) (frame : Frame)
      → Accounted c
      → Perm (c.submitted ++ frame ∷ []) (
          placed (record c {
            queue = (outcome now frame c.queue).0;
            answered = c.answered ++ (outcome now frame c.queue).1;
          }))
  submit-Accounted c now frame a =
      let (q, evicted) = outcome now frame c.queue in
      let before = c.discarded ++ (c.answered ++ (finished c.results ++ held c.busy)) in
      let queued = Perm.append_left before (outcome-perm now frame c.queue) in
      let home = Perm.append_left c.discarded (
        Perm.append_left c.answered
          (swap_front (finished c.results ++ held c.busy) evicted (frames q))) in
      let start = Perm.append_right (frame ∷ []) a in
      simp append_assoc (
        Perm.trans (simp append_assoc at start)
          (Perm.trans (simp append_assoc at queued) (simp append_assoc at home)))

  pull-Accounted :
      (c : Pool p) (q : FrameQueue Frame) (item : ℕ × Frame)
      → get c.queue ≡ (q, some item)
      → Perm (held c.busy ++ frames c.queue) (item.1 ∷ (held c.busy ++ frames q))
  pull-Accounted c q item e =
      let front : item.1 ∷ frames q ≡ frames c.queue =
        ap (λ (r : FrameQueue Frame × Option (ℕ × Frame)). given r.1 ++ frames r.0) (sym e)
        ∙ get-exact c.queue.items c.queue refl in
      rw (← front) (perm_middle (held c.busy) (frames q))

  finish-Accounted :
      (c : Pool p) (got t0 t1 : ℕ) (s : State) (item : ℕ × Frame)
      (before after : List (State × (ℕ × Frame)))
      → c.busy ≡ before ++ (s, item) ∷ after
      → Perm (placed c) (
          placed (record c {
            busy = before ++ after;
            results = c.results ++ (work p got t0 t1 s item).1 ∷ [];
          }))
  unfolding work
  finish-Accounted c got t0 t1 s item before after e =
      let out =
        Perm.append_right (frames c.queue) (perm_middle {a = item.1} (held before) (held after)) in
      let moved =
        Perm.append_left c.discarded
          (Perm.append_left c.answered (Perm.append_left (finished c.results) out)) in
      simp (e, map-append, append_assoc) (simp append_assoc at moved)

  sent-unsent :
      (there : ℕ → Bool) (n : ℕ) (rs : List (ProcessedResult p))
      → Perm (finished rs) (unsent p there n rs ++ sent p there n rs)
  sent-unsent there n [] = Perm.refl _
  sent-unsent there n (r ∷ rs) = elim (Bool-cases (there n)) [
    | inl held ↦ rw held (
        Perm.trans (Perm.cons r.frame (sent-unsent there (n + 1) rs))
          (Perm.symm (perm_middle (unsent p there (n + 1) rs) (sent p there (n + 1) rs))))
    | inr gone ↦ rw gone (Perm.cons r.frame (sent-unsent there (n + 1) rs))
  ]

  flush-Accounted :
      (c : Pool p) (there : ℕ → Bool)
      → Perm (placed c) (
          placed (record c {
            results = [];
            answered = c.answered ++ sent p there 0 c.results;
            discarded = c.discarded ++ unsent p there 0 c.results;
          }))
  flush-Accounted c there =
      let rest = held c.busy ++ frames c.queue in
      let told = sent p there 0 c.results in
      let lost = unsent p there 0 c.results in
      let out =
        Perm.append_left c.discarded
          (Perm.append_left c.answered (Perm.append_right rest (sent-unsent there 0 c.results))) in
      let home = Perm.append_left c.discarded (swap_front c.answered lost (told ++ rest)) in
      simp append_assoc (Perm.trans (simp append_assoc at out) home)

  -- Each step keeps the account.
  Step-Accounted : {c d : Pool p} → Step p c d → IsValid c.queue → Accounted c → Accounted d
  Step-Accounted {c} (submit now frame {q} {evicted} e) v a =
      let r : (q, evicted) ≡ outcome now frame c.queue =
        some_inj (sym e ∙ put-outcome now frame c.queue v.deep) in
      subst
        (λ (r : FrameQueue Frame × List Frame).
          Perm (c.submitted ++ frame ∷ [])
            (placed (record c { queue = r.0; answered = c.answered ++ r.1 })))
        (sym r) (submit-Accounted c now frame a)
  Step-Accounted {c} (pull {q} {item} s before after e i) v a = Perm.trans a (
      Perm.append_left c.discarded (
        Perm.append_left c.answered
          (Perm.append_left (finished c.results) (pull-Accounted c q item e))))
  Step-Accounted {c} (finish got t0 t1 s item before after e) v a =
      Perm.trans a (finish-Accounted c got t0 t1 s item before after e)
  Step-Accounted {c} (flush there) v a = Perm.trans a (flush-Accounted c there)

  Step-IsValid : {c d : Pool p} → Step p c d → IsValid c.queue → IsValid d.queue
  Step-IsValid {c} (submit now frame e) v =
      rw
        (ap (λ (r : FrameQueue Frame × List Frame). r.0)
          (some_inj (sym e ∙ put-outcome now frame c.queue v.deep)))
        (outcome-IsValid now frame c.queue v)
  Step-IsValid {c} (pull {q} {item} s before after e i) v =
      subst IsValid (ap (λ (r : FrameQueue Frame × Option (ℕ × Frame)). r.0) e)
        (get-IsValid c.queue.items c.queue v refl)
  Step-IsValid {c} (finish got t0 t1 s item before after e) v = v
  Step-IsValid {c} (flush there) v = v

  -- Whatever the interleaving of the IO thread and the workers, from a pool whose queue is valid and
  -- whose frames are accounted for: the backlog stays within `max_depth`, and each submitted frame
  -- is, once per submission, either answered, or thrown away because its session was gone when its
  -- result was flushed, or in a finished result that is not yet flushed, or with a worker, or in the
  -- queue; none is in two of these, and nothing else is in any.
  pub reach-Accounted :
      {c d : Pool p} → IsValid c.queue → Accounted c → Reach p c d → IsValid d.queue × Accounted d
  reach-Accounted v a here = (v, a)
  reach-Accounted v a (next r st) =
      let (v', a') = reach-Accounted v a r in (Step-IsValid st v', Step-Accounted st v' a')
