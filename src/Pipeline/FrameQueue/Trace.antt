-- ===== src/Pipeline/FrameQueue/Trace.antt =====
-- Any sequence of calls on one queue, by the IO thread and the workers in whatever order.
use mathlib.Core.Option
use mathlib.Core.List.Perm
use mathlib.Core.List.{[]}
use robo_cam_stream_processi.Pipeline.FrameQueue.Window.{
  IsValid, outcome, outcome-IsValid, put-outcome, outcome-perm, outcome-fifo, IsFifo,
  outcome-IsFifo,
}
use robo_cam_stream_processi.Prelude.{
  ℕ, Option, ◌∷◌, some, ◌≡◌, arith, ◌++◌, List, Perm, [], refl, append-nil, append_assoc, false,
  Bool, true, sym, ◌∙◌, ap,
}
use robo_cam_stream_processi.Pipeline.FrameQueue.{FrameQueue, frames, put, get, drain, close}
use mathlib.Core.Option.{none}

-- One call, with the clock's value for `put`.
pub data Event {ℓ} (A : Type ℓ) : Type ℓ where
  puts : ℕ → A → Event A
  gets drains closes : Event A

module _ {ℓ} {A : Type ℓ} where
  -- The frame that a `get` gave out.
  abbrev pub given : Option (ℕ × A) → List A
  given none = []
  given (some (t, a)) = a ∷ []

  -- The queue after the call, and the frames that left it: handed back, given out or drained.
  step : Event A → FrameQueue A → Option (FrameQueue A × List A)
  step (puts now frame) q = put now frame q
  step gets q = let (q', item) = get q in some (q', given item)
  step drains q = some (drain q)
  step closes q = some (close q, [])

  pub run : List (Event A) → FrameQueue A → Option (FrameQueue A × List A)
  run [] q = some (q, [])
  run (e ∷ es) q = elim (step e q) [
    | none ↦ none
    | some (q', out) ↦ Option.map (λ r. (r.0, out ++ r.1)) (run es q')
  ]

  -- The frames offered to the queue.
  abbrev pub submitted : List (Event A) → List A
  submitted [] = []
  submitted (puts now frame ∷ es) = frame ∷ submitted es
  submitted (gets ∷ es) = submitted es
  submitted (drains ∷ es) = submitted es
  submitted (closes ∷ es) = submitted es

  -- `step` on a valid queue, where it cannot fail.
  next : Event A → FrameQueue A → FrameQueue A × List A
  unfolding get drain close
  next (puts now frame) q = outcome now frame q
  next gets q = let (q', item) = get q in (q', given item)
  next drains q = drain q
  next closes q = (close q, [])

  step-next : (e : Event A) (q : FrameQueue A) → IsValid q → step e q ≡ some (next e q)
  unfolding step next
  step-next (puts now frame) q v = put-outcome now frame q v.deep
  step-next gets q v = refl
  step-next drains q v = refl
  step-next closes q v = refl

  pub get-IsValid :
      (items : List (ℕ × A)) (q : FrameQueue A) → IsValid q → q.items ≡ items → IsValid (get q).0
  unfolding get
  get-IsValid [] q v e = ground arith
  get-IsValid (x ∷ xs) q v e = ground arith

  pub get-exact :
      (items : List (ℕ × A)) (q : FrameQueue A)
      → q.items ≡ items
      → given (get q).1 ++ frames (get q).0 ≡ frames q
  unfolding get
  get-exact [] q e = simp (e, get)
  get-exact ((t, a) ∷ xs) q e = simp (e, get)

  get-IsFifo :
      (items : List (ℕ × A)) (q : FrameQueue A) → q.items ≡ items → IsFifo q → IsFifo (get q).0
  unfolding get
  get-IsFifo [] q e f = ground arith
  get-IsFifo (x ∷ xs) q e f = ground arith

  next-IsValid : (e : Event A) (q : FrameQueue A) → IsValid q → IsValid (next e q).0
  unfolding next
  next-IsValid (puts now frame) q v = outcome-IsValid now frame q v
  next-IsValid gets q v = get-IsValid q.items q v refl
  next-IsValid drains q v = record { deep = v.deep; bounded = omega arith }
  next-IsValid closes q v = record { deep = v.deep; bounded = v.bounded }

  next-perm :
      (e : Event A) (q : FrameQueue A)
      → Perm (frames q ++ submitted (e ∷ [])) ((next e q).1 ++ frames (next e q).0)
  unfolding next drain
  next-perm (puts now frame) q = outcome-perm now frame q
  next-perm gets q = rw (append-nil, get-exact q.items q refl) (Perm.refl _)
  next-perm drains q = Perm.refl _
  next-perm closes q = rw append-nil (Perm.refl _)

  -- What `run` does, where no call fails.
  history : List (Event A) → FrameQueue A → FrameQueue A × List A
  unfolding next
  history [] q = (q, [])
  history (e ∷ es) q = let (q', out) = next e q in let r = history es q' in (r.0, out ++ r.1)

  run-history :
      (es : List (Event A)) (q : FrameQueue A) → IsValid q → run es q ≡ some (history es q)
  unfolding run history
  run-history [] q v = refl
  run-history (e ∷ es) q v =
      rw (step-next e q v, run) (rw (run-history es (next e q).0 (next-IsValid e q v)))

  history-IsValid : (es : List (Event A)) (q : FrameQueue A) → IsValid q → IsValid (history es q).0
  unfolding history
  history-IsValid [] q v = v
  history-IsValid (e ∷ es) q v = history-IsValid es (next e q).0 (next-IsValid e q v)

  submitted-cons :
      (e : Event A) (es : List (Event A)) → submitted (e ∷ es) ≡ submitted (e ∷ []) ++ submitted es
  submitted-cons (puts now frame) es = refl
  submitted-cons gets es = refl
  submitted-cons drains es = refl
  submitted-cons closes es = refl

  history-perm :
      (es : List (Event A)) (q : FrameQueue A)
      → Perm (frames q ++ submitted es) ((history es q).1 ++ frames (history es q).0)
  unfolding history
  history-perm [] q = rw append-nil (Perm.refl _)
  history-perm (e ∷ es) q =
      let (q', out) = next e q in
      let first = Perm.append_right (submitted es) (next-perm e q) in
      let rest = Perm.append_left out (history-perm es q') in
      simp (submitted-cons e es, append_assoc) (Perm.trans (simp append_assoc at first) rest)

  -- From a valid queue any sequence of calls returns, leaves the backlog within `max_depth`, and
  -- loses and invents no frame: the frames held before and those submitted are, up to order and
  -- counted with their multiplicity, those that left the queue and those it holds at the end.
  pub run-perm :
      (es : List (Event A)) (q : FrameQueue A)
      → IsValid q
      → (q' : FrameQueue A) × (out : List A) × (run es q ≡ some (q', out))
        × IsValid q'
        × Perm (frames q ++ submitted es) (out ++ frames q')
  run-perm es q v = (
    (history es q).0,
    (history es q).1,
    run-history es q v,
    history-IsValid es q v,
    history-perm es q,
  )

  abbrev stays_open : Event A → Bool
  stays_open closes = false
  stays_open _ = true

  abbrev pub StaysOpen : List (Event A) → Type 0
  StaysOpen [] = Unit
  StaysOpen (e ∷ es) = (stays_open e ≡ true) × StaysOpen es

  next-IsFifo :
      (e : Event A) (q : FrameQueue A) → stays_open e ≡ true → IsFifo q → IsFifo (next e q).0
  unfolding next
  next-IsFifo (puts now frame) q h f = outcome-IsFifo now frame q f
  next-IsFifo gets q h f = get-IsFifo q.items q refl f
  next-IsFifo drains q h f = record { policy = f.policy; opened = f.opened }
  next-IsFifo closes q h f = cc

  next-fifo :
      (e : Event A) (q : FrameQueue A)
      → stays_open e ≡ true
      → IsFifo q
      → (next e q).1 ++ frames (next e q).0 ≡ frames q ++ submitted (e ∷ [])
  unfolding next drain
  next-fifo (puts now frame) q h f = outcome-fifo now frame q f.policy f.opened
  next-fifo gets q h f = rw append-nil (get-exact q.items q refl)
  next-fifo drains q h f = refl
  next-fifo closes q h f = cc

  history-fifo :
      (es : List (Event A)) (q : FrameQueue A)
      → StaysOpen es
      → IsFifo q
      → (history es q).1 ++ frames (history es q).0 ≡ frames q ++ submitted es
  unfolding history
  history-fifo [] q h f = sym (append-nil (frames q))
  history-fifo (e ∷ es) q h f =
      let (q', out) = next e q in
      append_assoc out (history es q').1 (frames (history es q').0)
      ∙ ap (◌++◌ out) (history-fifo es q' h.1 (next-IsFifo e q h.0 f))
      ∙ sym (append_assoc out (frames q') (submitted es))
      ∙ ap (λ l. l ++ submitted es) (next-fifo e q h.0 f)
      ∙ append_assoc (frames q) (submitted (e ∷ [])) (submitted es)
      ∙ ap (◌++◌ (frames q)) (sym (submitted-cons e es))

  -- Under "oldest", from a valid open queue and with no `close` among the calls, frames leave in the
  -- order of their arrival: those that left, in order, followed by those still held are the frames
  -- held before followed by those submitted.
  pub run-fifo :
      (es : List (Event A)) (q : FrameQueue A)
      → IsValid q
      → IsFifo q
      → StaysOpen es
      → (q' : FrameQueue A) × (out : List A) × (run es q ≡ some (q', out))
        × (out ++ frames q' ≡ frames q ++ submitted es)
  run-fifo es q v f h =
      ((history es q).0, (history es q).1, run-history es q v, history-fifo es q h f)
