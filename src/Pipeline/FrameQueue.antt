-- ===== src/Pipeline/FrameQueue.antt =====
-- `FrameQueue` of robocam/pipeline.py. Each method runs under the condition's lock, so a method is
-- one step; the clock's value is an argument. `none` is an IndexError from popping an empty deque.
pub mod Window
pub mod Trace
use mathlib.Core.Option
use robo_cam_stream_processi.Prelude.{
  ℕ, ◌+◌, Bool, false, Option, none, some, List, [], ◌∷◌, ◌++◌, map, length, leb, if◌then◌else◌,
  true,
}

-- `drop_policy`; `QueueConfig` refuses any other word.
pub data DropPolicy : Type 0 where
  oldest newest : DropPolicy

pub record FrameQueue {ℓ} (A : Type ℓ) : Type ℓ where
  pub max_depth : ℕ
  pub drop_policy : DropPolicy
  pub items : List (ℕ × A)
  pub closed : Bool
  pub dropped_total : ℕ

module _ {ℓ} {A : Type ℓ} where
  abbrev pub stored : List (ℕ × A) → List A
  stored = map (λ item. item.1)

  -- The frames in the queue, oldest first.
  abbrev pub frames : FrameQueue A → List A
  frames q = stored q.items

  pub empty : ℕ → DropPolicy → FrameQueue A
  empty max_depth drop_policy = record {
    max_depth = max_depth;
    drop_policy = drop_policy;
    items = [];
    closed = false;
    dropped_total = 0;
  }

  -- `while len(self._items) >= self.max_depth: popleft()`: the frames evicted and the items left.
  unfoldable pub make_room : ℕ → List (ℕ × A) → Option (List A × List (ℕ × A))
  make_room max_depth [] = if leb max_depth 0 then none else some ([], [])
  make_room max_depth ((t, old) ∷ rest) =
      if leb max_depth (length ((t, old) ∷ rest))
      then Option.map (λ r. (old ∷ r.0, r.1)) (make_room max_depth rest)
      else some ([], (t, old) ∷ rest)

  -- What "oldest" does with the room that was made.
  enqueue : ℕ → A → FrameQueue A → List A × List (ℕ × A) → FrameQueue A × List A
  enqueue now frame q (evicted, kept) = (
    record q {
      items = kept ++ (now, frame) ∷ [];
      dropped_total = q.dropped_total + length evicted;
    },
    evicted,
  )

  refuse_or_enqueue : DropPolicy → ℕ → A → FrameQueue A → Option (FrameQueue A × List A)
  unfolding enqueue
  refuse_or_enqueue newest now frame q =
      if leb q.max_depth (length q.items)
      then some (record q { dropped_total = q.dropped_total + 1 }, frame ∷ [])
      else some (record q { items = q.items ++ (now, frame) ∷ [] }, [])
  refuse_or_enqueue oldest now frame q =
      Option.map (enqueue now frame q) (make_room q.max_depth q.items)

  -- The new queue and the frames that the caller has to answer as dropped.
  unfoldable pub put : ℕ → A → FrameQueue A → Option (FrameQueue A × List A)
  unfolding refuse_or_enqueue
  put now frame q =
      if q.closed then some (q, frame ∷ []) else refuse_or_enqueue q.drop_policy now frame q

  -- `get` after its wait: while it waits it holds no lock, and other calls are steps of their own.
  unfoldable pub get : FrameQueue A → FrameQueue A × Option (ℕ × A)
  get q = elim q.items [ [] ↦ (q, none) | item ∷ rest ↦ (record q { items = rest }, some item) ]

  unfoldable pub close : FrameQueue A → FrameQueue A
  close q = record q { closed = true }

  unfoldable pub drain : FrameQueue A → FrameQueue A × List A
  drain q = (record q { items = [] }, frames q)

  pub len : FrameQueue A → ℕ
  len q = length q.items
