-- ===== src/Pipeline/Workers.antt =====
-- `WorkerPool` of robocam/pipeline.py and the threads round it: the IO thread of
-- robocam/server.py puts frames and flushes results, the workers get frames and process them.
-- The processor is not part of the pool: it is a parameter, with its own state.
pub mod Conservation
use robo_cam_stream_processi.Pipeline.FrameQueue.{FrameQueue, put, get, frames}
use robo_cam_stream_processi.Prelude.{
  Option, String, Bool, ℕ, List, true, ◌-◌, ◌≡◌, some, false, ◌++◌, ◌∷◌, [], map, ◌+◌,
  if◌then◌else◌,
}
use robo_cam_stream_processi.Prelude.Int.{ℤ}
use mathlib.Core.Option.{none}

-- `processor.process(frame)`: it returns data (`none` is Python's None), or raises with a message;
-- either way it may have announced messages before.
pub data Outcome (Data : Type 0) : Type 0 where
  returned : Option Data → Outcome Data
  raised : String → Outcome Data

-- What the pool needs of a frame and of the processor that it runs.
pub record Processor : Type 1 where
  pub Frame : Type 0
  pub State : Type 0
  pub Data : Type 0
  pub Announcement : Type 0
  pub session_id : Frame → String
  pub seq : Frame → ℤ
  -- `{}` and `{"error": message}`
  pub no_data : Data
  pub error_data : String → Data
  pub process : State → Frame → State × Outcome Data × List Announcement

module _ (p : Processor) where
  open p use {Frame, State, Data, Announcement, process}

  pub record ProcessedResult : Type 0 where
    pub session_id : String
    pub seq : ℤ
    pub ok : Bool
    pub reason : String
    pub frame : Frame
    pub data_ : Data
    pub process_ns : ℕ
    pub queue_ns : ℕ
    pub announcements : List Announcement

  -- `data, ok, reason` after the `try`.
  verdict : Outcome Data → Data × Bool × String
  verdict (returned none) = (p.no_data, true, "ok")
  verdict (returned (some d)) = (d, true, "ok")
  verdict (raised message) = (p.error_data message, false, "processor_failed")

  -- One round of a worker's loop on the item that `get` gave it: `got` is the clock when the item
  -- was taken, `t0` and `t1` before and after the processor ran.
  unfoldable pub work : ℕ → ℕ → ℕ → State → ℕ × Frame → State × ProcessedResult
  unfolding verdict
  work got t0 t1 s (enqueued, frame) =
      let (s', outcome, announced) = process s frame in
      let (d, ok, reason) = verdict outcome in
      (
        s',
        record {
          session_id = p.session_id frame;
          seq = p.seq frame;
          ok = ok;
          reason = reason;
          frame = frame;
          data_ = d;
          process_ns = t1 - t0;
          queue_ns = got - enqueued;
          announcements = announced;
        },
      )

  -- The queue, the items that workers hold with their processors' states, the finished results, and
  -- three histories: the frames given to `put`, those answered (dropped, or as a result), and those
  -- whose result was thrown away because the session was gone.
  pub record Pool : Type 0 where
    pub queue : FrameQueue Frame
    pub busy : List (State × (ℕ × Frame))
    pub idle : List State
    pub results : List ProcessedResult
    pub submitted : List Frame
    pub answered : List Frame
    pub discarded : List Frame

  -- The frames of the results at whose turn, from the n-th on, the session is there, and of the others.
  abbrev pub sent : (ℕ → Bool) → ℕ → List ProcessedResult → List Frame
  sent held n [] = []
  sent held n (r ∷ rs) = let rest = sent held (n + 1) rs in if held n then r.frame ∷ rest else rest

  abbrev pub unsent : (ℕ → Bool) → ℕ → List ProcessedResult → List Frame
  unsent held n [] = []
  unsent held n (r ∷ rs) =
      let rest = unsent held (n + 1) rs in if held n then rest else r.frame ∷ rest

  -- What the threads do to the shared state, in any order.
  pub data Step (c : Pool) : Pool → Type 0 where
    -- The IO thread puts a frame, and answers the evicted ones at once.
    submit :
        (now : ℕ) (frame : Frame) {q : FrameQueue Frame} {evicted : List Frame}
        → put now frame c.queue ≡ some (q, evicted)
        → Step c (record c {
          queue = q;
          submitted = c.submitted ++ frame ∷ [];
          answered = c.answered ++ evicted;
        })
    -- An idle worker takes the oldest frame.
    pull :
        {q : FrameQueue Frame} {item : ℕ × Frame} (s : State) (before after : List State)
        → get c.queue ≡ (q, some item)
        → c.idle ≡ before ++ s ∷ after
        → Step c (record c { queue = q; busy = (s, item) ∷ c.busy; idle = before ++ after })
    -- A busy worker finishes, whether its processor returned or raised.
    finish :
        (got t0 t1 : ℕ) (s : State) (item : ℕ × Frame) (before after : List (State × (ℕ × Frame)))
        → c.busy ≡ before ++ (s, item) ∷ after
        → Step c (record c {
          busy = before ++ after;
          idle = (work got t0 t1 s item).0 ∷ c.idle;
          results = c.results ++ (work got t0 t1 s item).1 ∷ [];
        })
    -- The IO thread takes everything that is finished, and `_send_result` answers each result whose
    -- session is there when its turn comes.
    flush :
        (held : ℕ → Bool)
        → Step c (record c {
          results = [];
          answered = c.answered ++ sent held 0 c.results;
          discarded = c.discarded ++ unsent held 0 c.results;
        })

  pub data Reach (c : Pool) : Pool → Type 0 where
    here : Reach c c
    next : {d e : Pool} → Reach c d → Step d e → Reach c e
