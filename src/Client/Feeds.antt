-- ===== src/Client/Feeds.antt =====
-- `LidarFeed`, `ImuFeed`, `OdomFeed` and `MapFeed` of link/robocam_client.py: what stands between a
-- reader's thread and the main loop. Each method's body runs under the feed's lock and is one step.
use robo_cam_stream_processi.Prelude.{
  Option, ℕ, some, if◌then◌else◌, List, ◌+◌, none, max, length, [], ◌≡◌, ◌++◌, ◌==◌, arith, drop,
  ◌∷◌, ◌≤◌, length-append, length-drop,
}
use mathlib.Core.Option.{none}

-- `_slot` of the scans; `_latest` of the poses and the maps, which count no losses.
pub record Slot (A : Type 0) : Type 0 where
  pub latest : Option A
  pub received : ℕ
  pub dropped : ℕ

-- `deque(maxlen=...)` with its count of what fell out since it was last taken.
pub record Queue (A : Type 0) : Type 0 where
  pub maxlen : ℕ
  pub items : List A
  pub received : ℕ
  pub dropped : ℕ

-- What the reader's thread and the main loop do to a feed: one reading comes, or all are taken.
pub data Event (A : Type 0) : Type 0 where
  offered : A → Event A
  taken : Event A

module _ {A : Type 0} where
  -- The body of `LidarFeed._run` for one reading.
  unfoldable pub offer_scan : A → Slot A → Slot A
  offer_scan reading f = record {
    latest = some reading;
    received = f.received + 1;
    dropped = elim f.latest [ none ↦ f.dropped | some old ↦ f.dropped + 1 ];
  }

  -- The body of `OdomFeed._run` and `MapFeed._run`.
  unfoldable pub offer_latest : A → Slot A → Slot A
  offer_latest reading f = record f { latest = some reading; received = f.received + 1 }

  unfoldable pub take_latest : Slot A → Option A × Slot A
  take_latest f = (f.latest, record f { latest = none })

  unfoldable pub empty_queue : ℕ → Queue A
  empty_queue max_samples = record {
    maxlen = max 1 max_samples;
    items = [];
    received = 0;
    dropped = 0;
  }

  -- `self._buf.append(reading)`, on a deque that lets its first entry go when it is full.
  unfoldable pub offer_sample : A → Queue A → Queue A
  offer_sample reading f =
      if length f.items == f.maxlen
      then record f {
        items = drop 1 (f.items ++ reading ∷ []);
        received = f.received + 1;
        dropped = f.dropped + 1;
      }
      else record f { items = f.items ++ reading ∷ []; received = f.received + 1 }

  -- `ImuFeed.take`
  unfoldable pub take_samples : Queue A → (List A × ℕ) × Queue A
  take_samples f = ((f.items, f.dropped), record f { items = []; dropped = 0 })

  got : Option A → ℕ
  got none = 0
  got (some reading) = 1

  abbrev pub held : Slot A → ℕ
  held f = elim f.latest [ none ↦ 0 | some reading ↦ 1 ]

  -- The slot after a run of events, and how many readings were taken in it.
  unfoldable pub run_slot : List (Event A) → Slot A → Slot A × ℕ
  unfolding got
  run_slot [] f = (f, 0)
  run_slot (offered reading ∷ es) f = run_slot es (offer_scan reading f)
  run_slot (taken ∷ es) f =
      let (reading, f') = take_latest f in let (f'', n) = run_slot es f' in (f'', got reading + n)

  slot-total :
      (es : List (Event A)) (f : Slot A) (gone : ℕ)
      → f.received ≡ gone + f.dropped + held f
      → (run_slot es f).0.received
        ≡ gone + (run_slot es f).1 + (run_slot es f).0.dropped + held (run_slot es f).0
  unfolding run_slot offer_scan take_latest got
  slot-total [] f gone e = omega (arith, e)
  slot-total (offered reading ∷ es) f gone e =
      slot-total es (offer_scan reading f) gone (ground (arith, e))
  slot-total (taken ∷ es) f gone e =
      let (reading, f') = take_latest f in
      let rest = slot-total es f' (gone + got reading) (ground (arith, e)) in omega (arith, rest)

  -- From an empty slot, after any interleaving of the scanner's thread and the main loop, each
  -- scan received was either taken by the loop, counted as dropped, or is still in the slot.
  pub scans_accounted :
      (es : List (Event A)) (f : Slot A)
      → f.received ≡ 0
      → f.dropped ≡ 0
      → f.latest ≡ none
      → (run_slot es f).0.received
        ≡ (run_slot es f).1 + (run_slot es f).0.dropped + held (run_slot es f).0
  scans_accounted es f r d l = omega (arith, slot-total es f 0 (ground (arith, r, d, l)))

  -- The queue after a run of events, the bursts taken and the sum of the losses told with them.
  unfoldable pub run_queue : List (Event A) → Queue A → Queue A × (List A × ℕ)
  run_queue [] f = (f, ([], 0))
  run_queue (offered reading ∷ es) f = run_queue es (offer_sample reading f)
  run_queue (taken ∷ es) f =
      let ((burst, lost), f') = take_samples f in
      let (f'', (bursts, losses)) = run_queue es f' in (f'', (burst ++ bursts, lost + losses))

  offer_sample-total :
      (reading : A) (f : Queue A) (gone : ℕ)
      → length f.items ≤ f.maxlen
      → f.received ≡ gone + f.dropped + length f.items
      → ((offer_sample reading f).received
          ≡ gone + (offer_sample reading f).dropped + length (offer_sample reading f).items)
        × (length (offer_sample reading f).items ≤ (offer_sample reading f).maxlen)
  unfolding offer_sample
  offer_sample-total reading f gone v e =
      let more = length-append f.items (reading ∷ []) in
      let less = length-drop 1 (f.items ++ reading ∷ []) in ground (arith, more, less, v, e)

  queue-total :
      (es : List (Event A)) (f : Queue A) (gone : ℕ)
      → length f.items ≤ f.maxlen
      → f.received ≡ gone + f.dropped + length f.items
      → ((run_queue es f).0.received
          ≡ gone
            + length (run_queue es f).1.0
            + (run_queue es f).1.1
            + (run_queue es f).0.dropped
            + length (run_queue es f).0.items)
        × (length (run_queue es f).0.items ≤ (run_queue es f).0.maxlen)
  unfolding run_queue take_samples
  queue-total [] f gone v e = (omega (arith, e), v)
  queue-total (offered reading ∷ es) f gone v e =
      let (e', v') = offer_sample-total reading f gone v e in
      queue-total es (offer_sample reading f) gone v' e'
  queue-total (taken ∷ es) f gone v e =
      let f' = record f { items = []; dropped = 0 } in
      let rest =
        queue-total es f' (gone + f.dropped + length f.items) (omega arith) (omega (arith, e)) in
      (omega (arith, rest.0, length-append f.items (run_queue es f').1.0), rest.1)

  -- From a new queue, after any interleaving of the IMU's thread and the main loop, the number of
  -- samples received is the sum of those delivered in bursts, the losses told with the bursts, the
  -- losses not yet told and the samples queued, of which there are at most max(1, max_samples).
  pub samples_accounted :
      (es : List (Event A)) (max_samples : ℕ)
      → ((run_queue es (empty_queue max_samples)).0.received
          ≡ length (run_queue es (empty_queue max_samples)).1.0
            + (run_queue es (empty_queue max_samples)).1.1
            + (run_queue es (empty_queue max_samples)).0.dropped
            + length (run_queue es (empty_queue max_samples)).0.items)
        × (length (run_queue es (empty_queue max_samples)).0.items
            ≤ (run_queue es (empty_queue max_samples)).0.maxlen)
  unfolding empty_queue
  samples_accounted es max_samples =
      let (e, v) = queue-total es (empty_queue max_samples) 0 (omega arith) (omega arith) in
      (omega (arith, e), v)
