-- ===== src/Server/Announce/Rate.antt =====
-- The numbers and the rate of the map updates that a session is sent.
use robo_cam_stream_processi.Server.Session.{Sensors, Config, Session}
use robo_cam_stream_processi.Server.Announce.{
  Announcement, Told, told_update, told_hint, told_agreement, told_found, map_update, pose_hint,
  agreement, found, unknown, held_back, tell, announce_one, send_announcements, announce_all,
}
use robo_cam_stream_processi.Prelude.{
  List, ℕ, ◌++◌, ◌≡◌, ◌∷◌, if_both, [], map, Bool-cases, ap, ◌+◌, subst, ◌⊎◌, false, inl,
  map-append, refl, sym, ◌≤◌, arith, inr, append_assoc,
}
use mathlib.Core.List.{[]}

module _ {Body : Type 0} where
  -- The numbers of the map updates among what went out.
  unfoldable pub updates : List (Told Body) → List ℕ
  updates [] = []
  updates (told_update n body ∷ out) = n ∷ updates out
  updates (told_hint n body ∷ out) = updates out
  updates (told_agreement n body ∷ out) = updates out
  updates (told_found n body ∷ out) = updates out

  updates-append :
      (out out' : List (Told Body)) → updates (out ++ out') ≡ updates out ++ updates out'
  unfolding updates
  updates-append [] out' = refl
  updates-append (told_update n body ∷ out) out' = ap (◌∷◌ n) (updates-append out out')
  updates-append (told_hint n body ∷ out) out' = updates-append out out'
  updates-append (told_agreement n body ∷ out) out' = updates-append out out'
  updates-append (told_found n body ∷ out) out' = updates-append out out'

-- Each number is the one before it plus one, the first is `n`, and `m` comes after the last.
abbrev pub Counts : ℕ → List ℕ → ℕ → Type 0
Counts n [] m = n ≡ m
Counts n (k ∷ ks) m = (k ≡ n) × Counts (n + 1) ks m

Counts-append : (n m p : ℕ) (ks js : List ℕ) → Counts n ks m → Counts m js p → Counts n (ks ++ js) p
Counts-append n m p [] js e d = subst (λ n. Counts n js p) (sym e) d
Counts-append n m p (k ∷ ks) js (e, c) d = (e, Counts-append (n + 1) m p ks js c d)

-- Each time is at least `gap` after the one before it; 0 stands for no time.
abbrev pub Spaced : ℕ → ℕ → List ℕ → Type 0
Spaced gap last [] = Unit
Spaced gap last (t ∷ ts) = ((last ≡ 0) ⊎ (last + gap ≤ t)) × Spaced gap t ts

module _ (s : Sensors) (cfg : Config) where
  open s use {Body}

  told-Counts :
      (now : ℕ) (a : Announcement Body) (c : Session s)
      → Counts c.map_update_seq (updates (tell s now a c).1) (tell s now a c).0.map_update_seq
  unfolding tell updates
  told-Counts now (map_update id cells body) c = (refl, refl)
  told-Counts now (pose_hint id body) c = refl
  told-Counts now (agreement id body) c = refl
  told-Counts now (found body) c = refl
  told-Counts now unknown c = refl

  one-Counts :
      (now : ℕ) (a : Announcement Body) (c : Session s)
      → Counts c.map_update_seq
          (updates (announce_one s cfg now a c).1)
          (announce_one s cfg now a c).0.map_update_seq
  unfolding announce_one updates
  one-Counts now a c =
      if_both
        (λ (r : Session s × List (Told Body)).
          Counts c.map_update_seq (updates r.1) r.0.map_update_seq)
        (held_back s cfg now a c) refl (told-Counts now a c)

  send_announcements-Counts :
      (now : ℕ) (list : List (Announcement Body)) (c : Session s)
      → Counts c.map_update_seq
          (updates (send_announcements s cfg now list c).1)
          (send_announcements s cfg now list c).0.map_update_seq
  unfolding send_announcements updates
  send_announcements-Counts now [] c = refl
  send_announcements-Counts now (a ∷ rest) c =
      let r = announce_one s cfg now a c in
      rw updates-append (
        Counts-append c.map_update_seq r.0.map_update_seq _ (updates r.1) _ (one-Counts now a c)
          (send_announcements-Counts now rest r.0))

  -- Over any sequence of results, the map updates that a session is sent are numbered one after
  -- the other without a gap, from the session's next number on, and the session then holds the
  -- number after the last: what is held back takes no number.
  pub announce_all-Counts :
      (results : List (ℕ × List (Announcement Body))) (c : Session s)
      → Counts c.map_update_seq
          (updates (announce_all s cfg results c).1)
          (announce_all s cfg results c).0.map_update_seq
  unfolding announce_all updates
  announce_all-Counts [] c = refl
  announce_all-Counts ((now, rest) ∷ results) c =
      let r = send_announcements s cfg now rest c in
      rw updates-append (
        Counts-append c.map_update_seq r.0.map_update_seq _ (updates r.1) _
          (send_announcements-Counts now rest c) (announce_all-Counts results r.0))

  -- When each map update of a run went out.
  pub update_times : List (ℕ × List (Announcement Body)) → Session s → List ℕ
  update_times [] c = []
  update_times ((now, rest) ∷ results) c =
      let (c', out) = send_announcements s cfg now rest c in
      map (λ n. now) (updates out) ++ update_times results c'

  abbrev At : ℕ → Session s → Session s × List (Told Body) → Type 0
  At now c r =
      (ts : List ℕ)
      → Spaced cfg.min_update_interval r.0.last_map_update ts
      → Spaced cfg.min_update_interval c.last_map_update (map (λ n. now) (updates r.1) ++ ts)

  told-Spaced :
      (now : ℕ) (a : Announcement Body) (c : Session s)
      → held_back s cfg now a c ≡ false
      → At now c (tell s now a c)
  unfolding tell updates held_back
  told-Spaced now (map_update id cells body) c e ts h = (ground (arith, e), h)
  told-Spaced now (pose_hint id body) c e ts h = h
  told-Spaced now (agreement id body) c e ts h = h
  told-Spaced now (found body) c e ts h = h
  told-Spaced now unknown c e ts h = h

  one-Spaced :
      (now : ℕ) (a : Announcement Body) (c : Session s) → At now c (announce_one s cfg now a c)
  unfolding announce_one updates
  one-Spaced now a c = elim (Bool-cases (held_back s cfg now a c)) [
    | inl held ↦ simp held (λ ts h. h)
    | inr free ↦ simp free (told-Spaced now a c free)
  ]

  send_announcements-Spaced :
      (now : ℕ) (list : List (Announcement Body)) (c : Session s)
      → At now c (send_announcements s cfg now list c)
  unfolding send_announcements updates
  send_announcements-Spaced now [] c ts h = h
  send_announcements-Spaced now (a ∷ rest) c ts h =
      let r = announce_one s cfg now a c in
      let q = send_announcements s cfg now rest r.0 in
      rw (updates-append, map-append, append_assoc)
        (one-Spaced now a c (map (λ n. now) (updates q.1) ++ ts)
          (send_announcements-Spaced now rest r.0 ts h))

  -- Over any sequence of results, two map updates of a session go out at least
  -- `min_update_interval` apart, within one result's announcements as between those of two; so does
  -- the first after the session's last one. (A clock reading of 0 counts as none.)
  pub announce_all-Spaced :
      (results : List (ℕ × List (Announcement Body))) (c : Session s)
      → Spaced cfg.min_update_interval c.last_map_update (update_times results c)
  unfolding update_times
  announce_all-Spaced [] c = tt
  announce_all-Spaced ((now, rest) ∷ results) c =
      let r = send_announcements s cfg now rest c in
      send_announcements-Spaced now rest c (update_times results r.0)
        (announce_all-Spaced results r.0)
