-- ===== src/Server/Announce.antt =====
-- `_send_announcements` of robocam/server.py: what leaves the server unasked, and when. `now` is the
-- one clock reading of the call.
pub mod Rate
use mathlib.Core.Option
use robo_cam_stream_processi.Server.Session.{Sensors, Config, Session}
use robo_cam_stream_processi.Prelude.{
  String, ℕ, Option, List, Bool, ◌+◌, if◌then◌else◌, ◌∷◌, [], none, false, not, ◌++◌, ◌==◌, ◌&&◌,
  str_eq, ltb, ◌||◌, true,
}
use robo_cam_stream_processi.Occupancy.Grid.{Grid}
use mathlib.Core.Option.{some}

-- What a processor announces; the map's id, and of an update how many cells it changes.
pub data Announcement (Body : Type 0) : Type 0 where
  map_update : String → ℕ → Body → Announcement Body
  pose_hint : String → Body → Announcement Body
  agreement : String → Body → Announcement Body
  found : Body → Announcement Body
  unknown : Announcement Body

-- What goes out, with the number that it got.
pub data Told (Body : Type 0) : Type 0 where
  told_update told_hint told_agreement told_found : ℕ → Body → Told Body

-- `current_map_id is not None and header.get("map_id") != current_map_id`
abbrev pub of_other_map : Option String → String → Bool
of_other_map none id = false
of_other_map (some current) id = not (str_eq id current)

-- `last and now - last < interval`
abbrev pub too_early : ℕ → ℕ → ℕ → Bool
too_early interval now last = not (last == 0) && ltb now (last + interval)

module _ (s : Sensors) where
  open s use {Float, Body}

  abbrev pub current_map_id : Session s → Option String
  current_map_id c = Option.map (λ (grid : Grid Float). grid.map_id) c.grid

  -- The guards of the loop's body, whichever `continue` a message meets.
  unfoldable pub held_back : Config → ℕ → Announcement Body → Session s → Bool
  held_back cfg now (map_update id cells body) c =
      not (cfg.send_updates && cfg.compare_enabled)
      || (of_other_map (current_map_id c) id
          || (too_early cfg.min_update_interval now c.last_map_update
              || ltb cells cfg.min_update_cells))
  held_back cfg now (pose_hint id body) c =
      not (cfg.compare_enabled && cfg.send_hints)
      || (of_other_map (current_map_id c) id
          || too_early cfg.min_hint_interval now c.last_pose_hint)
  held_back cfg now (agreement id body) c =
      not (cfg.compare_enabled && cfg.send_agreement)
      || (of_other_map (current_map_id c) id
          || too_early cfg.min_agreement_interval now c.last_agreement)
  held_back cfg now (found body) c = false
  held_back cfg now unknown c = true

  abbrev pub Announced : Type 0
  Announced = Session s × List (Told Body)

  -- What a message that is not held back leaves.
  unfoldable pub tell : ℕ → Announcement Body → Session s → Announced
  tell now (map_update id cells body) c = (
    record c {
      map_update_seq = c.map_update_seq + 1;
      last_map_update = now;
      map_updates_sent = c.map_updates_sent + 1;
    },
    told_update c.map_update_seq body ∷ [],
  )
  tell now (pose_hint id body) c = (
    record c {
      pose_hint_seq = c.pose_hint_seq + 1;
      last_pose_hint = now;
      pose_hints_sent = c.pose_hints_sent + 1;
    },
    told_hint c.pose_hint_seq body ∷ [],
  )
  tell now (agreement id body) c = (
    record c {
      agreement_seq = c.agreement_seq + 1;
      last_agreement = now;
      agreements_sent = c.agreements_sent + 1;
    },
    told_agreement c.agreement_seq body ∷ [],
  )
  tell now (found body) c = (
    record c { found_seq = c.found_seq + 1; founds_sent = c.founds_sent + 1 },
    told_found c.found_seq body ∷ [],
  )
  tell now unknown c = (c, [])

  unfoldable pub announce_one : Config → ℕ → Announcement Body → Session s → Announced
  announce_one cfg now a c = if held_back cfg now a c then (c, []) else tell now a c

  unfoldable pub send_announcements : Config → ℕ → List (Announcement Body) → Session s → Announced
  send_announcements cfg now [] c = (c, [])
  send_announcements cfg now (a ∷ rest) c =
      let (c', out) = announce_one cfg now a c in
      let (c'', out') = send_announcements cfg now rest c' in (c'', out ++ out')

  -- One call for each result, at its time.
  unfoldable pub announce_all : Config → List (ℕ × List (Announcement Body)) → Session s → Announced
  announce_all cfg [] c = (c, [])
  announce_all cfg ((now, rest) ∷ results) c =
      let (c', out) = send_announcements cfg now rest c in
      let (c'', out') = announce_all cfg results c' in (c'', out ++ out')
