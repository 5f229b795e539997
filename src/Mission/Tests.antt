-- ===== src/Mission/Tests.antt =====
-- The ranking of four exits by a score of their own.
use robo_cam_stream_processi.Mission.Ranking.{
  Exit, open_exit, visited, entry, rank_exits, rank_exits-perm, IsBest, rank_exits-IsBest,
}
use robo_cam_stream_processi.Prelude.{
  String, List, ℕ, Perm, ltb, ◌∷◌, Bool, map, ◌≡◌, [], true, false, arith,
}

abbrev door : String → ℕ → Exit ℕ
door id place = record { id = id; place = place; status = open_exit }

abbrev doors : List (Exit ℕ)
doors = door "a" 3 ∷ record { id = "b"; place = 9; status = visited } ∷ door "c" 7 ∷ door "d" 1 ∷ []

abbrev by_place : Exit ℕ → ℕ
by_place e = e.place

abbrev slim : Exit ℕ → Bool
slim e = ltb e.place 2

every_candidate : Perm (map (entry by_place slim ltb) doors) (rank_exits by_place slim ltb doors).0
every_candidate = rank_exits-perm by_place slim ltb doors

ltb-asym : (a b : ℕ) → ltb a b ≡ true → ltb b a ≡ false
ltb-asym a b h = ground arith

ltb-chain : (a b c : ℕ) → ltb a b ≡ false → ltb b c ≡ false → ltb a c ≡ false
ltb-chain a b c h l = ground arith

rank_exits-IsBest_example : IsBest by_place slim ltb doors (rank_exits by_place slim ltb doors)
rank_exits-IsBest_example = rank_exits-IsBest by_place slim ltb ltb-asym ltb-chain doors
