-- ===== src/Wire/Json.antt =====
-- JSON values and headers of robocam/wire.py. `F` stands for floats; a header is a `dict`.
use robo_cam_stream_processi.Prelude.Dict.{Dict, put, string_eq}
use robo_cam_stream_processi.Prelude.{
  Bool, String, List, [], none, ◌∷◌, ◌≡◌, Option, ap, some, map, refl, if◌then◌else◌, str_eq,
}
use robo_cam_stream_processi.Prelude.Int.{ℤ}

mutual
  pub data Json (F : Type 0) : Type 0 where
    json_null : Json F
    json_bool : Bool → Json F
    json_int : ℤ → Json F
    json_float : F → Json F
    json_string : String → Json F
    json_array : Items F → Json F
    json_object : Fields F → Json F

  pub data Items (F : Type 0) : Type 0 where
    no_item : Items F
    item : Json F → Items F → Items F

  pub data Fields (F : Type 0) : Type 0 where
    no_field : Fields F
    field : String → Json F → Fields F → Fields F

abbrev pub Header : Type 0 → Type 0
Header F = Dict String (Json F)

module _ {F : Type 0} where
  unfoldable pub items_of : List (Json F) → Items F
  items_of [] = no_item
  items_of (v ∷ vs) = item v (items_of vs)

  unfoldable pub fields_of : Header F → Fields F
  fields_of [] = no_field
  fields_of ((key, v) ∷ rest) = field key v (fields_of rest)

  unfoldable pub header_of : Fields F → Header F
  header_of no_field = []
  header_of (field key v rest) = (key, v) ∷ header_of rest

  pub header_of-fields_of : (h : Header F) → header_of (fields_of h) ≡ h
  unfolding header_of fields_of
  header_of-fields_of [] = refl
  header_of-fields_of ((key, v) ∷ rest) = ap (λ h. (key, v) ∷ h) (header_of-fields_of rest)

  unfoldable pub json_object_of : Header F → Json F
  json_object_of h = json_object (fields_of h)

  -- `data or {}`
  unfoldable pub object_or_empty : Option (Header F) → Json F
  object_or_empty none = json_object no_field
  object_or_empty (some h) = json_object_of h

  -- `list(ranked or [])`
  unfoldable pub list_or_empty : Option (List (Json F)) → List (Json F)
  list_or_empty none = []
  list_or_empty (some vs) = vs

  unfoldable pub strings : List String → Json F
  strings words = json_array (items_of (map json_string words))

  -- `[float(v) for v in origin]`
  unfoldable pub triple : F × F × F → Json F
  triple (x, y, yaw) =
      json_array (item (json_float x) (item (json_float y) (item (json_float yaw) no_item)))

  -- `if extra:`, which an empty dictionary or text fails as `None` does.
  unfoldable pub nonempty : Option (Header F) → Option (Header F)
  nonempty none = none
  nonempty (some []) = none
  nonempty (some (entry ∷ rest)) = some (entry ∷ rest)

  -- `if value is not None: header[key] = value`, one key after another.
  unfoldable pub with_optional : Header F → List (String × Option (Json F)) → Header F
  with_optional h [] = h
  with_optional h ((key, none) ∷ rest) = with_optional h rest
  with_optional h ((key, some v) ∷ rest) = with_optional (put key v h) rest

unfoldable pub nonempty_text : Option String → Option String
nonempty_text none = none
nonempty_text (some text) = if str_eq text "" then none else some text
