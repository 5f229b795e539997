-- ===== src/Wire/Decode.antt =====
-- `encode` and `decode` of robocam/wire.py. `dumps` and `loads` are the JSON library with the UTF-8
-- coding of its text; `none` is an error of either.
use robo_cam_stream_processi.Wire.Json.{
  Json, Header, json_object, header_of, json_null, json_bool, json_int, json_float, json_string,
  json_array,
}
use robo_cam_stream_processi.Prelude.Dict.{get, string_eq}
use robo_cam_stream_processi.Prelude.{
  ℕ, Bool, Option, List, ◌⊎◌, ◌∷◌, inl, [], some, inr, length, if◌then◌else◌, false, true,
}
use mathlib.Core.Option.{none}

pub data ProtocolError : Type 0 where
  frames_expected : ℕ → ProtocolError
  not_json not_an_object no_type : ProtocolError

abbrev pub has_type : {F : Type 0} → Header F → Bool
has_type h = elim (get "type" h) [ none ↦ false | some v ↦ true ]

module _ {F : Type 0} {Bytes : Type 0} (nothing : Bytes) (dumps : Header F → Bytes)
    (loads : Bytes → Option (Json F)) where
  unfoldable pub encode : Header F → Bytes → List Bytes
  encode header payload = dumps header ∷ payload ∷ []

  unfoldable pub check_header : Option (Json F) → ProtocolError ⊎ Header F
  check_header none = inl not_json
  check_header (some json_null) = inl not_an_object
  check_header (some (json_bool b)) = inl not_an_object
  check_header (some (json_int n)) = inl not_an_object
  check_header (some (json_float v)) = inl not_an_object
  check_header (some (json_string text)) = inl not_an_object
  check_header (some (json_array items)) = inl not_an_object
  check_header (some (json_object fields)) =
      if has_type (header_of fields) then inr (header_of fields) else inl no_type

  unfoldable pub with_payload :
      Bytes → ProtocolError ⊎ Header F → ProtocolError ⊎ (Header F × Bytes)
  with_payload payload (inl e) = inl e
  with_payload payload (inr header) = inr (header, payload)

  -- The frames behind the identity of the peer.
  unfoldable pub decode : List Bytes → ProtocolError ⊎ (Header F × Bytes)
  decode [] = inl (frames_expected 0)
  decode (header ∷ []) = with_payload nothing (check_header (loads header))
  decode (header ∷ payload ∷ []) = with_payload payload (check_header (loads header))
  decode (a ∷ b ∷ c ∷ rest) = inl (frames_expected (length (a ∷ b ∷ c ∷ rest)))
