-- ===== src/Packets.antt =====
-- packets/status.py, packets/model.py and packets/store.py: the queues of packets.
pub mod Gates
pub mod Promotion
pub mod Exact
use collective_capability_ru.Prelude.{
  String, Bool, true, false, not, ◌&&◌, Option, none, some, List, [], ◌∷◌, str_eq, elem,
  if◌then◌else◌,
}
use collective_capability_ru.Prelude.Map.{FilePath, path_eq}
use collective_capability_ru.Prelude.Text.{◌<>◌}
use collective_capability_ru.Result.{
  Result, ok, err, value_error, file_not_found, key_error, require, ◌>>=◌ as bind_result,
  ◌>>◌ as then_result,
}
use collective_capability_ru.Json.{Json, Dict, str, obj}
use collective_capability_ru.Json.Fields.{get, set}
use collective_capability_ru.Json.Python.{get_default}
use collective_capability_ru.Env.{Env, to_text}
use collective_capability_ru.Exec.{
  World, Exec, pure, lift, raise, gets, exists, read_file, require_dict, write_file, write_new_file,
  unlink_old, ◌>>=◌, ◌>>◌,
}
use collective_capability_ru.Ids.{json_file_name, validate_identifier}

-- `PACKET_STATUSES`, each the name of a directory.
abbrev pub packet_statuses : List String
packet_statuses =
    "raw" ∷ "proposed" ∷ "candidate" ∷ "checked" ∷ "settled" ∷ "provisional" ∷ "speculative"
    ∷ "rejected" ∷ "quarantined" ∷ "deprecated" ∷ "expired" ∷ []

-- `require_packet_status`
unfoldable pub require_packet_status : String → Result (Unit {0})
require_packet_status status =
    require (elem status packet_statuses) (value_error ("unknown packet status: " <> status))

abbrev pub promotable_targets : List String
promotable_targets = "checked" ∷ "settled" ∷ "quarantined" ∷ "deprecated" ∷ []

-- The test of `can_attempt_promotion`, once both are known to be statuses.
abbrev pub is_meaningful : String → String → Bool
is_meaningful before target =
    if not (elem target promotable_targets)
    then false
    else if elem target ("quarantined" ∷ "deprecated" ∷ [])
    then true
    else if str_eq target "checked"
    then str_eq before "candidate"
    else if str_eq target "settled"
    then str_eq before "checked"
    else false

-- `can_attempt_promotion`
unfoldable pub can_attempt_promotion : String → String → Result Bool
can_attempt_promotion before target =
    then_result (require_packet_status before)
      (then_result (require_packet_status target) (ok (is_meaningful before target)))

abbrev pub packet_file : String → String → FilePath
packet_file status name = "packets" ∷ status ∷ name ∷ []

-- `packet_path`
unfoldable pub packet_path : String → String → Result FilePath
packet_path id status = bind_result (json_file_name id) (λ name. ok (packet_file status name))

-- The loop of `find_packet_path` over the statuses.
unfoldable pub find_packet_in : List String → String → World → Option (FilePath × String)
find_packet_in [] name w = none
find_packet_in (status ∷ rest) name w =
    let later = find_packet_in rest name w in
    if exists (packet_file status name) w then some (packet_file status name, status) else later

found : Option (FilePath × String) → String → Exec (Dict × FilePath × String)
found none id = raise (file_not_found id)
found (some (path, status)) id = do
  value ← read_file path (file_not_found id)
  packet ← require_dict value ("packet " <> (id <> " is not a JSON object"))
  pure (packet, path, status)

-- `load_packet`, with `find_packet_path`
unfoldable pub load_packet : String → Exec (Dict × FilePath × String)
unfolding found
load_packet id = do
  name ← lift (json_file_name id)
  at ← gets (find_packet_in packet_statuses name)
  found at id

abbrev present : Option Json → Result Json
present none = err (key_error "packet_id")
present (some v) = ok v

module _ ⦃env : Env⦄ where
  -- `str(packet["packet_id"])`
  unfoldable pub packet_id_of : Dict → Result String
  packet_id_of packet = bind_result (present (get "packet_id" packet)) (λ v. ok (to_text v))

  -- `submit_packet`
  unfoldable pub submit_packet : Dict → Exec FilePath
  submit_packet packet = do
    id ← lift (packet_id_of packet)
    _ ← lift (validate_identifier id "packet_id")
    path ← lift (packet_path id (to_text (get_default (get "status" packet) (str "candidate"))))
    write_new_file path id (obj packet)
    pure path

  -- `save_packet_at_status` with the path that the packet was loaded from; returns the packet too.
  unfoldable pub save_packet_at_status : Dict → String → FilePath → Exec (Dict × FilePath)
  save_packet_at_status packet status old_path = do
    id ← lift (packet_id_of packet)
    _ ← lift (validate_identifier id "packet_id")
    let packet' = set "status" (str status) packet
    destination ← lift (packet_path id status)
    write_file destination (obj packet')
    unlink_old old_path destination
    pure (packet', destination)
