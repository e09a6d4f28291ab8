-- ===== src/Tests/Packets.antt =====
-- Examples for packets/promotion.py: a candidate with one required verifier and its report.
use collective_capability_ru.Prelude.{◌≡◌, ◌↔◌, refl, true, [], ◌∷◌, any, ◌&&◌}
use collective_capability_ru.Prelude.Map.{file_path_eq, lookup}
use collective_capability_ru.Result.{ok}
use collective_capability_ru.Json.{Dict, bool, str, arr, obj, nil, end, dict}
use collective_capability_ru.Json.Fields.{get}
use collective_capability_ru.Exec.{World, exists, read_file, to_dict, ◌>>=◌}
use collective_capability_ru.Exec.Laws.{Ends}
use collective_capability_ru.Ids.{json_file_name, validate_identifier}
use collective_capability_ru.Packets.{packet_file, load_packet, find_packet_in}
use collective_capability_ru.Packets.Gates.{accepts, promotion_reasons, required_verifier_accepts}
use collective_capability_ru.Packets.Exact.{
  objects, needs_report, required_verifier_accepts_lem, CheckedGates, SettledGates, checked_iff,
  settled_iff,
}
use collective_capability_ru.Packets.Promotion.{promote_packet}
use collective_capability_ru.Packets.Promotion.Outcome.{
  Anyhow, PromotionOutcome, promote_packet_refines,
}
use collective_capability_ru.Tests.Setup.{test_env, world_of, file_name}

abbrev verifier : Dict
verifier = dict (("required", bool true) ∷ ("provider", str "pic") ∷ [])

abbrev report : Dict
report = dict (("accepted", bool true) ∷ ("provider", str "pic") ∷ [])

abbrev candidate : Dict
candidate = dict (
    ("packet_id", str "t1")
    ∷ ("status", str "candidate")
    ∷ ("verifiers", arr (objects (verifier ∷ [])))
    ∷ ("verifier_reports", arr (objects (report ∷ [])))
    ∷ ("residuals", arr nil)
    ∷ ("risk", obj end)
    ∷ [])

abbrev packets : World
packets = world_of ((packet_file "candidate" "t1.json", obj candidate) ∷ []) []

required_verifier_accepts_lem_example :
    required_verifier_accepts candidate
    ≡ ok (any (λ v. needs_report v && any (accepts v) (report ∷ [])) (verifier ∷ []))
unfolding get
required_verifier_accepts_lem_example =
    required_verifier_accepts_lem candidate (verifier ∷ []) (report ∷ []) refl refl

checked_iff_example :
    (promotion_reasons "checked" candidate packets ≡ ok []) ↔ CheckedGates candidate
checked_iff_example = checked_iff candidate packets

settled_iff_example :
    (promotion_reasons "settled" candidate packets ≡ ok []) ↔ SettledGates candidate packets
settled_iff_example = settled_iff candidate packets

loaded :
    load_packet "t1" packets
    ≡ (ok (candidate, packet_file "candidate" "t1.json", "candidate"), packets)
unfolding load_packet ◌>>=◌ json_file_name validate_identifier find_packet_in exists read_file
    to_dict lookup
loaded = refl

promote_packet_refines_example :
    Ends
      (λ reply w'. PromotionOutcome "checked" candidate packets "t1.json" "candidate" reply w')
      Anyhow
      (promote_packet "t1" "checked" "op" packets)
unfolding get
promote_packet_refines_example =
    promote_packet_refines "t1" "t1.json" "candidate" "checked" "op" candidate packets file_name
      loaded refl
