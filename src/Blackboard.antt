-- ===== src/Blackboard.antt =====
-- blackboard/events.py and blackboard/store.py: the record of what happened.
pub mod Appending
use collective_capability_ru.Prelude.{
  ℕ, zero, suc, String, Bool, true, false, Option, none, some, List, [], ◌∷◌, ◌++◌,
}
use collective_capability_ru.Prelude.Text.{◌<>◌, take_chars}
use collective_capability_ru.Prelude.Sorted.{sort_texts}
use collective_capability_ru.Result.{ok}
use collective_capability_ru.Json.{Json, Dict, null, bool, str, arr, obj, items, dict, strings}
use collective_capability_ru.Json.Fields.{get}
use collective_capability_ru.Json.Python.{get_default}
use collective_capability_ru.Env.{Env, to_text}
use collective_capability_ru.Exec.{
  World, Exec, OutboxRow, pure, now_iso, insert_outbox, ◌>>=◌, ◌>>◌,
}
use collective_capability_ru.Ids.{stable_id}

-- The keyword arguments of `make_event`.
pub record EventSpec : Type 0 where
  pub action : String
  pub actor : String
  pub object_type : String
  pub object_id : String
  pub status_before : Option String
  pub status_after : Option String
  pub refs : List String
  pub residuals : List String
  pub dry_run : Bool
  pub note : String

opt_text : Option String → Json
opt_text none = null
opt_text (some s) = str s

-- `text.ljust(n, "0")`
pad_zeros : ℕ → String → String
pad_zeros zero s = s
pad_zeros (suc n) String.[] = "0" <> pad_zeros n String.[]
pad_zeros (suc n) (String.◌∷◌ c s) = String.◌∷◌ c (pad_zeros n s)

append_line : Dict → Exec (Unit {0})
append_line event w = (ok tt, record w { events = w.events ++ (obj event ∷ []) })

module _ ⦃env : Env⦄ where
  -- `stable_id(prefix, event_id).split(":", 1)[1]`
  digest_of : String → String
  digest_of event_id = take_chars 24 (env.sha256 (arr (items (str event_id ∷ []))))

  -- `make_event`
  unfoldable pub make_event : EventSpec → Exec Dict
  unfolding opt_text pad_zeros digest_of stable_id sort_texts now_iso
  make_event e = do
    timestamp ← now_iso
    let event_id = stable_id "event" (
        str timestamp
        ∷ str e.actor
        ∷ str e.action
        ∷ str e.object_type
        ∷ str e.object_id
        ∷ opt_text e.status_before
        ∷ opt_text e.status_after
        ∷ [])
    let trace_id = take_chars 32 (pad_zeros 32 (digest_of event_id))
    let span_id = take_chars 16 (digest_of event_id)
    pure (
        dict (
          ("action", str e.action)
          ∷ ("actor", str e.actor)
          ∷ ("dry_run", bool e.dry_run)
          ∷ ("event_id", str event_id)
          ∷ ("id", str event_id)
          ∷ ("note", str e.note)
          ∷ ("object_id", str e.object_id)
          ∷ ("object_type", str e.object_type)
          ∷ (
            "provenance",
            obj (
                dict (
                  ("prov:generatedAtTime", str timestamp)
                  ∷ ("prov:wasAssociatedWith", str e.actor)
                  ∷ ("refs", arr (strings (sort_texts e.refs)))
                  ∷ [])),
          )
          ∷ ("refs", arr (strings (sort_texts e.refs)))
          ∷ ("residuals", arr (strings (sort_texts e.residuals)))
          ∷ ("status_after", opt_text e.status_after)
          ∷ ("status_before", opt_text e.status_before)
          ∷ ("source", str "/ccr/runtime")
          ∷ ("specversion", str "1.0")
          ∷ ("subject", str (e.object_type <> ("/" <> e.object_id)))
          ∷ ("time", str timestamp)
          ∷ ("timestamp", str timestamp)
          ∷ ("traceparent", str ("00-" <> (trace_id <> ("-" <> (span_id <> "-01")))))
          ∷ ("type", str ("io.kadubon.ccr." <> e.action))
          ∷ []))

  -- `append_event`: the outbox row of `record_event`, then the line of the log.
  unfoldable pub append_event : Dict → Exec (Unit {0})
  unfolding insert_outbox now_iso append_line
  append_event event = do
    at ← now_iso
    insert_outbox (to_text (get_default (get "event_id" event) null)) (record {
      event_type = to_text (get_default (get "action" event) (str "ccr.event"));
      aggregate_id = to_text (get_default (get "object_id" event) (str "unknown"));
      payload = obj event;
      created_at = to_text (get_default (get "timestamp" event) (str at));
    })
    append_line event
