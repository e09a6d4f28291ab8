-- ===== src/Tasks/Lifecycle/Heartbeat.antt =====
-- `heartbeat_task` on a tracked task.
use collective_capability_ru.Prelude.{
  Bool, true, ◌&&◌, Bool-cases, inl, ◌⊎◌, inr, ℕ, String, ◌≡◌, refl, false, Option, none, some,
  str_eq,
}
use collective_capability_ru.Prelude.Int.{ℤ, pos}
use collective_capability_ru.Prelude.Map.{string_eq, file_path_eq}
use collective_capability_ru.Result.{Error, ok, err, value_error, overflow_error, require}
use collective_capability_ru.Json.{Json, Dict, int, str, obj}
use collective_capability_ru.Json.Fields.{get, set, get-set}
use collective_capability_ru.Env.{Env}
use collective_capability_ru.Exec.{World, pure, ◌>>=◌, ◌>>◌}
use collective_capability_ru.Exec.Columns.{is_int64}
use collective_capability_ru.Exec.Laws.{
  Ends, Same, Same-refl, Ends-pure, Ends-bind, Ends-lift, Ends-transaction, step,
}
use collective_capability_ru.Exec.Steps.{tick, stamp, written, step_now, step_write}
use collective_capability_ru.Time.{Ttl}
use collective_capability_ru.Ids.{json_file_name, validate_identifier}
use collective_capability_ru.Tasks.{
  require_lease, lease_of, with_lease, task_file, upsert_lease, record_outbox,
}
use collective_capability_ru.Tasks.Machine.{Stage}
use collective_capability_ru.Tasks.Tracking.{
  Holds, Holds-written, IsStorable, IsTask, Tracks, relet-IsTask, set-IsTask,
}
use collective_capability_ru.Tasks.Effects.{
  record_outbox-Ends, upsert_lease-Ends, upsert_lease-Overflows, tracked, load_task_tracked,
}
use collective_capability_ru.Tasks.Lifecycle.{
  is_true, parse_optional_ttl, renew, heartbeat_body, heartbeat_task,
}
use collective_capability_ru.Tasks.Lifecycle.Moves.{IsHolder, IsHolder-of}

-- Renewing touches neither holder, token nor the flag.
abbrev renewed : Option ℕ → String → Dict → Dict
renewed minutes at lease =
    renew minutes (set "leased_at" (str at) (set "heartbeat_at" (str at) lease))

renewed-get :
    (minutes : Option ℕ) (at : String) (lease : Dict) (k : String)
    → str_eq "leased_at" k ≡ false
    → str_eq "heartbeat_at" k ≡ false
    → str_eq "ttl_minutes" k ≡ false
    → get k (renewed minutes at lease) ≡ get k lease
renewed-get none at lease k p q r = simp (get-set, p, q)
renewed-get (some n) at lease k p q r = simp (get-set, p, q, r)

-- A row can hold the number of minutes of a call.
abbrev pub minutes_fit : Option ℕ → Bool
minutes_fit none = true
minutes_fit (some n) = is_int64 (pos n)

renewed-IsStorable :
    (minutes : Option ℕ) (at : String) (lease : Dict) (token : ℤ)
    → IsStorable lease token
    → minutes_fit minutes ≡ true
    → IsStorable (renewed minutes at lease) token
renewed-IsStorable none at lease token s fits = record {
  by = simp get-set s.by;
  at = simp get-set;
  minutes = simp get-set s.minutes;
  small = s.small;
  beat = simp get-set;
  key = simp get-set s.key;
}
renewed-IsStorable (some n) at lease token s fits = record {
  by = simp get-set s.by;
  at = simp get-set;
  minutes = simp get-set fits;
  small = s.small;
  beat = simp get-set;
  key = simp get-set s.key;
}

-- Otherwise the row is refused for its minutes.
unfit :
    (minutes : Option ℕ) (at : String) (lease : Dict) (token : ℤ)
    → minutes_fit minutes ≡ false
    → (n : ℤ) × (get "ttl_minutes" (renewed minutes at lease) ≡ some (int n))
      × ((is_int64 n && is_int64 token) ≡ false)
unfit none at lease token h = cc
unfit (some n) at lease token h = (pos n, simp get-set, rw h refl)

renewed_at :
    (minutes : Option ℕ) (at : String) (lease : Dict)
    → get "leased_at" (renewed minutes at lease) ≡ some (str at)
renewed_at none at lease = simp get-set
renewed_at (some n) at lease = simp get-set

renewed-IsTask :
    (id : String) (holder : Option Json) (token : ℤ) (minutes : Option ℕ) (at : String)
    (task : Dict)
    → IsTask id holder token task
    → minutes_fit minutes ≡ true
    → IsTask id holder token
        (set "updated_at" (str at) (with_lease (renewed minutes at (lease_of task)) task))
renewed-IsTask id holder token minutes at task h fits =
    set-IsTask _ _ _ "updated_at" _ _ refl refl (
      relet-IsTask id holder token h.required _ task h.key
        (rw (renewed-get minutes at (lease_of task) "leased_by" refl refl refl) h.held_by)
        (rw (renewed-get minutes at (lease_of task) "lease_required" refl refl refl) h.flag)
        (rw (renewed-get minutes at (lease_of task) "fencing_token" refl refl refl) h.fenced)
        (renewed-IsStorable minutes at (lease_of task) token h.storable fits))

-- The holder's lease was to be renewed, and the row cannot hold the minutes that the call gives: the
-- file has them by then, in the queue where it was, and the rows are as they were.
pub record Overrun (name agent : String) (token : ℤ) (ttl : Option Ttl) (a : Stage) (w : World)
    (e : Error) (w' : World) : Type 0 where
  pub holder : IsHolder agent token a
  pub minutes : Option ℕ
  pub given : parse_optional_ttl ttl ≡ ok minutes
  pub too_large : minutes_fit minutes ≡ false
  pub raised : e ≡ overflow_error
  pub rows : w'.db ≡ w.db
  pub task : Dict
  pub kept : Holds name a.status task w'.files

-- The guards of `heartbeat_task`: one of them gave this error.
abbrev pub HeartbeatFails : String → String → ℤ → Option Ttl → Stage → Dict → Error → Type 0
HeartbeatFails id agent token ttl a task e =
    (validate_identifier id "task_id" ≡ err e)
    ⊎ (require_lease task a.status agent token ≡ err e)
    ⊎ (require (is_true (get "renewal_allowed" (lease_of task)))
          (value_error "task lease does not permit renewal")
        ≡ err e)
    ⊎ (parse_optional_ttl ttl ≡ err e)

module _ ⦃env : Env⦄ (id name agent : String) (token : ℤ) (ttl : Option Ttl) (a : Stage) (w : World)
    (t : Tracks id name a w) (held : IsHolder agent token a) where
  abbrev renewed_task : Option ℕ → Dict
  renewed_task minutes =
      set "updated_at" (str (stamp w))
        (with_lease (renewed minutes (stamp w) (lease_of t.task)) t.task)

  -- The lines of the transaction after the file is written.
  renewal_end :
      (minutes : Option ℕ)
      → parse_optional_ttl ttl ≡ ok minutes
      → Ends
          (λ _ w'. IsHolder agent token a × Tracks id name a w')
          (λ e w'.
            Same w (record w' { db = w.db }) × HeartbeatFails id agent token ttl a t.task e
            ⊎ Overrun name agent token ttl a w e (record w' { db = w.db }))
          ((upsert_lease (renewed_task minutes) "leased" >>= λ task'.
              record_outbox "task.heartbeat" id task' >> pure task')
            (written (task_file a.status name) (obj (renewed_task minutes)) (tick w)))
  renewal_end minutes given = elim (Bool-cases (minutes_fit minutes)) [
    | inl fits ↦
        let fields = renewed-IsTask id a.holder a.token minutes (stamp w) t.task t.fields fits in
        Ends-bind _ _ _
          (upsert_lease-Ends id _ "leased" a.token _ fields.key fields.fenced fields.storable)
          (λ task' w₂ row.
            Ends-bind _ _ _ (record_outbox-Ends "task.heartbeat" id task' w₂) (λ _ w₃ sent.
              Ends-pure _ _ (
                held,
                tracked id name a _ _ w₂ w₃ (Holds-written name a.status t.task _ w.files t.holds)
                    t.known fields row sent,
              )))
    | inr large ↦
        let (n, ttl_n, too_large) = unfit minutes (stamp w) (lease_of t.task) a.token large in
        Ends-bind _ _ _
          (upsert_lease-Overflows {P = λ _ _. ⊥} id (renewed_task minutes) "leased" n a.token _
            (simp get-set t.fields.key)
            (rw get-set (
              rw get-set (
                rw (renewed-get minutes (stamp w) (lease_of t.task) "fencing_token" refl refl refl)
                  t.fields.fenced)))
            (rw get-set (
              rw get-set (
                rw (renewed-get minutes (stamp w) (lease_of t.task) "leased_by" refl refl refl)
                  t.fields.storable.by)))
            (rw get-set (rw get-set (rw (renewed_at minutes (stamp w) (lease_of t.task)) refl)))
            (rw get-set (rw get-set ttl_n)) too_large
            (inr (record {
              holder = held;
              minutes = minutes;
              given = given;
              too_large = large;
              raised = refl;
              rows = refl;
              task = renewed_task minutes;
              kept = Holds-written name a.status t.task _ w.files t.holds;
            })))
          (λ _ _ never. elim never [ ])
  ]

pub heartbeat_task_refines :
    ⦃env : Env⦄ (id name agent : String) (token : ℤ) (ttl : Option Ttl) (a : Stage) (w : World)
    → json_file_name id ≡ ok name
    → (t : Tracks id name a w)
    → Ends
        (λ _ w'. IsHolder agent token a × Tracks id name a w')
        (λ e w'.
          Same w w' × HeartbeatFails id agent token ttl a t.task e
          ⊎ Overrun name agent token ttl a w e w')
        (heartbeat_task id agent token ttl w)
unfolding heartbeat_task heartbeat_body
heartbeat_task_refines id name agent token ttl a w named t =
    Ends-lift _ _ w
      (λ _ _.
        Ends-bind _ _ _
          (Ends-transaction _ w (
            step _ _ (load_task_tracked id name a w t named) (
              Ends-lift _ _ w
                (λ _ passed.
                  Ends-lift _ _ w
                    (λ _ _. step_now _ _ (
                      Ends-lift _ _ (tick w)
                        (λ minutes given. step_write _ _ _ _ (
                          renewal_end id name agent token ttl a w t
                            (IsHolder-of id name agent "leased" token a w t passed) minutes given))
                        (λ e fails.
                          inl (record { files = refl; db = refl }, inr (inr (inr fails))))))
                    (λ e fails. inl (record { files = refl; db = refl }, inr (inr (inl fails)))))
                (λ e fails. inl (record { files = refl; db = refl }, inr (inl fails))))))
          (λ _ w' done. Ends-pure _ _ done))
      (λ e fails. inl (Same-refl w, inl fails))
