-- ===== src/Packets/Promotion/Outcome.antt =====
-- What `promote_packet` leaves: the packet's file, and the verdict that it follows.
use collective_capability_ru.Prelude.{
  sym, String, ◌≡◌, ◌⊎◌, inl, inr, refl, ◌∙◌, Bool, true, false, some, List, [], ◌∷◌, elem,
  Bool-cases, if◌then◌else◌,
}
use collective_capability_ru.Prelude.Map.{
  FilePath, string_eq, file_path_eq, path_eq, path_eq_iff, lookup, erase, lookup-insert,
  lookup-erase,
}
use collective_capability_ru.Result.{Error, Result, ok, err, bind_ok, ok_inj}
use collective_capability_ru.Json.{nil, arr, Json, Dict, str, obj}
use collective_capability_ru.Json.Fields.{get, set, get-set, get-set_self}
use collective_capability_ru.Env.{to_text, Env}
use collective_capability_ru.Exec.{exists, unlink, World, unlink_old}
use collective_capability_ru.Exec.Laws.{
  Ends, Ends-pure, Ends-bind, Ends-if, Ends-lift, step, step_lift, step_gets,
}
use collective_capability_ru.Exec.Steps.{stamp, tick, written, step_now, step_write}
use collective_capability_ru.Ids.{json_file_name}
use collective_capability_ru.Blackboard.Appending.{make_event_files, append_event_files}
use collective_capability_ru.Residuals.Building.{build_residual-Same}
use collective_capability_ru.Packets.{
  get_default, packet_file, packet_path, packet_id_of, load_packet, save_packet_at_status,
}
use collective_capability_ru.Packets.Gates.{promotion_reasons}
use collective_capability_ru.Packets.Promotion.{
  to_packet_residual, embeds, append_residual, append_unless, save_residual, iterate, Verdict,
  failure, verdict_of, evaluate_promotion, embed_residual, save_all, PromotionReply, promoted,
  refused, promote_packet,
}

-- An exception may come at any point; nothing is said of it.
abbrev pub Anyhow : Error → World → Type 0
Anyhow e w = Unit {0}

-- The file of a path has been written last with `v`.
abbrev pub HasFile : FilePath → Dict → World → Type 0
HasFile p d w = lookup p w.files ≡ some (obj d)

rewritten : (p : FilePath) (d : Dict) (w : World) → HasFile p d (written p (obj d) w)
rewritten p d w = rw (lookup-insert p p (obj d) w.files, (path_eq_iff p p).1 refl) refl

unlink_old-Ends :
    (old p : FilePath) (d : Dict) (w : World)
    → HasFile p d w
    → Ends (λ _ w'. HasFile p d w') Anyhow (unlink_old old p w)
unfolding unlink_old unlink
unlink_old-Ends old p d w h = elim (Bool-cases (path_eq old p)) [
  | inl e ↦ rw (e, unlink_old) (Ends-pure _ _ h)
  | inr e ↦ elim (Bool-cases (exists old w)) [
    | inl x ↦ rw (e, x, unlink_old) (record { outcome = erased e })
    | inr x ↦ rw (e, x, unlink_old) (Ends-pure _ _ h)
  ]
]
  where
    erased : path_eq old p ≡ false → lookup p (erase old w.files) ≡ some (obj d)
    erased e = rw (lookup-erase old p w.files, e) h

append_unless-key :
    (already : Bool) (held v : Json) (packet packet' : Dict)
    → append_unless already held v packet ≡ ok packet'
    → get "packet_id" packet' ≡ get "packet_id" packet
unfolding append_unless
append_unless-key true held v packet packet' h = rw (sym (ok_inj h)) (rw get-set refl)
append_unless-key false held v packet packet' h =
    let (held', _, e) = bind_ok (append_residual held v) _ h in
    rw (sym (ok_inj e)) (rw get-set refl)

anyhow : {A : Type 0} (x : Result A × World) → Ends (λ _ _. Unit {0}) Anyhow x
anyhow (ok a, w) = record { outcome = tt }
anyhow (err e, w) = record { outcome = tt }

module _ ⦃env : Env⦄ where
  save_packet_at_status-Ends :
      (id name status : String) (packet : Dict) (old : FilePath) (w : World)
      → json_file_name id ≡ ok name
      → get "packet_id" packet ≡ some (str id)
      → Ends
          (λ _ w'. HasFile (packet_file status name) (set "status" (str status) packet) w')
          Anyhow
          (save_packet_at_status packet status old w)
  unfolding save_packet_at_status packet_id_of packet_path to_text
  save_packet_at_status-Ends id name status packet old w named key =
      step_lift _ _ {a = id} (rw key refl) (
        Ends-lift _ _ w
          (λ _ _. step_lift _ _ {a = packet_file status name} (rw named refl) (
            step_write _ _ _ _ (
              Ends-bind _ _ _
                (unlink_old-Ends old _ (set "status" (str status) packet) _ (rewritten _ _ w))
                (λ _ w' h. Ends-pure _ _ h))))
          (λ _ _. tt))

  embed_residual-key :
      (residual packet packet' : Dict)
      → embed_residual residual packet ≡ ok packet'
      → get "packet_id" packet' ≡ get "packet_id" packet
  unfolding embed_residual
  embed_residual-key residual packet packet' h =
      let (xs, _, h_1) = bind_ok (iterate (get_default (get "residuals" packet) (arr nil))) _ h in
      let (already, _, h_2) =
        bind_ok (embeds (get "residual_id" (to_packet_residual residual)) xs) _ h_1 in
      append_unless-key already _ _ packet packet' h_2

  save_all-key :
      (rs : List Dict) (packet : Dict) (w : World)
      → Ends
          (λ (packet', ids) w'. get "packet_id" packet' ≡ get "packet_id" packet)
          Anyhow
          (save_all rs packet w)
  unfolding save_all
  save_all-key [] packet w = Ends-pure _ _ refl
  save_all-key (r ∷ rs) packet w = Ends-bind _ _ _ (anyhow (save_residual r w)) (λ _ w_1 _.
      Ends-lift _ _ w_1
        (λ packet' e.
          Ends-bind _ _ _ (save_all-key rs packet' w_1)
            (λ x w_2 k. Ends-pure _ _ (k ∙ embed_residual-key r packet packet' e)))
        (λ _ _. tt))

module _ ⦃env : Env⦄ (target : String) (packet : Dict) (w : World) where
  -- Nothing stands against the target; quarantine and deprecation are never refused.
  abbrev pub Cleared : Type 0
  Cleared =
      (elem target ("quarantined" ∷ "deprecated" ∷ []) ≡ true)
      ⊎ (promotion_reasons target packet w ≡ ok [])

  -- A verdict, and what it rests on.
  abbrev Judged : Bool → List String → Type 0
  Judged true reasons = Cleared
  Judged false reasons = promotion_reasons target packet w ≡ ok reasons

  verdict_of-Judged :
      (reasons : List String)
      → promotion_reasons target packet w ≡ ok reasons
      → Ends (λ v w'. Judged v.passed v.reasons) Anyhow (verdict_of target packet reasons w)
  unfolding verdict_of failure
  verdict_of-Judged [] h = Ends-pure _ _ (inr h)
  verdict_of-Judged (r ∷ rs) h =
      Ends-lift _ _ w
        (λ id _. Ends-bind _ _ _ (build_residual-Same _ w) (λ residual w' _. Ends-pure _ _ h))
        (λ _ _. tt)

  evaluate_promotion-Judged :
      Ends (λ v w'. Judged v.passed v.reasons) Anyhow (evaluate_promotion packet target w)
  unfolding evaluate_promotion
  evaluate_promotion-Judged = step_gets _ _ refl (
      Ends-lift _ _ w
        (λ reasons e.
          Ends-if (elem target ("quarantined" ∷ "deprecated" ∷ [])) _ _ w
            (λ h. Ends-pure _ _ (inl h)) (λ _. verdict_of-Judged reasons e))
        (λ _ _. tt))

  -- How `promote_packet` may return: the packet lies under its target, with that status, and nothing
  -- stands against it; or it lies where it lay, and the reasons are those of the gates.
  abbrev pub PromotionOutcome : String → String → PromotionReply → World → Type 0
  PromotionOutcome name before reply w' =
      (d : Dict) × (lookup (packet_file reply.status_after name) w'.files ≡ some (obj d))
      × (get "status" d ≡ some (str reply.status_after))
      × (reply.status_after ≡ (if reply.passed then target else before))
      × Judged reply.passed reply.reasons

module _ ⦃env : Env⦄ (id name before target actor : String) (packet : Dict) (w : World)
    (named : json_file_name id ≡ ok name)
    (loaded : load_packet id w ≡ (ok (packet, packet_file before name, before), w))
    (key : get "packet_id" packet ≡ some (str id)) where
  promoted-Outcome :
      (packet' : Dict) (ids : List String) (w' : World)
      → get "packet_id" packet' ≡ some (str id)
      → Cleared target packet w
      → Ends
          (λ reply w''. PromotionOutcome target packet w name before reply w'')
          Anyhow
          (promoted id target actor packet' (packet_file before name) before ids w')
  unfolding promoted
  promoted-Outcome packet' ids w' key' clear = step_now _ _ (
      Ends-bind _ _ _
        (save_packet_at_status-Ends id name target (set "updated_at" (str (stamp w')) packet') _
          (tick w') named (rw get-set key'))
        (λ _ w_1 there. Ends-bind _ _ _ (make_event_files _ w_1) (λ event w_2 k.
          Ends-bind _ _ _ (append_event_files event w_2) (λ _ w_3 l. Ends-pure _ _ (
            set "status" (str target) (set "updated_at" (str (stamp w')) packet'),
            rw (l, k) there,
            get-set_self _ _ _,
            refl,
            clear,
          )))))

  refused-Outcome :
      (packet' : Dict) (ids reasons : List String) (w' : World)
      → get "packet_id" packet' ≡ some (str id)
      → promotion_reasons target packet w ≡ ok reasons
      → Ends
          (λ reply w''. PromotionOutcome target packet w name before reply w'')
          Anyhow
          (refused id actor packet' (packet_file before name) before ids reasons w')
  unfolding refused
  refused-Outcome packet' ids reasons w' key' why =
      Ends-bind _ _ _ (save_packet_at_status-Ends id name before packet' _ w' named key')
        (λ _ w_1 there. Ends-bind _ _ _ (make_event_files _ w_1) (λ event w_2 k.
          Ends-bind _ _ _ (append_event_files event w_2) (λ _ w_3 l.
            Ends-pure _ _
              (set "status" (str before) packet', rw (l, k) there, get-set_self _ _ _, refl, why))))

  -- Where `promote_packet` returns, of a packet that it loads from the queue of a status: the packet
  -- was promoted, nothing stood against the target, and its file is in the queue of the target with
  -- that status; or it was refused for the reasons that the gates gave, and its file is in the queue
  -- that it was in.
  pub promote_packet_refines :
      Ends
        (λ reply w'. PromotionOutcome target packet w name before reply w')
        Anyhow
        (promote_packet id target actor w)
  unfolding promote_packet
  promote_packet_refines = step _ _ loaded (
      Ends-bind _ _ _ (evaluate_promotion-Judged target packet w) (λ v w_1 judged.
        Ends-bind _ _ _ (save_all-key v.residuals packet w_1)
          (λ (packet', ids) w_2 same. decided v packet' ids w_2 judged (same ∙ key))))
    where
      decided :
          (v : Verdict) (packet' : Dict) (ids : List String) (w' : World)
          → Judged target packet w v.passed v.reasons
          → get "packet_id" packet' ≡ some (str id)
          → Ends
              (λ reply w''. PromotionOutcome target packet w name before reply w'')
              Anyhow
              ((if v.passed
                  then promoted id target actor packet' (packet_file before name) before ids
                  else refused id actor packet' (packet_file before name) before ids v.reasons)
                w')
      decided v packet' ids w' judged key' =
          Ends-if v.passed _ _ w' (λ e. promoted-Outcome packet' ids w' key' (rw e at judged))
            (λ e. refused-Outcome packet' ids v.reasons w' key' (rw e at judged))
