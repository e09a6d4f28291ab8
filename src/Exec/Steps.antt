-- ===== src/Exec/Steps.antt =====
-- The known effect of each primitive, as a step of a block.
use collective_capability_ru.Prelude.{◌+◌, ◌/◌, String, ◌≡◌, refl, true, false, none, some}
use collective_capability_ru.Prelude.Map.{FilePath, file_path_eq, lookup, insert, erase}
use collective_capability_ru.Result.{Error, ok}
use collective_capability_ru.Json.{Json, Dict, obj}
use collective_capability_ru.Env.{Env}
use collective_capability_ru.Exec.{
  World, Exec, now_iso, read_file, write_file, unlink, to_dict, exists, ◌>>=◌,
}
use collective_capability_ru.Exec.Laws.{Ends, step}

abbrev pub tick : World → World
tick w = record w { readings = w.readings + 1 }

abbrev pub written : FilePath → Json → World → World
written p v w = record w { files = insert p v w.files }

abbrev pub removed : FilePath → World → World
removed p w = record w { files = erase p w.files }

module _ ⦃env : Env⦄ where
  abbrev pub stamp : World → String
  stamp w = env.iso (w.clock w.readings / 1000000)

module _ {B : Type 0} {P : B → World → Type 0} {Q : Error → World → Type 0} where
  pub step_now :
      ⦃env : Env⦄ (f : String → Exec B) (w : World)
      → Ends P Q (f (stamp w) (tick w))
      → Ends P Q ((now_iso >>= f) w)
  unfolding now_iso
  step_now f w h = step _ _ refl h

  pub step_read :
      (p : FilePath) (e : Error) (f : Json → Exec B) {v : Json} (w : World)
      → lookup p w.files ≡ some v
      → Ends P Q (f v w)
      → Ends P Q ((read_file p e >>= f) w)
  step_read p e f {v} w there h = step _ _ read h
    where
      read : read_file p e w ≡ (ok v, w)
      read = unfold read_file in rw (there, read_file)

  -- The read of a file that is not there ends the block.
  pub step_missing :
      (p : FilePath) (e : Error) (f : Json → Exec B) (w : World)
      → lookup p w.files ≡ none
      → Q e w
      → Ends P Q ((read_file p e >>= f) w)
  unfolding read_file ◌>>=◌
  step_missing p e f w absent q = rw (absent, read_file) (record { outcome = q })

  pub step_write :
      (p : FilePath) (v : Json) (f : Unit {0} → Exec B) (w : World)
      → Ends P Q (f tt (written p v w))
      → Ends P Q ((write_file p v >>= f) w)
  unfolding write_file
  step_write p v f w h = step _ _ refl h

  pub step_unlink :
      (p : FilePath) (f : Unit {0} → Exec B) (w : World)
      → Ends P Q (f tt (removed p w))
      → Ends P Q ((unlink p >>= f) w)
  unfolding unlink
  step_unlink p f w h = step _ _ refl h

pub to_dict-obj : (d : Dict) (message : String) → to_dict (obj d) message ≡ ok d
unfolding to_dict
to_dict-obj d message = refl

pub exists-some :
    (p : FilePath) (w : World) {v : Json} → lookup p w.files ≡ some v → exists p w ≡ true
unfolding exists
exists-some p w h = rw (h, exists)

pub exists-none : (p : FilePath) (w : World) → lookup p w.files ≡ none → exists p w ≡ false
unfolding exists
exists-none p w h = rw (h, exists)
