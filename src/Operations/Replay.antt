-- ===== src/Operations/Replay.antt =====
-- Any number of calls on one approval: no more are let through than it has uses.
use collective_capability_ru.Prelude.{
  ℕ, ◌+◌, String, ◌≡◌, refl, sym, ap, ◌∙◌, Option, some, some_inj, List, [], ◌∷◌, subst, arith,
  false,
}
use collective_capability_ru.Prelude.Int.{ℤ, pos, ◌+ℤ◌, ◌≤ℤ◌, leb_ℤ}
use collective_capability_ru.Result.{Result, ok, ok_inj, bind_ok, ◌>>=◌}
use collective_capability_ru.Json.{Dict, int, obj}
use collective_capability_ru.Json.Fields.{set, get-set_self}
use collective_capability_ru.Env.{Env}
use collective_capability_ru.Operations.Registry.{
  Verdict, refused, consumed, count_at, count_of, use_once,
}
use collective_capability_ru.Operations.Uses.{entry_of, IsUse, UseOutcome, use_once_refines}

abbrev pub uses : Verdict → ℕ
uses (refused failure a) = 0
uses (consumed a) = 1

-- The approval's entry has this count.
pub record Counts (id : String) (used : ℤ) (registry : Dict) : Type 0 where
  pub found : Dict
  pub there : entry_of id registry ≡ some (obj found)
  pub counted : count_at "use_count" found ≡ ok used

module _ ⦃env : Env⦄ (id : String) (approval : Dict) where
  -- One edit after the other, each with its expiry and the store's time; how many took a use.
  unfoldable pub run_uses : List (Option ℕ × String) → Dict → Result (Dict × ℕ)
  run_uses [] registry = ok (registry, 0)
  run_uses ((expiry, current) ∷ calls) registry =
      use_once id approval expiry registry current >>= λ (registry', v).
      run_uses calls registry' >>= λ (final, n). ok (final, uses v + n)

obj_inj : (d e : Dict) → obj d ≡ obj e → d ≡ e
obj_inj d e h = cc

counted_after :
    (used : ℤ) (found : Dict) → count_at "use_count" (set "use_count" (int used) found) ≡ ok used
unfolding count_at count_of
counted_after used found = rw (get-set_self "use_count" (int used) found) refl

one_more : (used most : ℤ) (n : ℕ) → (used +ℤ pos 1) +ℤ pos n ≤ℤ most → used +ℤ pos (1 + n) ≤ℤ most
one_more used most n h = ground arith

none_more : (used most : ℤ) (n : ℕ) → used +ℤ pos n ≤ℤ most → used +ℤ pos (0 + n) ≤ℤ most
none_more used most n h = ground arith

still_below : (used most : ℤ) → leb_ℤ most used ≡ false → used +ℤ pos 1 ≤ℤ most
still_below used most h = ground arith

no_more : (used most : ℤ) → used ≤ℤ most → used +ℤ pos 0 ≤ℤ most
no_more used most h = ground arith

module _ ⦃env : Env⦄ (id : String) (approval : Dict) (most : ℤ)
    (bounded : count_at "max_uses" approval ≡ ok most) where
  same_count :
      (used : ℤ) (registry registry' : Dict) (expiry : Option ℕ) (current : String)
      → Counts id used registry
      → (u : IsUse id approval expiry current registry registry') → u.used ≡ used
  same_count used registry registry' expiry current c u =
      let same : u.found ≡ c.found = obj_inj u.found c.found (some_inj (sym u.there ∙ c.there)) in
      ok_inj (sym u.counted ∙ (ap (count_at "use_count") same ∙ c.counted))

  Counts-after :
      (used : ℤ) (registry registry' : Dict) (expiry : Option ℕ) (current : String)
      → Counts id used registry
      → IsUse id approval expiry current registry registry'
      → Counts id (used +ℤ pos 1) registry' × (used +ℤ pos 1 ≤ℤ most)
  Counts-after used registry registry' expiry current c u =
      let same : u.used ≡ used = same_count used registry registry' expiry current c u in
      let limit : u.most ≡ most = ok_inj (sym u.bounded ∙ bounded) in
      (
        rw (sym same) (record { found = _; there = u.after; counted = counted_after _ u.found }),
        rw (sym same, sym limit) (still_below u.used u.most u.below),
      )

  -- What holds of the calls that are left, from any registry.
  abbrev Rest : List (Option ℕ × String) → Type 0
  Rest calls =
      (used : ℤ) (registry final : Dict) (n : ℕ)
      → Counts id used registry
      → used ≤ℤ most
      → run_uses id approval calls registry ≡ ok (final, n)
      → used +ℤ pos n ≤ℤ most

  carried :
      (calls : List (Option ℕ × String)) (rest : Rest calls) (expiry : Option ℕ) (current : String)
      (used : ℤ) (registry : Dict) (c : Counts id used registry) (within : used ≤ℤ most)
      (v : Verdict) (registry' last : Dict) (k : ℕ)
      → UseOutcome id approval expiry current registry registry' v
      → run_uses id approval calls registry' ≡ ok (last, k)
      → used +ℤ pos (uses v + k) ≤ℤ most
  carried calls rest expiry current used registry c within (refused failure a) registry' last k same
        ran =
      none_more used most k (rest used registry last k c within (rw same at ran))
  carried calls rest expiry current used registry c within (consumed a) registry' last k taken ran =
      let (c', below) = Counts-after used registry registry' expiry current c taken in
      one_more used most k (rest (used +ℤ pos 1) registry' last k c' below ran)

  -- However often an approval is presented, in whatever order the store serves the calls, the uses
  -- taken and those that its entry counted before are together no more than its maximum.
  pub run_uses_bounded :
      (calls : List (Option ℕ × String)) (used : ℤ) (registry final : Dict) (n : ℕ)
      → Counts id used registry
      → used ≤ℤ most
      → run_uses id approval calls registry ≡ ok (final, n)
      → used +ℤ pos n ≤ℤ most
  unfolding run_uses
  run_uses_bounded [] used registry final n c within h =
      subst (λ x. used +ℤ pos x.1 ≤ℤ most) (ok_inj h) (no_more used most within)
  run_uses_bounded ((expiry, current) ∷ calls) used registry final n c within h =
      let (x, once, h_1) = bind_ok (use_once id approval expiry registry current) _ h in
      let (y, ran, h_2) = bind_ok (run_uses id approval calls x.0) _ h_1 in
      subst (λ z. used +ℤ pos z.1 ≤ℤ most) (ok_inj h_2)
        (carried calls (run_uses_bounded calls) expiry current used registry c within x.1 x.0 y.0
          y.1 (use_once_refines id approval expiry current registry x.0 x.1 once) ran)
