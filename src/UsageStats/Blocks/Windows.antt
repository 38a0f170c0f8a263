-- ===== src/UsageStats/Blocks/Windows.antt =====
-- The blocks of a whole run of the loop.
use stint.Prelude.{
  ℕ, ◌≡◌, refl, false, Option, none, some, List, [], ◌∷◌, All, All-append, Bool-cases, inl, inr,
}
use stint.Prelude.Sort.{Ascending}
use stint.Usage.{Event}
use stint.Pricing.Double.{Double}
use stint.UsageStats.Blocks.{
  Block, Building, Timed, step, run, start_building, all_blocks, opened, starts_new, add_event,
}
use stint.UsageStats.Blocks.Step.{IsBuilt, step-IsBuilt}

module _ {F : Type 0} ⦃fl : Double F⦄ (price_tokens : Event F → F × ℕ) where
  run-IsBuilt_from :
      (s : Building F) (ts : List (Timed F))
      → Ascending (λ t. t.0) s.last_event_time ts
      → IsBuilt s
      → IsBuilt (run price_tokens s ts)
  unfolding run
  run-IsBuilt_from s [] _ v = v
  run-IsBuilt_from s (t ∷ ts) (le, asc) v =
      run-IsBuilt_from (step price_tokens s t) ts (next asc) (step-IsBuilt price_tokens s t le v)
    where
      next :
          Ascending (λ u. u.0) t.0 ts
          → Ascending (λ u. u.0) (step price_tokens s t).last_event_time ts
      next a = unfold step in a

  -- A run over events in time order builds a chain of windows.
  pub run-IsBuilt :
      (ts : List (Timed F))
      → Ascending (λ t. t.0) 0 ts
      → IsBuilt (run price_tokens start_building ts)
  run-IsBuilt ts asc = run-IsBuilt_from start_building ts asc refl

  -- No block is marked while the blocks are built.
  abbrev pub IsUnmarked : List (Block F) → Type 0
  IsUnmarked = All (λ b. b.is_active ≡ false)

  abbrev Unmarked : Building F → Type 0
  Unmarked s = IsUnmarked s.finished × IsUnmarked (opened s.current)

  step-Unmarked : (s : Building F) (t : Timed F) → Unmarked s → Unmarked (step price_tokens s t)
  unfolding step
  step-Unmarked s (ts, e) (f, c) = elim (Bool-cases (starts_new s ts)) [
    | inl new ↦ rw new (All-append _ s.finished (opened s.current) f c, (refl, tt))
    | inr old ↦ rw old (f, kept s.current c)
  ]
    where
      kept :
          (o : Option (Block F))
          → IsUnmarked (opened o)
          → IsUnmarked (opened (add_event ts (price_tokens e) o))
      kept none u = u
      kept (some b) u = u

  run-Unmarked :
      (s : Building F) (ts : List (Timed F)) → Unmarked s → Unmarked (run price_tokens s ts)
  unfolding run
  run-Unmarked s [] u = u
  run-Unmarked s (t ∷ ts) u = run-Unmarked (step price_tokens s t) ts (step-Unmarked s t u)

  pub all_blocks-run-IsUnmarked :
      (ts : List (Timed F)) → IsUnmarked (all_blocks (run price_tokens start_building ts))
  unfolding all_blocks
  all_blocks-run-IsUnmarked ts =
      let (f, c) = run-Unmarked start_building ts (tt, unfold opened in tt) in All-append _ _ _ f c
