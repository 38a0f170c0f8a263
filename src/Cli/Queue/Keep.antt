-- ===== src/Cli/Queue/Keep.antt =====
-- What the pass that removes near-duplicates keeps of a queue.
use stint.Prelude.{◌≡◌, refl, ap, true, false, List, [], ◌∷◌, ◌++◌, Bool-cases, inl, inr}
use stint.Cli.Heartbeat.{Heartbeat}
use stint.Cli.Queue.{Deduper, add, keep_loop, delete_duplicates}
use stint.Cli.Queue.Dedupe.{Holds, near_any, nil-Holds, add-Holds, is_duplicate-near_any}

-- The reference: a heartbeat stays where none of those before it that stayed is near it.
pub keep_pass : List Heartbeat → List Heartbeat → List Heartbeat
keep_pass kept [] = []
keep_pass kept (hb ∷ hbs) = elim (near_any hb kept) [
  | true ↦ keep_pass kept hbs
  | false ↦ hb ∷ keep_pass (kept ++ hb ∷ []) hbs
]

keep_loop-keep_pass :
    (hbs : List Heartbeat) (d : Deduper) (kept : List Heartbeat)
    → Holds d kept
    → keep_loop d hbs ≡ keep_pass kept hbs
unfolding keep_loop keep_pass
keep_loop-keep_pass [] d kept h = refl
keep_loop-keep_pass (hb ∷ hbs) d kept h = elim (Bool-cases (near_any hb kept)) [
  | inl near ↦
      rw (keep_loop, keep_pass, is_duplicate-near_any d kept hb h, near)
        (keep_loop-keep_pass hbs d kept h)
  | inr far ↦
      rw (keep_loop, keep_pass, is_duplicate-near_any d kept hb h, far)
        (ap (λ ks. hb ∷ ks)
          (keep_loop-keep_pass hbs (add d hb) (kept ++ hb ∷ []) (add-Holds d kept hb h)))
]

-- Removing near-duplicates keeps a heartbeat exactly where none of the heartbeats kept before it has
-- its entity and a time a window from its own at most.
pub delete_duplicates-keep_pass : (hbs : List Heartbeat) → delete_duplicates hbs ≡ keep_pass [] hbs
unfolding delete_duplicates
delete_duplicates-keep_pass hbs = keep_loop-keep_pass hbs [] [] nil-Holds
