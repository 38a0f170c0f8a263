-- ===== src/Cli/Requeue/NoLoss.antt =====
-- What becomes of the heartbeats of a batch.
use stint.Prelude.{
  ℕ, zero, suc, ◌+◌, ◌≤◌, ◌≡◌, ◌⊎◌, refl, none, some, List, [], ◌∷◌, if◌then◌else◌, arith,
  Option-cases, inl, inr,
}
use stint.Prelude.Text.{Str, str_eq, str_eq→eq}
use stint.Prelude.Dict.{Dict, text_eq, lookup, insert, lookup-insert}
use stint.Cli.Heartbeat.{Heartbeat, Formats, id_of}
use stint.Cli.Requeue.{
  Json, response_heartbeat, response_status, settles, count_of, missing_response_heartbeats,
  requeue_loop, offline_requeue_from_bulk_response,
}

zero_or_suc : (n : ℕ) → (n ≡ 0) ⊎ ((m : ℕ) × (n ≡ suc m))
zero_or_suc zero = inl refl
zero_or_suc (suc n) = inr (n, refl)

module _ (f : Formats) (x : Str) where
  -- The heartbeats whose ID is `x`.
  unfoldable pub copies : List Heartbeat → ℕ
  copies [] = 0
  copies (hb ∷ hbs) = (if str_eq (id_of f hb) x then 1 else 0) + copies hbs

  copies-missing :
      (handled : Dict Str ℕ) (hbs : List Heartbeat)
      → copies hbs
        ≤ count_of (lookup x handled) + copies (missing_response_heartbeats f handled hbs)
  unfolding copies missing_response_heartbeats
  copies-missing handled [] = omega arith
  copies-missing handled (hb ∷ hbs) = elim (zero_or_suc (count_of (lookup (id_of f hb) handled))) [
    | inl e ↦ rw (missing_response_heartbeats, e) (ground (arith, copies-missing handled hbs))
    | inr (n, e) ↦
        rw (missing_response_heartbeats, e)
          (ground (
            arith,
            str_eq→eq (id_of f hb) x,
            lookup-insert (id_of f hb) x n handled,
            copies-missing (insert (id_of f hb) n handled) hbs,
          ))
  ]

  module _ (j : Json) (hbs : List Heartbeat) where
    -- The responses, up to the first that is about no heartbeat, that settle a heartbeat with the ID `x`.
    unfoldable pub settled : ℕ → List Str → ℕ
    settled i [] = 0
    settled i (raw ∷ raws) = elim (response_heartbeat j raw hbs i) [
      | none ↦ 0
      | some hb ↦
          (if settles (response_status j raw) then (if str_eq (id_of f hb) x then 1 else 0) else 0)
          + settled (suc i) raws
    ]

    copies-requeue_loop :
        (i : ℕ) (handled : Dict Str ℕ) (raws : List Str)
        → copies hbs
          ≤ count_of (lookup x handled)
            + (copies (requeue_loop f j hbs i handled raws) + settled i raws)
    unfolding requeue_loop settled copies
    copies-requeue_loop i handled [] = ground (arith, copies-missing handled hbs)
    copies-requeue_loop i handled (raw ∷ raws) =
        elim (Option-cases (response_heartbeat j raw hbs i)) [
          | inl e ↦ rw (requeue_loop, settled, e) (ground (arith, copies-missing handled hbs))
          | inr (hb, e) ↦
              let id = id_of f hb in
              let more = count_of (lookup id handled) + 1 in
              rw (requeue_loop, settled, e)
                (ground (
                  arith,
                  str_eq→eq id x,
                  lookup-insert id x more handled,
                  copies-requeue_loop (suc i) (insert id more handled) raws,
                ))
        ]

-- Where the server's answer lists responses, each ID occurs among the heartbeats that were sent no more
-- often than among those that go back to the queue and the responses that settle it together.
pub copies-requeue :
    (f : Formats) (j : Json) (x body : Str) (hbs : List Heartbeat) (raws : List Str)
    → j.responses body ≡ some (some raws)
    → (requeue : List Heartbeat) × (offline_requeue_from_bulk_response f j body hbs ≡ some requeue)
      × (copies f x hbs ≤ copies f x requeue + settled f x j hbs 0 raws)
unfolding offline_requeue_from_bulk_response lookup
copies-requeue f j x body hbs raws h = (
  requeue_loop f j hbs 0 [] raws,
  rw (offline_requeue_from_bulk_response, h) refl,
  ground (arith, copies-requeue_loop f x j hbs 0 [] raws),
)
