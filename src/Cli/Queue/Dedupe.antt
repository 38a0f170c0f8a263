-- ===== src/Cli/Queue/Dedupe.antt =====
-- The search through the buckets against the comparison with everything that was kept.
use stint.Prelude.{
  ℕ, zero, suc, ◌+◌, ◌≤◌, ◌≡◌, refl, sym, ◌∙◌, ap, Bool, true, false, ◌&&◌, ◌||◌, List, [], ◌∷◌,
  ◌++◌, leb, leb→le, append-nil, ◌==◌, if◌then◌else◌, arith, Bool-cases, inl, inr,
}
use mathlib.Core.Path.{ap₂}
use stint.Prelude.Text.{Str, str_eq, str_eq→eq}
use stint.Prelude.Dict.{text_eq, nat_eq, lookup, insert, lookup-insert}
use stint.Cli.Heartbeat.{Heartbeat}
use stint.Cli.Queue.{
  window, Deduper, or_empty, bucket, add, distance, any_near, neighbors, any_neighbor, is_duplicate,
}

-- Two heartbeats on one entity at most a window apart.
abbrev pub is_near : Heartbeat → Heartbeat → Bool
is_near a b = str_eq b.entity a.entity && leb (distance a.time b.time) window

-- The reference: compare with every heartbeat that was kept.
unfoldable pub near_any : Heartbeat → List Heartbeat → Bool
near_any hb [] = false
near_any hb (k ∷ ks) = is_near hb k || near_any hb ks

-- The kept times of an entity in a bucket.
pub times_in : Str → ℕ → List Heartbeat → List ℕ
times_in e b [] = []
times_in e b (k ∷ ks) =
    let rest = times_in e b ks in
    if str_eq k.entity e && (bucket k.time == b) then k.time ∷ rest else rest

-- The times that the deduper holds.
pub times_of : Str → ℕ → Deduper → List ℕ
times_of e b d = or_empty (lookup b (or_empty (lookup e d)))

-- The deduper holds the times of `kept`, and no others.
abbrev pub Holds : Deduper → List Heartbeat → Type 0
Holds d kept = (e : Str) (b : ℕ) → times_of e b d ≡ times_in e b kept

times_in-snoc :
    (e : Str) (b : ℕ) (kept : List Heartbeat) (hb : Heartbeat)
    → times_in e b (kept ++ hb ∷ [])
      ≡ times_in e b kept
        ++ (if str_eq hb.entity e && (bucket hb.time == b) then hb.time ∷ [] else [])
unfolding times_in
times_in-snoc e b [] hb = ground arith
times_in-snoc e b (k ∷ ks) hb = ground (arith, times_in-snoc e b ks hb)

times_of-add :
    (e : Str) (b : ℕ) (d : Deduper) (hb : Heartbeat)
    → times_of e b (add d hb)
      ≡ times_of e b d ++ (if str_eq hb.entity e && (bucket hb.time == b) then hb.time ∷ [] else [])
unfolding times_of add
times_of-add e b d hb =
    let inner = or_empty (lookup hb.entity d) in
    let c = bucket hb.time in
    let times = or_empty (lookup c inner) ++ hb.time ∷ [] in
    elim (Bool-cases (str_eq hb.entity e)) [
      | inl same ↦
          rw (lookup-insert hb.entity e (insert c times inner) d, same)
            (rw (lookup-insert c b times inner, str_eq→eq hb.entity e same)
              (ground (arith, append-nil (or_empty (lookup b (or_empty (lookup e d)))))))
      | inr other ↦
          rw (lookup-insert hb.entity e (insert c times inner) d, other) (sym (append-nil _))
    ]

-- No times are held for no heartbeats.
pub nil-Holds : Holds [] []
unfolding times_of times_in lookup
nil-Holds e b = refl

pub add-Holds :
    (d : Deduper) (kept : List Heartbeat) (hb : Heartbeat)
    → Holds d kept
    → Holds (add d hb) (kept ++ hb ∷ [])
add-Holds d kept hb h e b = rw (times_of-add e b d hb, times_in-snoc e b kept hb, h e b)

any_near-times_in :
    (t : ℕ) (e : Str) (n : ℕ) (k : Heartbeat) (ks : List Heartbeat)
    → any_near t (times_in e n (k ∷ ks)) ≡ (
        str_eq k.entity e && (bucket k.time == n) && leb (distance t k.time) window
        || any_near t (times_in e n ks))
unfolding times_in any_near
any_near-times_in t e n k ks = ground arith

-- Times that are a window apart at most lie in neighbouring buckets.
bucket_near :
    (t k : ℕ)
    → leb (distance t k) window ≡ true
    → (bucket k ≤ bucket t + 1) × (bucket t ≤ bucket k + 1)
unfolding bucket
bucket_near t k h = let le = leb→le (distance t k) window h in omega arith

-- A search through the buckets next to `b`.
found : ℕ → Str → List Heartbeat → List ℕ → Bool
found t e kept [] = false
found t e kept (n ∷ ns) = any_near t (times_in e n kept) || found t e kept ns

found-nil : (t : ℕ) (e : Str) (ns : List ℕ) → found t e [] ns ≡ false
unfolding found times_in any_near
found-nil t e [] = refl
found-nil t e (n ∷ ns) = found-nil t e ns

found-cons :
    (b : ℕ) (hb k : Heartbeat) (ks : List Heartbeat)
    → bucket hb.time ≡ b
    → found hb.time hb.entity (k ∷ ks) (neighbors b)
      ≡ (is_near hb k || found hb.time hb.entity ks (neighbors b))
unfolding found neighbors
found-cons zero hb k ks e =
    let t = hb.time in
    ground (
      arith,
      any_near-times_in t hb.entity 0 k ks,
      any_near-times_in t hb.entity 1 k ks,
      bucket_near t k.time,
    )
found-cons (suc b) hb k ks e =
    let t = hb.time in
    ground (
      arith,
      any_near-times_in t hb.entity b k ks,
      any_near-times_in t hb.entity (suc b) k ks,
      any_near-times_in t hb.entity (suc (suc b)) k ks,
      bucket_near t k.time,
    )

found-near_any :
    (kept : List Heartbeat) (hb : Heartbeat)
    → found hb.time hb.entity kept (neighbors (bucket hb.time)) ≡ near_any hb kept
unfolding near_any
found-near_any [] hb = found-nil hb.time hb.entity (neighbors (bucket hb.time))
found-near_any (k ∷ ks) hb = rw (found-cons (bucket hb.time) hb k ks refl, found-near_any ks hb)

any_neighbor-found :
    (t : ℕ) (e : Str) (d : Deduper) (kept : List Heartbeat) (ns : List ℕ)
    → Holds d kept
    → any_neighbor t (or_empty (lookup e d)) ns ≡ found t e kept ns
unfolding any_neighbor found times_of
any_neighbor-found t e d kept [] h = refl
any_neighbor-found t e d kept (n ∷ ns) h =
    ap₂ (λ u v. u || v) (ap (any_near t) (h e n)) (any_neighbor-found t e d kept ns h)

-- A deduper that holds the kept times finds a duplicate exactly where the comparison with all of them
-- does.
pub is_duplicate-near_any :
    (d : Deduper) (kept : List Heartbeat) (hb : Heartbeat)
    → Holds d kept
    → is_duplicate d hb ≡ near_any hb kept
unfolding is_duplicate
is_duplicate-near_any d kept hb h =
    any_neighbor-found hb.time hb.entity d kept (neighbors (bucket hb.time)) h
    ∙ found-near_any kept hb
