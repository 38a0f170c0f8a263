-- ===== src/Cli/Sync/Conserved.antt =====
-- What a synchronisation does to the queue.
use stint.Prelude.{
  take, ℕ, zero, suc, ◌+◌, ◌-◌, ◌≡◌, refl, sym, Bool, true, false, Option, none, some, List, [],
  ◌∷◌, ◌++◌, ◌==◌, length, drop, arith, sum_by, sum_by-append, Bool-cases, inl, inr,
}
use stint.Cli.Heartbeat.{Heartbeat}
use stint.Cli.Queue.{delete_duplicates}
use stint.Cli.Sync.{
  Turn, Post, Synced, batch_limit, after_post, sync_loop, bounded, sync_offline_queue,
}
use stint.Cli.Sync.File.{
  Write, written, unopened, torn, is_written, appended, removed_file, rewritten, removed_prefix,
  delete_queue_duplicates,
}

take-drop :
    (f : Heartbeat → ℕ) (n : ℕ) (q : List Heartbeat)
    → sum_by f (take n q) + sum_by f (drop (length (take n q)) q) ≡ sum_by f q
take-drop f zero q = omega arith
take-drop f (suc n) [] = omega arith
take-drop f (suc n) (x ∷ q) = omega (arith, take-drop f n q)

-- A write that did not stop in the middle of the file.
abbrev pub is_whole : Write → Bool
is_whole written = true
is_whole unopened = true
is_whole (torn n) = false

-- Every append succeeds, and no removal stops between the truncation of the file and its last line.
pub record IsWhole (t : Turn) : Type 0 where
  pub append_lem : t.append ≡ written
  pub remove_lem : is_whole t.remove ≡ true

-- A removal that fails, but not midway, leaves the queue as it was.
removed_prefix-failed :
    (w : Write) (n : ℕ) (q : List Heartbeat)
    → is_whole w ≡ true
    → is_written w ≡ false
    → removed_prefix w n q ≡ q
unfolding removed_prefix removed_file rewritten is_written
removed_prefix-failed written n q h e = absurd (cc)
removed_prefix-failed unopened n q h e = ground arith
removed_prefix-failed (torn k) n q h e = absurd (cc)

drop-length_nil : (q : List Heartbeat) → (length q == 0) ≡ true → q ≡ []
drop-length_nil [] e = refl
drop-length_nil (x ∷ q) e = absurd (ground arith)

-- A removal that succeeds drops the prefix.
pub removed_prefix-written :
    (w : Write) (n : ℕ) (q : List Heartbeat) → is_written w ≡ true → removed_prefix w n q ≡ drop n q
unfolding removed_prefix removed_file rewritten is_written
removed_prefix-written written n q e = elim (Bool-cases (length (drop n q) == 0)) [
  | inl z ↦ rw z (sym (drop-length_nil (drop n q) z))
  | inr z ↦ rw z refl
]
removed_prefix-written unopened n q e = absurd (cc)
removed_prefix-written (torn k) n q e = absurd (cc)

module _ (f : Heartbeat → ℕ) where
  abbrev pub posted : List Post → ℕ
  posted = sum_by (λ p. sum_by f p.batch)

  abbrev pub returned : List Post → ℕ
  returned = sum_by (λ p. sum_by f p.requeue)

  -- The queue holds the weight `w`, but for what was posted and came back.
  abbrev Holds : ℕ → Synced → Type 0
  Holds w s = sum_by f s.queue + posted s.posts ≡ w + returned s.posts

  after_post-Holds :
      (t : Turn) (batch rest : List Heartbeat) (total : ℕ) (posts : List Post)
      (next : List Heartbeat → List Post → Synced) (o : Option (List Heartbeat)) (w : ℕ)
      → t.append ≡ written
      → ((q : List Heartbeat) (done : List Post)
          → sum_by f q + posted done ≡ w + returned done
          → Holds w (next q done))
      → sum_by f batch + sum_by f rest + posted posts ≡ w + returned posts
      → Holds w (after_post t batch rest total posts next o)
  unfolding after_post appended is_written
  after_post-Holds t batch rest total posts next none w a n h =
      rw a (omega (arith, sum_by-append f rest batch))
  after_post-Holds t batch rest total posts next (some []) w a n h = n rest _ (omega arith)
  after_post-Holds t batch rest total posts next (some (r ∷ rs)) w a n h =
      rw a (n (rest ++ r ∷ rs) _ (omega (arith, sum_by-append f rest (r ∷ rs))))

  sync_loop-Holds :
      (fuel turn : ℕ) (env : ℕ → Turn) (remaining total : ℕ) (q : List Heartbeat)
      (posts : List Post) (w : ℕ)
      → ((n : ℕ) → IsWhole (env n))
      → sum_by f q + posted posts ≡ w + returned posts
      → Holds w (sync_loop fuel turn env remaining total q posts)
  unfolding sync_loop
  sync_loop-Holds zero turn env remaining total q posts w a h = h
  sync_loop-Holds (suc n) turn env remaining total q posts w a h =
      let t = env turn in
      let batch = take (batch_limit remaining) q in
      let rest = removed_prefix t.remove (length batch) q in
      let next : List Heartbeat → List Post → Synced = λ q' done.
        sync_loop n (turn + 1) env (remaining - length batch) (total + length batch) q' done in
      elim (Bool-cases (remaining == 0)) [
        | inl e ↦ rw e h
        | inr e ↦ rw e (elim (Bool-cases t.read_ok) [
          | inr e ↦ rw e h
          | inl e ↦ rw e (elim (Bool-cases (length batch == 0)) [
            | inl e ↦ rw e h
            | inr e ↦ rw e (elim (Bool-cases (is_written t.remove)) [
              | inr e ↦
                  rw (e, removed_prefix-failed t.remove (length batch) q (a turn).remove_lem e) h
              | inl e ↦ rw e (
                  after_post-Holds t batch rest total posts next (t.post batch) w
                    (a turn).append_lem
                    (λ q' done h'. sync_loop-Holds n (turn + 1) env _ _ q' done w a h')
                    (rw (removed_prefix-written t.remove (length batch) q e)
                      (omega (arith, take-drop f (batch_limit remaining) q, h))))
            ])
          ])
        ])
      ]

-- Where the near-duplicates could be removed, no append fails and no removal stops midway, when it has
-- truncated the file and not yet written it, a synchronisation loses no heartbeat and makes none up,
-- however it ends otherwise: by any weight of heartbeats, the queue in the end and the batches that were
-- posted without an error together weigh what the queue without its near-duplicates and the heartbeats
-- that came back weigh.
pub sync_offline_queue-Conserved :
    (f : Heartbeat → ℕ) (count_ok : Bool) (limit : ℕ) (env : ℕ → Turn) (q0 : List Heartbeat)
    → ((n : ℕ) → IsWhole (env n))
    → let s = sync_offline_queue written count_ok limit env q0 in
      sum_by f s.queue + posted f s.posts ≡ sum_by f (delete_duplicates q0) + returned f s.posts
unfolding sync_offline_queue delete_queue_duplicates rewritten
sync_offline_queue-Conserved f false limit env q0 a = refl
sync_offline_queue-Conserved f true limit env q0 a =
    let q = delete_duplicates q0 in
    let n = bounded limit (length q) in sync_loop-Holds f n 0 env n 0 q [] (sum_by f q) a refl
