-- ===== src/Cascade/Worker/Optimizer/Streak.antt =====
-- The two counters of failures, over any run of beats.
use asbury_solutions_system.Common.{
  ℕ, suc, ◌+◌, ◌%◌, ◌≤◌, Bool, true, false, List, [], ◌∷◌, ◌≡◌, refl, sym, ◌∙◌, ap, arith, leb,
  Bool-cases, inl, inr, In, Any, String, ◌==◌, subst,
}
use asbury_solutions_system.Cascade.Worker.Optimizer.{
  KindState, fresh_state, IndexReply, succeeded, conflict, broke, Beat, should_prune, attempted,
  after_rebuild, counted, after_failure, after_beat, run_optimize_once, run_beat,
  optimize_failure_alert_threshold, KindStates, failure_streak, health, reasons, Reason,
  optimize_stuck, CascadeWorkerHealth, backoff_at, rebuild_conflict_backoffs, pruned, begun, when,
  drain_failing, drain_failure_alert_threshold, prune_stale_alert, cleanup_stalled,
}
use asbury_solutions_system.Common.{Option, none, some}

-- A run of beats: the state after it, and for each beat whether it rebuilt the index.
unfoldable pub run_beats : (interval : ℕ) → List Beat → KindState → KindState × List Bool
run_beats interval [] s = (s, [])
run_beats interval (b ∷ bs) s =
    let (next, rebuilt) = run_beat interval b s in
    let (last, flags) = run_beats interval bs next in (last, rebuilt ∷ flags)

-- The failures since the last success; a lost commit race counts for nothing.
abbrev pub streak_after : ℕ → IndexReply → ℕ
streak_after n succeeded = 0
streak_after n conflict = n
streak_after n broke = suc n

unfoldable pub streak : ℕ → List Beat → ℕ
streak n [] = n
streak n (b ∷ bs) = streak (streak_after n b.reply) bs

-- Each fifth failure of a streak.
abbrev pub is_fifth : ℕ → IndexReply → Bool
is_fifth n broke = suc n % 5 == 0
is_fifth n _ = false

unfoldable pub fifths : ℕ → List Beat → List Bool
fifths n [] = []
fifths n (b ∷ bs) = is_fifth n b.reply ∷ fifths (streak_after n b.reply) bs

-- The counters at a streak of `n`.
pub record Counts (n : ℕ) (s : KindState) : Type 0 where
  pub failures : s.optimize_failures ≡ n
  pub since : s.failures_since_fallback ≡ n % 5

attempted-Counts :
    (n now : ℕ) (prune : Bool) (s : KindState) → Counts n s → Counts n (attempted prune now s)
attempted-Counts n now true s c = record { failures = c.failures; since = c.since }
attempted-Counts n now false s c = c

failures-after_rebuild :
    (later : ℕ) (o : IndexReply) (s : KindState)
    → (after_rebuild later o s).optimize_failures ≡ s.optimize_failures
unfolding after_rebuild
failures-after_rebuild later succeeded s = refl
failures-after_rebuild later broke s = refl
failures-after_rebuild later conflict s =
    scheduled (backoff_at rebuild_conflict_backoffs s.rebuild_attempt)
  where
    scheduled :
        (d : Option ℕ)
        → (elim d as (λ x. KindState) [
          | none ↦ record s { rebuild_attempt = 0; rebuild_retry_at = 0 }
          | some delay ↦ record s {
            rebuild_attempt = suc s.rebuild_attempt;
            rebuild_retry_at = later + delay;
          }
        ]).optimize_failures
          ≡ s.optimize_failures
    scheduled none = refl
    scheduled (some delay) = refl

fifth_full : (n m : ℕ) → m ≡ suc (n % 5) → leb 5 m ≡ true → suc n % 5 ≡ 0
fifth_full n m e h = ground arith

fifth_room : (n m : ℕ) → m ≡ suc (n % 5) → leb 5 m ≡ false → m ≡ suc n % 5
fifth_room n m e h = ground arith

zero_test : (m : ℕ) → m ≡ 0 → (m == 0) ≡ true
zero_test m e = ground arith

suc_test : (m k : ℕ) → m ≡ suc k → (m == 0) ≡ false
suc_test m k e = ground arith

after_failure-Counts :
    (n : ℕ) (b : Beat) (s : KindState)
    → s.optimize_failures ≡ suc n
    → s.failures_since_fallback ≡ suc (n % 5)
    → Counts (suc n) (after_failure b s).0 × ((after_failure b s).1 ≡ (suc n % 5 == 0))
unfolding after_failure
after_failure-Counts n b s f g =
    elim (Bool-cases (leb optimize_failure_alert_threshold s.failures_since_fallback)) [
      | inl e ↦ rw e (
        record {
          failures = failures-after_rebuild b.later b.rebuild s ∙ f;
          since = sym (fifth_full n s.failures_since_fallback g e);
        },
        sym (zero_test (suc n % 5) (fifth_full n s.failures_since_fallback g e)),
      )
      | inr e ↦ rw e (
        record { failures = f; since = fifth_room n s.failures_since_fallback g e },
        sym (suc_test (suc n % 5) (n % 5) (sym (fifth_room n s.failures_since_fallback g e) ∙ g)),
      )
    ]

pruned-Counts :
    (prune : Bool) (now : ℕ) (s : KindState)
    → Counts 0 (record (pruned prune now s) { optimize_failures = 0; failures_since_fallback = 0 })
pruned-Counts prune now s = record { failures = refl; since = refl }

after_beat-Counts :
    (n : ℕ) (prune : Bool) (b : Beat) (o : IndexReply) (s : KindState)
    → Counts n s
    → Counts (streak_after n o) (after_beat prune b o s).0
      × ((after_beat prune b o s).1 ≡ is_fifth n o)
unfolding after_beat
after_beat-Counts n prune b succeeded s c = (pruned-Counts prune b.now s, refl)
after_beat-Counts n prune b conflict s c = (c, refl)
after_beat-Counts n prune b broke s c =
    after_failure-Counts n b (counted s) (ap suc c.failures) (ap suc c.since)

run_beat-Counts :
    (interval n : ℕ) (b : Beat) (s : KindState)
    → Counts n s
    → Counts (streak_after n b.reply) (run_beat interval b s).0
      × ((run_beat interval b s).1 ≡ is_fifth n b.reply)
unfolding run_beat run_optimize_once
run_beat-Counts interval n b s c = after_beat-Counts n _ b b.reply _ (
    attempted-Counts n b.now (should_prune interval b.now (begun b.now s)) (begun b.now s)
      (record { failures = c.failures; since = c.since }))

run_beats-Counts :
    (interval n : ℕ) (bs : List Beat) (s : KindState)
    → Counts n s
    → Counts (streak n bs) (run_beats interval bs s).0 × ((run_beats interval bs s).1 ≡ fifths n bs)
unfolding run_beats streak fifths
run_beats-Counts interval n [] s c = (c, refl)
run_beats-Counts interval n (b ∷ bs) s c =
    let (next, flag) = run_beat-Counts interval n b s c in
    let (last, flags) =
      run_beats-Counts interval (streak_after n b.reply) bs (run_beat interval b s).0 next in
    (last, rw (flag, flags) refl)

-- After any run of beats on a new kind, the health counter is the number of failures since the last
-- success, a lost commit race counting for nothing; a fallback resets only the other counter, which
-- is that number modulo 5; and the beats that rebuilt the index are each fifth failure of a streak.
pub run_beats-streak :
    (interval : ℕ) (bs : List Beat)
    → ((run_beats interval bs fresh_state).0.optimize_failures ≡ streak 0 bs)
      × ((run_beats interval bs fresh_state).0.failures_since_fallback ≡ streak 0 bs % 5)
      × ((run_beats interval bs fresh_state).1 ≡ fifths 0 bs)
run_beats-streak interval bs =
    let (c, flags) =
      run_beats-Counts interval 0 bs fresh_state (record { failures = refl; since = refl }) in
    (c.failures, c.since, flags)

failure_streak-bounds :
    (states : KindStates) (kind : String) (s : KindState)
    → In (kind, s) states
    → s.optimize_failures ≤ failure_streak states
unfolding failure_streak
failure_streak-bounds [] kind s m = elim m [ ]
failure_streak-bounds ((k, x) ∷ rest) kind s (inl e) =
    let same : s.optimize_failures ≡ x.optimize_failures =
      ap (λ (p : String × KindState). p.1.optimize_failures) e in
    ground arith
failure_streak-bounds ((k, x) ∷ rest) kind s (inr m) =
    let below = failure_streak-bounds rest kind s m in ground arith

pub IsStuck : Reason → Type 0
IsStuck (optimize_stuck n) = 5 ≤ n
IsStuck r = ⊥

when_some : (c : Bool) (r : Reason) (rs : List Reason) → Any IsStuck rs → Any IsStuck (when c r rs)
when_some true r rs h = inr h
when_some false r rs h = h

reasons-IsStuck :
    (h : CascadeWorkerHealth) → 5 ≤ h.optimize_failure_streak → Any IsStuck (reasons h)
unfolding reasons IsStuck
reasons-IsStuck h many =
    let e : leb optimize_failure_alert_threshold h.optimize_failure_streak ≡ true = ground arith in
    when_some (leb drain_failure_alert_threshold h.drain_consecutive_failures)
      (drain_failing h.drain_consecutive_failures)
      (when (leb optimize_failure_alert_threshold h.optimize_failure_streak)
        (optimize_stuck h.optimize_failure_streak)
        (when (leb prune_stale_alert h.prune_stale_seconds)
          (cleanup_stalled h.prune_stale_kind h.prune_stale_seconds) []))
      (rw e (inl many))

streak_shown :
    (drain_failures unrecoverable started_at now n : ℕ) (states : KindStates)
    → n ≤ failure_streak states
    → 5 ≤ n
    → 5 ≤ (health drain_failures unrecoverable started_at now states).optimize_failure_streak
unfolding health
streak_shown drain_failures unrecoverable started_at now n states h k = omega arith

-- Once some kind has failed five times since its last success, lost commit races aside, the health
-- reasons name a stuck optimize, whatever rebuilds its fallbacks ran.
pub degraded_after_five :
    (drain_failures unrecoverable started_at now interval : ℕ) (states : KindStates) (kind : String)
    (bs : List Beat)
    → In (kind, (run_beats interval bs fresh_state).0) states
    → 5 ≤ streak 0 bs
    → Any IsStuck (reasons (health drain_failures unrecoverable started_at now states))
degraded_after_five drain_failures unrecoverable started_at now interval states kind bs m many =
    reasons-IsStuck (health drain_failures unrecoverable started_at now states) (
      streak_shown drain_failures unrecoverable started_at now (streak 0 bs) states
        (subst (λ n. n ≤ failure_streak states) (run_beats-streak interval bs).0
          (failure_streak-bounds states kind (run_beats interval bs fresh_state).0 m))
        many)
