-- ===== src/Cascade/Worker/Optimizer/Clocks.antt =====
-- The two clocks of the heavy beat, and the staleness that is read off the second one.
use asbury_solutions_system.Common.{
  ℕ, suc, ◌+◌, ◌-◌, ◌≤◌, ◌<◌, Bool, true, false, ◌||◌, List, [], ◌∷◌, Option, none, some, String,
  ◌≡◌, ◌≢◌, refl, sym, ◌∙◌, ap, arith, ◌⊎◌, inl, inr, Bool-cases, leb, ltb, ◌==◌, if◌then◌else◌,
  All, Any, or-eq-true,
}
use asbury_solutions_system.Cascade.Worker.Optimizer.{
  KindState, IndexReply, succeeded, conflict, broke, Beat, begun, should_prune, attempted,
  after_rebuild, counted, after_failure, after_beat, run_optimize_once, run_beat, KindStates, stale,
  worst_stale, prune_staleness, optimize_failure_alert_threshold, backoff_at,
  rebuild_conflict_backoffs,
}

-- The times of the heavy beats of a run.
unfoldable pub heavy_beats : (interval : ℕ) → List Beat → KindState → List ℕ
heavy_beats interval [] s = []
heavy_beats interval (b ∷ bs) s =
    let rest = heavy_beats interval bs (run_beat interval b s).0 in
    if should_prune interval b.now s then b.now ∷ rest else rest

-- Each time comes `interval` or more after the one before it, where there is one that is not 0.
abbrev pub Spaced : (interval last : ℕ) → List ℕ → Type 0
Spaced interval last [] = Unit
Spaced interval last (t ∷ ts) = ((last ≡ 0) ⊎ (last + interval ≤ t)) × Spaced interval t ts

attempt-after_rebuild :
    (later : ℕ) (o : IndexReply) (s : KindState)
    → (after_rebuild later o s).last_prune_attempt_at ≡ s.last_prune_attempt_at
unfolding after_rebuild
attempt-after_rebuild later succeeded s = refl
attempt-after_rebuild later broke s = refl
attempt-after_rebuild later conflict s =
    scheduled (backoff_at rebuild_conflict_backoffs s.rebuild_attempt)
  where
    scheduled :
        (d : Option ℕ)
        → (elim d as (λ x. KindState) [
          | none ↦ record s { rebuild_attempt = 0; rebuild_retry_at = 0 }
          | some delay ↦ record s {
            rebuild_attempt = suc s.rebuild_attempt;
            rebuild_retry_at = later + delay;
          }
        ]).last_prune_attempt_at
          ≡ s.last_prune_attempt_at
    scheduled none = refl
    scheduled (some delay) = refl

attempt-after_beat :
    (prune : Bool) (b : Beat) (o : IndexReply) (s : KindState)
    → (after_beat prune b o s).0.last_prune_attempt_at ≡ s.last_prune_attempt_at
unfolding after_beat after_failure
attempt-after_beat true b succeeded s = refl
attempt-after_beat false b succeeded s = refl
attempt-after_beat prune b conflict s = refl
attempt-after_beat prune b broke s =
    elim (Bool-cases (leb optimize_failure_alert_threshold (counted s).failures_since_fallback)) [
      | inl e ↦ rw e (attempt-after_rebuild b.later b.rebuild (counted s))
      | inr e ↦ rw e refl
    ]

attempt-attempted :
    (prune : Bool) (now : ℕ) (s : KindState)
    → (attempted prune now s).last_prune_attempt_at
      ≡ (if prune then now else s.last_prune_attempt_at)
attempt-attempted true now s = refl
attempt-attempted false now s = refl

-- A beat moves the clock of the attempts just when it is a heavy one, whatever the index answers.
attempt-run_beat :
    (interval : ℕ) (b : Beat) (s : KindState)
    → (run_beat interval b s).0.last_prune_attempt_at
      ≡ (if should_prune interval b.now s then b.now else s.last_prune_attempt_at)
unfolding run_beat run_optimize_once should_prune
attempt-run_beat interval b s =
    attempt-after_beat (should_prune interval b.now (begun b.now s)) b b.reply _
    ∙ attempt-attempted (should_prune interval b.now (begun b.now s)) b.now (begun b.now s)

spaced_test :
    (interval last now : ℕ)
    → 0 < interval
    → ((last == 0) || leb interval (now - last)) ≡ true
    → (last ≡ 0) ⊎ (last + interval ≤ now)
spaced_test interval last now some_time h =
    elim (or-eq-true (last == 0) (leb interval (now - last)) h) [
      | inl e ↦ inl (ground arith)
      | inr e ↦ inr (ground arith)
    ]

-- Over any run of beats, and whatever the index answers to them, a heavy beat comes `interval` or more
-- after the heavy beat before it, where that was not at time 0; the interval is above 0.
pub heavy_beats-Spaced :
    (interval : ℕ) (bs : List Beat) (s : KindState)
    → 0 < interval
    → Spaced interval s.last_prune_attempt_at (heavy_beats interval bs s)
unfolding heavy_beats
heavy_beats-Spaced interval [] s some_time = tt
heavy_beats-Spaced interval (b ∷ bs) s some_time =
    let moved = attempt-run_beat interval b s in
    let rest = heavy_beats-Spaced interval bs (run_beat interval b s).0 some_time in
    elim (Bool-cases (should_prune interval b.now s)) [
      | inl e ↦ rw e (
        (unfold should_prune in spaced_test interval s.last_prune_attempt_at b.now some_time e),
        rw (moved, e) at rest,
      )
      | inr e ↦ rw e (rw (moved, e) at rest)
    ]

-- The worst staleness of the kinds, and the kind that has it.
abbrev IsWorst : (started_at now : ℕ) → KindStates → ℕ × Option String → Type 0
IsWorst started_at now states (seconds, none) = ⊥
IsWorst started_at now states (seconds, some kind) =
    All (λ (p : String × KindState). stale started_at now p.1 ≤ seconds) states
    × Any (λ (p : String × KindState). (p.0 ≡ kind) × (stale started_at now p.1 ≡ seconds)) states

Found : (started_at now : ℕ) → KindStates → ℕ × String → Type 0
Found started_at now states (seconds, kind) =
    Any (λ (p : String × KindState). (p.0 ≡ kind) × (stale started_at now p.1 ≡ seconds)) states

-- What the loop over the kinds ends with, from the worst kind so far.
record Ends (started_at now : ℕ) (states : KindStates) (so_far : ℕ × String) : Type 0 where
  last : ℕ × String
  result : worst_stale started_at now states (some so_far) ≡ some last
  not_below : so_far.0 ≤ last.0
  over_all : All (λ (p : String × KindState). stale started_at now p.1 ≤ last.0) states
  from : (last ≡ so_far) ⊎ Found started_at now states last

worst_from :
    (started_at now : ℕ) (states : KindStates) (so_far : ℕ × String)
    → Ends started_at now states so_far
unfolding worst_stale Found
worst_from started_at now [] so_far = record {
  last = so_far;
  result = refl;
  not_below = omega arith;
  over_all = tt;
  from = inl refl;
}
worst_from started_at now ((kind, s) ∷ rest) (w, k) =
    elim (Bool-cases (ltb w (stale started_at now s))) [
      | inl e ↦
          let r = worst_from started_at now rest (stale started_at now s, kind) in
          record {
            last = r.last;
            result = rw e r.result;
            not_below = ground (arith, r.not_below);
            over_all = (r.not_below, r.over_all);
            from = elim r.from [
              | inl same ↦ inr (
                  inl (
                    sym (ap (λ (p : ℕ × String). p.1) same),
                    sym (ap (λ (p : ℕ × String). p.0) same),
                  ))
              | inr there ↦ inr (inr there)
            ];
          }
      | inr e ↦
          let r = worst_from started_at now rest (w, k) in
          record {
            last = r.last;
            result = rw e r.result;
            not_below = r.not_below;
            over_all = (ground (arith, r.not_below), r.over_all);
            from = elim r.from [ inl same ↦ inl same | inr there ↦ inr (inr there) ];
          }
    ]

-- Once the worker has started and some kind has a state, the staleness signal is the largest one of
-- the kinds, with a kind that has it, so that no kind's pruning hides another's stall.
prune_staleness-IsWorst :
    (started_at now : ℕ) (first : String × KindState) (rest : KindStates)
    → started_at ≢ 0
    → IsWorst started_at now (first ∷ rest) (prune_staleness started_at now (first ∷ rest))
unfolding prune_staleness worst_stale
prune_staleness-IsWorst started_at now (kind, s) rest started =
    let fresh : (started_at == 0) ≡ false = ground arith in
    let r = worst_from started_at now rest (stale started_at now s, kind) in
    rw (fresh, r.result)
      (
        (r.not_below, r.over_all),
        elim r.from [
          | inl same ↦
              inl (sym (ap (λ (p : ℕ × String). p.1) same), sym (ap (λ (p : ℕ × String). p.0) same))
          | inr there ↦ inr (unfold Found in there)
        ],
      )
