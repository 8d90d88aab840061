-- ===== src/Ome/Recovery/Resumed.antt =====
-- What a recovery makes of a table, in one pass.
use asbury_solutions_system.Common.{
  ℕ, suc, ◌+◌, ◌*◌, ltb, Bool, true, false, ◌&&◌, some, List, [], ◌∷◌, map, ◌≡◌, refl, ap, ◌∙◌,
  arith, if◌then◌else◌, keep, any, All, All-imp, Bool-cases, inl, inr,
}
use asbury_solutions_system.Common.Text.{Text, codes, eq_text}
use asbury_solutions_system.Common.Text.Laws.{eq_text_iff}
use asbury_solutions_system.Common.Json.{pos}
use asbury_solutions_system.Common.Except.{ok}
use asbury_solutions_system.Ome.Recovery.{
  RunStatus, running, success, failed, dead_letter, crashed, RunRecord, is_running, find_running,
  with_status, update_status, crash_error, mark_crashed, is_stale, Job, job_of, resume_each,
  scan_and_resume,
}

-- The row of a run that is known to have crashed.
abbrev pub as_crashed : (now : ℕ) → RunRecord → RunRecord
as_crashed now r = record {
  run_id = r.run_id;
  strategy_name = r.strategy_name;
  status = crashed;
  attempt = r.attempt;
  started_at = r.started_at;
  finished_at = some now;
  error = some (codes "crash recovery: marked CRASHED after start scan");
  event_topic = r.event_topic;
  event_payload = r.event_payload;
  max_retries_snapshot = r.max_retries_snapshot;
  event_id = r.event_id;
}

-- The job that runs a row's event again, with the row's retries.
abbrev pub again : RunRecord → Job
again r = record {
  strategy_name = r.strategy_name;
  event_topic = r.event_topic;
  event_payload = r.event_payload;
  max_retries = r.max_retries_snapshot;
}

abbrev still_running : RunStatus → Bool
still_running running = true
still_running success = false
still_running failed = false
still_running dead_letter = false
still_running crashed = false

-- A run that is not over and whose start lies further back than the timeout, in seconds.
abbrev pub is_left : (now timeout : ℕ) → RunRecord → Bool
is_left now timeout r = still_running r.status && ltb (r.started_at + timeout * 1_000_000) now

still_running_lem : (s : RunStatus) → is_running s ≡ still_running s
still_running_lem running = refl
still_running_lem success = refl
still_running_lem failed = refl
still_running_lem dead_letter = refl
still_running_lem crashed = refl

is_stale_lem :
    (now timeout : ℕ) (r : RunRecord)
    → is_stale now timeout r ≡ ltb (r.started_at + timeout * 1_000_000) now
unfolding is_stale
is_stale_lem now timeout r = ground arith

-- The primary key.
abbrev pub Distinct : List RunRecord → Type 0
Distinct [] = Unit
Distinct (r ∷ t) = All (λ x. eq_text r.run_id x.run_id ≡ false) t × Distinct t

as_crashed_lem :
    (now : ℕ) (r : RunRecord) → with_status crashed now (some crash_error) r ≡ as_crashed now r
as_crashed_lem now r = refl

job_of_lem : (t : List RunRecord) → map job_of t ≡ map again t
job_of_lem [] = refl
job_of_lem (r ∷ t) = ap (λ (js : List Job). again r ∷ js) (job_of_lem t)

-- Some stale row has this row's id.
abbrev hit : (now timeout : ℕ) → List RunRecord → RunRecord → Bool
hit now timeout rs r = any (λ x. is_stale now timeout x && eq_text r.run_id x.run_id) rs

abbrev marked : (now timeout : ℕ) → List RunRecord → RunRecord → RunRecord
marked now timeout rs r = if hit now timeout rs r then as_crashed now r else r

if_same {ℓ} : {A : Type ℓ} (b : Bool) (a : A) → (if b then a else a) ≡ a
if_same true a = refl
if_same false a = refl

marked-crash :
    (now timeout : ℕ) (x : RunRecord) (rs : List RunRecord) (r : RunRecord)
    → is_stale now timeout x ≡ true
    → marked now timeout rs (if eq_text r.run_id x.run_id then as_crashed now r else r)
      ≡ marked now timeout (x ∷ rs) r
marked-crash now timeout x rs r e = elim (Bool-cases (eq_text r.run_id x.run_id)) [
  | inl same ↦ rw (same, e) (if_same _ (as_crashed now r))
  | inr other ↦ rw (other, e) refl
]

All-both {κ μ ν} :
    (P : RunRecord → Type κ) (Q : RunRecord → Type μ) (R : RunRecord → Type ν) (t : List RunRecord)
    → All P t
    → All Q t
    → ((r : RunRecord) → P r → Q r → R r)
    → All R t
All-both P Q R [] h k f = tt
All-both P Q R (r ∷ t) h k f = (f r h.0 k.0, All-both P Q R t h.1 k.1 f)

map_same :
    (f g : RunRecord → RunRecord) (t : List RunRecord)
    → ((r : RunRecord) → f r ≡ g r)
    → map f t ≡ map g t
map_same f g [] h = refl
map_same f g (r ∷ t) h = rw (h r, map_same f g t h) refl

map-map_mark :
    (now timeout : ℕ) (x : RunRecord) (rs t : List RunRecord)
    → is_stale now timeout x ≡ true
    → map (marked now timeout rs) (mark_crashed x.run_id now t)
      ≡ map (marked now timeout (x ∷ rs)) t
unfolding mark_crashed update_status
map-map_mark now timeout x rs [] e = refl
map-map_mark now timeout x rs (r ∷ t) e =
    rw (marked-crash now timeout x rs r e, map-map_mark now timeout x rs t e) refl

unmarked : (t : List RunRecord) → t ≡ map (λ r. r) t
unmarked [] = refl
unmarked (r ∷ t) = ap (λ (u : List RunRecord). r ∷ u) (unmarked t)

resume_each-table :
    (now timeout : ℕ) (accepts : RunRecord → Bool) (rs t : List RunRecord)
    → (resume_each now timeout accepts rs t).1 ≡ map (marked now timeout rs) t
unfolding resume_each
resume_each-table now timeout accepts [] t = unmarked t
resume_each-table now timeout accepts (x ∷ rs) t = elim (Bool-cases (is_stale now timeout x)) [
  | inl e ↦ rw e (
      resume_each-table now timeout accepts rs (mark_crashed x.run_id now t)
      ∙ map-map_mark now timeout x rs t e)
  | inr e ↦ rw e (
      resume_each-table now timeout accepts rs t
      ∙ map_same (marked now timeout rs) (marked now timeout (x ∷ rs)) t (λ r. rw e refl))
]

resume_each-jobs :
    (now timeout : ℕ) (accepts : RunRecord → Bool) (rs t : List RunRecord)
    → (resume_each now timeout accepts rs t).0
      ≡ map job_of (keep (λ r. is_stale now timeout r && accepts r) rs)
unfolding resume_each
resume_each-jobs now timeout accepts [] t = refl
resume_each-jobs now timeout accepts (x ∷ rs) t = ground (
  arith,
  resume_each-jobs now timeout accepts rs t,
  resume_each-jobs now timeout accepts rs (mark_crashed x.run_id now t),
)

found_left :
    (now timeout : ℕ) (r : RunRecord)
    → (is_running r.status && is_stale now timeout r) ≡ is_left now timeout r
found_left now timeout r = rw (still_running_lem r.status, is_stale_lem now timeout r) refl

keep-keep :
    (now timeout : ℕ) (accepts : RunRecord → Bool) (t : List RunRecord)
    → keep (λ r. is_stale now timeout r && accepts r) (find_running t)
      ≡ keep (λ r. is_left now timeout r && accepts r) t
unfolding find_running
keep-keep now timeout accepts [] = refl
keep-keep now timeout accepts (r ∷ t) =
    ground (arith, found_left now timeout r, keep-keep now timeout accepts t)

-- No row of a table with other ids is meant.
not_hit :
    (now timeout : ℕ) (x : RunRecord) (t : List RunRecord)
    → All (λ r. eq_text x.run_id r.run_id ≡ false) t
    → hit now timeout (find_running t) x ≡ false
unfolding find_running
not_hit now timeout x [] h = refl
not_hit now timeout x (r ∷ t) h = ground (arith, h.0, not_hit now timeout x t h.1)

eq_text-flip : (s t : Text) → eq_text s t ≡ false → eq_text t s ≡ false
eq_text-flip s t h = ground (arith, eq_text_iff s t, eq_text_iff t s, h)

hit-left :
    (now timeout : ℕ) (t : List RunRecord)
    → Distinct t
    → All (λ r. hit now timeout (find_running t) r ≡ is_left now timeout r) t
unfolding find_running
hit-left now timeout [] h = tt
hit-left now timeout (x ∷ t) h = (
  ground (
    arith,
    found_left now timeout x,
    (eq_text_iff x.run_id x.run_id).1 refl,
    not_hit now timeout x t h.0,
  ),
  All-both (λ r. eq_text x.run_id r.run_id ≡ false) _ _ t h.0 (hit-left now timeout t h.1)
      λ r apart e. let other = eq_text-flip x.run_id r.run_id apart in ground (arith, other, e),
)

map-All :
    (f g : RunRecord → RunRecord) (t : List RunRecord) → All (λ r. f r ≡ g r) t → map f t ≡ map g t
map-All f g [] h = refl
map-All f g (r ∷ t) h = rw (h.0, map-All f g t h.1) refl

-- A recovery marks CRASHED exactly the rows that are RUNNING and older than the timeout, leaves the
-- others as they are, and enqueues one job for each marked row whose job is accepted, with the
-- row's event and its retries. The timeout is above 0, and run ids are distinct.
pub scan_and_resume-resumes :
    (now timeout : ℕ) (accepts : RunRecord → Bool) (t u : List RunRecord) (jobs : List Job)
    → Distinct t
    → scan_and_resume now (pos (suc timeout)) accepts t ≡ ok (jobs, u)
    → (u ≡ map (λ r. if is_left now (suc timeout) r then as_crashed now r else r) t)
      × (jobs ≡ map again (keep (λ r. is_left now (suc timeout) r && accepts r) t))
unfolding scan_and_resume
scan_and_resume-resumes now timeout accepts t u jobs distinct done =
    let limit = suc timeout in
    let pair : (jobs, u) ≡ resume_each now limit accepts (find_running t) t = cc in
    (
      ap (λ (p : List Job × List RunRecord). p.1) pair
          ∙ resume_each-table now limit accepts (find_running t) t
          ∙ map-All (marked now limit (find_running t)) _ t
              (All-imp _ _ t (λ r e. rw e refl) (hit-left now limit t distinct)),
      ap (λ (p : List Job × List RunRecord). p.0) pair
          ∙ resume_each-jobs now limit accepts (find_running t) t
          ∙ ap (map job_of) (keep-keep now limit accepts t)
          ∙ job_of_lem _,
    )
