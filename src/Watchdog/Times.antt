-- ===== src/Watchdog/Times.antt =====
-- Timestamps, schedules and jobs of tools/watchdog.py. A time is a number of microseconds from the
-- first year that `datetime` knows, so it is a natural number.
use asbury_solutions_system.Common.{
  ℕ, ◌*◌, ◌^◌, Bool, true, false, not, ◌&&◌, ◌||◌, Option, none, some, List, [], ◌∷◌, ◌++◌, String,
  if◌then◌else◌, ltb, ◌==◌, take,
}
use asbury_solutions_system.Common.Text.{Text, codes, strip, eq_text, contains, is_space, elem}
use asbury_solutions_system.Common.Except.{Except, ok, err, overflow_error, ◌>>=◌}
use asbury_solutions_system.Common.Json.{
  ℤ, pos, Json, null, bool, int, float, inf, nan, str, obj, Dict, empty, lookup, truthy, or_else,
}

-- What the tool takes from Python's `datetime`, `float` and `str`: each parser answers with a time,
-- or with none where it raises. A time that is read without a zone is read as UTC. Every time that is
-- used is taken to UTC at once, which raises OverflowError where UTC has no such time.
pub record Python : Type 0 where
  -- `float(n)` does not raise OverflowError.
  pub fits_float : ℤ → Bool
  -- `datetime.fromtimestamp` of n / (2 ^ e * d) seconds.
  pub from_timestamp : (n : ℤ) (e d : ℕ) → Option ℕ
  -- `fromisoformat`, then `astimezone(timezone.utc)`.
  pub from_iso : Text → Option (Except ℕ)
  pub strptime : (format text : Text) → Option ℕ
  -- `str(value)` of a value that is no text.
  pub show : Json → Text

-- `value == word`.
abbrev pub is_word : String → Json → Bool
is_word w (str s) = eq_text s (codes w)
is_word w v = false

module _ (py : Python) where
  unfoldable pub str_of : Json → Text
  str_of (str s) = s
  str_of v = py.show v

  -- A number of seconds, or of milliseconds if it is above 1e12.
  unfoldable pub of_number : ℤ → ℕ → Option ℕ
  of_number (pos n) e = py.from_timestamp (pos n) e (if ltb (10 ^ 12 * 2 ^ e) n then 1000 else 1)
  of_number n e = py.from_timestamp n e 1

  -- `s.replace("Z", "+00:00")`.
  unfoldable pub with_offset : Text → Text
  with_offset [] = []
  with_offset (c ∷ s) = (if c == b'Z' then codes "+00:00" else c ∷ []) ++ with_offset s

  abbrev pub formats : List Text
  formats = codes "%Y-%m-%d %H:%M:%S" ∷ codes "%Y-%m-%dT%H:%M:%S" ∷ codes "%Y-%m-%d" ∷ []

  unfoldable pub first_format : List Text → Text → Option ℕ
  first_format [] s = none
  first_format (f ∷ fs) s = elim (py.strptime f s) [ some t ↦ some t | none ↦ first_format fs s ]

  unfoldable pub of_text : Text → Except (Option ℕ)
  of_text s =
      let shortened =
        if contains (codes "T") s || contains (codes " ") s then take 19 s else take 10 s in
      elim (py.from_iso (with_offset s)) [
        | some r ↦ r >>= λ t. ok (some t)
        | none ↦ ok (first_format formats shortened)
      ]

  unfoldable pub parse_ts : Json → Except (Option ℕ)
  parse_ts null = ok none
  parse_ts (bool b) = ok (of_number (pos (if b then 1 else 0)) 0)
  parse_ts (int n) = if py.fits_float n then ok (of_number n 0) else err overflow_error
  parse_ts (float n e) = ok (of_number n e)
  parse_ts inf = ok none
  parse_ts nan = ok none
  parse_ts (str []) = ok none
  parse_ts (str s) = if eq_text s (codes "never") then ok none else of_text (strip s)
  parse_ts v = of_text (strip (py.show v))

  -- A time, or else what comes later.
  abbrev pub or_later : Except (Option ℕ) → Except (Option ℕ) → Except (Option ℕ)
  or_later (ok none) later = later
  or_later r later = r

  -- The first of the keys that holds a time.
  unfoldable pub first_time : List String → Dict → Except (Option ℕ)
  first_time [] d = ok none
  first_time (k ∷ ks) d = or_later (parse_ts (lookup k d)) (first_time ks d)

  unfoldable pub time_in : Json → Except (Option ℕ)
  time_in (obj d) = first_time ("last_run_at" ∷ "last_run" ∷ "completed_at" ∷ []) d
  time_in v = ok none

  unfoldable pub nested_time : List String → Dict → Except (Option ℕ)
  nested_time [] d = ok none
  nested_time (k ∷ ks) d = or_later (time_in (lookup k d)) (nested_time ks d)

  unfoldable pub job_last_run : Dict → Except (Option ℕ)
  job_last_run job =
      or_later
        (first_time
          ("last_run_at" ∷ "last_run" ∷ "lastRun" ∷ "last_status_at" ∷ "completed_at"
            ∷ "last_success_at" ∷ [])
          job)
        (nested_time ("state" ∷ "meta" ∷ "result" ∷ []) job)

  unfoldable pub next_run_of : Dict → Except (Option ℕ)
  next_run_of job = parse_ts (or_else (lookup "next_run_at" job) (lookup "next_run" job))

  unfoldable pub display_of : Dict → Text
  display_of job =
      let shown = lookup "schedule_display" job in if truthy shown then str_of shown else codes "?"

  abbrev is_null : Json → Bool
  is_null null = true
  is_null _ = false

  -- `job.get("schedule") or {}`, where that is a dictionary.
  unfoldable pub label_in : (job sched : Dict) → Text
  label_in job sched =
      let display = lookup "display" sched in
      let expr = lookup "expr" sched in
      let minutes = lookup "minutes" sched in
      if truthy display
      then str_of display
      else if is_word "cron" (lookup "kind" sched) && truthy expr
      then str_of expr
      else if is_word "interval" (lookup "kind" sched) && not (is_null minutes)
      then codes "every " ++ str_of minutes ++ codes "m"
      else display_of job

  abbrev pub schedule_label_of : Dict → Json → Text
  schedule_label_of job (obj sched) = label_in job sched
  schedule_label_of job v = display_of job

  unfoldable pub schedule_label : Dict → Text
  schedule_label job = schedule_label_of job (or_else (lookup "schedule" job) (obj empty))

  -- `text.split()`: the words between whitespace; `word` is the one being read, reversed.
  abbrev flush : Text → List Text → List Text
  flush [] ws = ws
  flush (c ∷ w) ws = mathlib.Core.List.reverse (c ∷ w) ∷ ws

  unfoldable pub split_from : (word : Text) → Text → List Text
  split_from w [] = flush w []
  split_from w (c ∷ s) =
      let rest = split_from [] s in
      let more = split_from (c ∷ w) s in if is_space c then flush w rest else more

  abbrev pub fifth : List Text → Option Text
  fifth (a ∷ b ∷ c ∷ d ∷ e ∷ rest) = some e
  fifth _ = none

  abbrev pub expr_of : Json → Text
  expr_of (obj sched) =
      str_of (or_else (lookup "expr" sched) (or_else (lookup "display" sched) (str [])))
  expr_of v = []

  abbrev or_text : Text → Text → Text
  or_text [] b = b
  or_text (c ∷ s) b = c ∷ s

  unfoldable pub is_weekday_only : Dict → Bool
  is_weekday_only job =
      let own = expr_of (or_else (lookup "schedule" job) (obj empty)) in
      let expr = or_text own (str_of (or_else (lookup "schedule_display" job) (str []))) in
      let in_cron : Bool = elim (fifth (split_from [] expr)) [
        | none ↦ false
        | some day ↦ elem day (codes "1-5" ∷ codes "MON-FRI" ∷ codes "mon-fri" ∷ [])
      ] in
      in_cron || contains (codes "1-5") expr && contains (codes "* *") expr
