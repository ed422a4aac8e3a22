-- ===== src/Templates/Due.antt =====
-- zero/template_jobs.py, `run_due`: a job that ran is not due again at once, and the metrics add up.
use zero_agent.Base.{
  ℕ, ◌+◌, ◌≤◌, ◌<◌, ◌≡◌, refl, Bool, false, ◌&&◌, List, [], ◌∷◌, Option, none, some, String,
  string_eq, max, leb, if◌then◌else◌, fetch_one, update_where, count_where, Result, ok, err, arith,
  Bool-cases, inl, inr, Error, ◌⊎◌, >>=-eq-ok,
}
use zero_agent.Templates.Schedule.{
  Zone, Schedule, interval, daily, weekly, monthly, once, unknown, next_run, is_once, is_clock,
}
use zero_agent.Templates.Calendar.{
  next_daily, next_weekly, next_monthly, next_daily-later, next_weekly-later, next_monthly-later,
}
use zero_agent.Templates.Jobs.{CronJob, has_id}
use zero_agent.Templates.Cron.{
  Cron, Draw, is_enabled, is_past, is_due, is_run_of, retry_after_failure,
}
use zero_agent.Templates.Runs.{is_done, open_run, moved, retried, succeed, fail, finish, run_job}

Result-cases : {A : Type 0} (r : Result A) → ((a : A) × (r ≡ ok a)) ⊎ ((e : Error) × (r ≡ err e))
Result-cases (ok a) = inl (a, refl)
Result-cases (err e) = inr (e, refl)

later_in : (t n u : ℕ) → Result.ok (t + n) ≡ ok u → 60 ≤ n → t < u
later_in t n u h big = ground arith

ahead : (t v u : ℕ) → Result.ok v ≡ ok u → t < v → t < u
ahead t v u h late = ground arith

unwrapped : {e : Error} {u : ℕ} → Result.err e ≡ ok u → ⊥
unwrapped h = cc

module _ {A : Type 0} (p q : A → Bool) (f : A → A) (off : (x : A) → p (f x) ≡ false) where
  count_where-update_off : (xs : List A) → count_where (λ x. q x && p x) (update_where q f xs) ≡ 0
  unfolding count_where update_where
  count_where-update_off [] = refl
  count_where-update_off (x ∷ xs) = elim (Bool-cases (q x)) [
    | inl e ↦ rw e (ground (arith, off x, count_where-update_off xs))
    | inr e ↦ rw (e, e) (omega (arith, count_where-update_off xs))
  ]

moved-is_due :
    (now at : ℕ) (next : Option ℕ) (j : CronJob)
    → is_past now next ≡ false
    → is_due now (moved at next j) ≡ false
unfolding is_due moved is_enabled
moved-is_due now at none j h = refl
moved-is_due now at (some t) j h = ground (arith, h)

retried-is_due :
    (now at : ℕ) (next : Option ℕ) (j : CronJob)
    → is_past now next ≡ false
    → is_due now (retried at next j) ≡ false
unfolding is_due retried is_enabled
retried-is_due now at none j h = refl
retried-is_due now at (some t) j h = ground (arith, h)

module _ (zones : String → Zone)
    (forward : (z : String) (t w : ℕ) → (zones z).wall t < w → t < (zones z).stamp w) where
  -- a time that `_next_run` gives a recurring schedule lies ahead
  next_run-later : (s : Schedule) (t u : ℕ) → is_once s ≡ false → next_run zones s t ≡ ok u → t < u
  unfolding next_run
  next_run-later (interval n) t u o h = elim (Bool-cases (leb 60 n && leb n 31536000)) [
    | inl e ↦ later_in t n u (rw e at h) (ground (arith, e))
    | inr e ↦ absurd (unwrapped (rw e at h))
  ]
  next_run-later (daily z a b) t u o h = elim (Bool-cases (is_clock a b)) [
    | inl e ↦
        ahead t ((zones z).stamp (next_daily a b ((zones z).wall t))) u (rw e at h) (
          forward z t (next_daily a b ((zones z).wall t)) (next_daily-later a b ((zones z).wall t)))
    | inr e ↦ absurd (unwrapped (rw e at h))
  ]
  next_run-later (weekly z w a b) t u o h = elim (Bool-cases (is_clock a b && leb w 6)) [
    | inl e ↦ ahead t ((zones z).stamp (next_weekly w a b ((zones z).wall t))) u (rw e at h) (
        forward z t (next_weekly w a b ((zones z).wall t))
          (next_weekly-later w a b ((zones z).wall t)))
    | inr e ↦ absurd (unwrapped (rw e at h))
  ]
  next_run-later (monthly z m a b) t u o h = elim (Bool-cases (is_clock a b)) [
    | inl e ↦
        let planned = rw e at h in
        let (wall, found, back) =
          >>=-eq-ok (next_monthly m a b ((zones z).wall t)) (λ w. ok ((zones z).stamp w)) planned in
        ahead t ((zones z).stamp wall) u back
          (forward z t wall (next_monthly-later m a b ((zones z).wall t) wall found))
    | inr e ↦ absurd (unwrapped (rw e at h))
  ]
  next_run-later (once at) t u o h = cc
  next_run-later unknown t u o h = cc

  retry_after_failure-is_past :
      (s : Schedule) (slot now at : ℕ)
      → now ≤ at
      → is_past now (retry_after_failure zones s slot now at) ≡ false
  unfolding retry_after_failure is_past
  retry_after_failure-is_past s slot now at late = elim (Bool-cases (is_once s)) [
    | inl e ↦ rw e refl
    | inr e ↦ elim (Result-cases (next_run zones s (max now slot))) [
      | inl r ↦ rw (e, r.1) (ground (arith, next_run-later s (max now slot) r.0 e r.1))
      | inr r ↦ rw (e, r.1) (ground (arith, late))
    ]
  ]

  module _ (attempt : CronJob → Option String) where
    fail-is_due :
        (j : CronJob) (slot now : ℕ) (d : Draw) (run : String) (c : Cron)
        → now ≤ d.finished
        → count_where
            (λ k. has_id j.job_id k && is_due now k)
            (fail j run (retry_after_failure zones j.schedule slot now d.finished) d c).jobs
          ≡ 0
    unfolding fail
    fail-is_due j slot now d run c late =
        count_where-update_off (is_due now) (has_id j.job_id)
          (retried d.finished (retry_after_failure zones j.schedule slot now d.finished))
          (λ k.
            retried-is_due now d.finished _ k
              (retry_after_failure-is_past j.schedule slot now d.finished late))
          c.jobs

    succeed-is_due :
        (j : CronJob) (slot now : ℕ) (d : Draw) (run : String) (c : Cron) (text : String) (t : ℕ)
        → next_run zones j.schedule (max now slot) ≡ ok t
        → count_where
            (λ k. has_id j.job_id k && is_due now k)
            (succeed j run text (if is_once j.schedule then none else some t) d c).jobs
          ≡ 0
    unfolding succeed is_past
    succeed-is_due j slot now d run c text t r = elim (Bool-cases (is_once j.schedule)) [
      | inl e ↦ rw e (
          count_where-update_off (is_due now) (has_id j.job_id) (moved d.finished none)
            (λ k. moved-is_due now d.finished none k refl) c.jobs)
      | inr e ↦
          let after : max now slot < t = next_run-later j.schedule (max now slot) t e r in
          rw e (
            count_where-update_off (is_due now) (has_id j.job_id) (moved d.finished (some t))
              (λ k. moved-is_due now d.finished (some t) k (ground (arith, after))) c.jobs)
    ]

    finish-is_due :
        (j : CronJob) (slot now : ℕ) (d : Draw) (run : String) (c : Cron) (result : Option String)
        → now ≤ d.finished
        → count_where
            (λ k. has_id j.job_id k && is_due now k)
            (finish zones attempt j slot now d run c result).0.jobs
          ≡ 0
    unfolding finish
    finish-is_due j slot now d run c none late = fail-is_due j slot now d run c late
    finish-is_due j slot now d run c (some text) late =
        elim (Result-cases (next_run zones j.schedule (max now slot))) [
          | inr r ↦ rw (r.1, finish) (fail-is_due j slot now d run c late)
          | inl r ↦ rw (r.1, finish) (succeed-is_due j slot now d run c text r.0 r.1)
        ]

    -- Unless the job's run for its slot has already succeeded, the body of the loop takes the job off
    -- its slot: it is not due again at the time of the loop, whether its run succeeded, failed or was
    -- rejected by `_next_run`, and whatever its daily, weekly or monthly schedule is. A wall time that a
    -- zone's clock has not come to yet has to lie ahead, as it does where no clock is set back, and the
    -- clock of the program must not run back.
    pub run_job-moves :
        (j : CronJob) (slot now : ℕ) (d : Draw) (c : Cron)
        → now ≤ d.finished
        → is_done (fetch_one (is_run_of j.job_id slot) c.runs) ≡ false
        → count_where
            (λ k. has_id j.job_id k && is_due now k)
            (run_job zones attempt now d j slot c).0.jobs
          ≡ 0
    unfolding run_job
    run_job-moves j slot now d c late fresh = rw fresh (
        finish-is_due j slot now d
          (open_run d j slot c.runs (fetch_one (is_run_of j.job_id slot) c.runs)).0
          (record c {
            runs = (open_run d j slot c.runs (fetch_one (is_run_of j.job_id slot) c.runs)).1;
          })
          (attempt j) late)
