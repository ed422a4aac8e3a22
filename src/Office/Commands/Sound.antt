-- ===== src/Office/Commands/Sound.antt =====
-- What every write keeps of the jobs.
use zero_agent.Base.{
  ◌≡◌, refl, ap, ◌∙◌, Bool, true, List, [], ◌∷◌, ◌++◌, none, some, String, string_eq, fetch_one,
  update_where, Bool-cases, inl, inr, fetch_one-update, fetch_one-append,
}
use zero_agent.Office.Model.{Job, is_terminal, has_id}
use zero_agent.Office.Ledger.{Unique, Unique-update, Unique-append, found_by_own_id}

-- terminal jobs keep their status, and ids stay unique
pub record Sound (jobs jobs' : List Job) : Type 0 where
  pub terminal :
      (i : String) (j : Job)
      → fetch_one (has_id i) jobs ≡ some j
      → is_terminal j.status ≡ true
      → (k : Job) × (fetch_one (has_id i) jobs' ≡ some k) × (k.status ≡ j.status)
  pub unique : Unique jobs → Unique jobs'

pub Sound-refl : (jobs : List Job) → Sound jobs jobs
Sound-refl jobs = record { terminal = λ i j found t. (j, found, refl); unique = λ u. u }

pub Sound-trans : (a b c : List Job) → Sound a b → Sound b c → Sound a c
Sound-trans a b c f g = record {
  terminal = λ i j found t.
      let (k, there, same) = f.terminal i j found t in
      let (l, last, again) = g.terminal i k there (rw (ap is_terminal same) t) in
      (l, last, again ∙ same);
  unique = λ u. g.unique (f.unique u);
}

pub Sound-append :
    (jobs : List Job) (j : Job) → fetch_one (has_id j.id) jobs ≡ none → Sound jobs (jobs ++ j ∷ [])
Sound-append jobs j missing = record {
  terminal = λ i k found t. (k, rw (fetch_one-append (has_id i) jobs j, found), refl);
  unique = Unique-append jobs j missing;
}

-- an update that keeps ids, and the status of each terminal job that it hits
pub Sound-update :
    (q : Job → Bool) (h : Job → Job) (jobs : List Job)
    → ((k : Job) → (h k).id ≡ k.id)
    → ((k : Job)
        → q k ≡ true
        → is_terminal k.status ≡ true
        → fetch_one (has_id k.id) jobs ≡ some k
        → (h k).status ≡ k.status)
    → Sound jobs (update_where q h jobs)
Sound-update q h jobs keep still = record {
  terminal = λ i j found t.
      let new = fetch_one-update (has_id i) q h jobs (λ k. rw (keep k) refl) in
      elim (Bool-cases (q j)) [
        | inl hit ↦ (h j, rw (new, found, hit), still j hit t (found_by_own_id i jobs j found))
        | inr miss ↦ (j, rw (new, found, miss), refl)
      ];
  unique = Unique-update q h jobs keep;
}

-- an update that keeps every status
pub Sound-quiet :
    (q : Job → Bool) (h : Job → Job) (jobs : List Job)
    → ((k : Job) → (h k).id ≡ k.id)
    → ((k : Job) → (h k).status ≡ k.status)
    → Sound jobs (update_where q h jobs)
Sound-quiet q h jobs keep same = Sound-update q h jobs keep (λ k a b c. same k)
