-- ===== src/Store/Memory/Deletion.antt =====
-- `delete_older_than` of the in-memory store: which jobs go, and that no KeyError stops it.
use earth2_sandbox.Prelude.{
  ◌≡◌, refl, String, Bool, false, Option, none, some, List, [], ◌∷◌, map, keep, length, length-map,
  ◌∙◌, inl, inr, Bool-cases, if◌then◌else◌, eq_iff, arith,
}
use earth2_sandbox.Prelude.Dict
use earth2_sandbox.Prelude.Rearranged.{contains}
use earth2_sandbox.Prelude.Dict.{Dict, get-remove}
use earth2_sandbox.Prelude.Dict.Entries.{Entries, Distinct, Entries-mono}
use earth2_sandbox.Domain.Policies.{Datetime}
use earth2_sandbox.Domain.Status.{ForecastJobStatus}
use earth2_sandbox.Outcome.{ok}
use earth2_sandbox.Jobs.{ForecastJob}
use earth2_sandbox.World.{World}
use earth2_sandbox.Store.Memory.{delete_all, expired, expired_ids, delete_older_than}
use earth2_sandbox.Store.Memory.Invariant.{Entry, IsConsistent}

abbrev pub StandsUnder : String → ForecastJob → Type 0
StandsUnder k job = job.id ≡ k

-- Each identifier is a key, and none comes twice.
abbrev pub Deletable : List String → Dict ForecastJob → Type 0
Deletable [] jobs = Unit
Deletable (id ∷ ids) jobs =
    ((job : ForecastJob) × (Dict.get jobs id ≡ some job))
    × (contains ids id ≡ false)
    × Deletable ids jobs

pub Deletable-remove :
    (ids : List String) (id : String) (jobs : Dict ForecastJob)
    → contains ids id ≡ false
    → Deletable ids jobs
    → Deletable ids (Dict.remove jobs id)
Deletable-remove [] id jobs h d = tt
Deletable-remove (i ∷ ids) id jobs h d = (
  (d.0.0, ground (arith, get-remove jobs id i, eq_iff i id, eq_iff id i)),
  d.1,
  Deletable-remove ids id jobs (ground arith) d.2,
)

delete_all_lem :
    (ids : List String) (jobs : Dict ForecastJob)
    → Deletable ids jobs
    → ((delete_all ids jobs).0 ≡ ok tt)
      × ((key : String)
          → Dict.get (delete_all ids jobs).1 key
            ≡ (if contains ids key then none else Dict.get jobs key))
unfolding delete_all
delete_all_lem [] jobs d = (refl, λ key. refl)
delete_all_lem (id ∷ ids) jobs d =
    let (done, gone) =
      delete_all_lem ids (Dict.remove jobs id) (Deletable-remove ids id jobs d.1 d.2) in
    rw (d.0.1, delete_all) (done, λ key. ground (arith, gone key, get-remove jobs id key))

module _ (test : ForecastJob → Bool) where
  abbrev pub chosen : Option ForecastJob → Bool
  chosen none = false
  chosen (some job) = test job

  abbrev pub chosen_ids : Dict ForecastJob → List String
  chosen_ids d = map (λ job. job.id) (keep test (Dict.values d))

  pub contains-chosen_ids :
      (d : Dict ForecastJob) (key : String)
      → Entries StandsUnder d
      → Distinct d
      → contains (chosen_ids d) key ≡ chosen (Dict.get d key)
  unfolding Dict.values Dict.get
  contains-chosen_ids [] key h u = refl
  contains-chosen_ids ((k, job) ∷ d) key h u =
      ground (arith, contains-chosen_ids d key h.1 u.1, eq_iff k key, eq_iff job.id key, h.0)

Deletable-cons :
    (ids : List String) (k : String) (job : ForecastJob) (d : Dict ForecastJob)
    → Dict.get d k ≡ none
    → Deletable ids d
    → Deletable ids ((k, job) ∷ d)
unfolding Dict.get
Deletable-cons [] k job d new h = tt
Deletable-cons (id ∷ ids) k job d new h =
    ((h.0.0, ground (arith, eq_iff k id, h.0.1)), h.1, Deletable-cons ids k job d new h.2)

module _ (test : ForecastJob → Bool) where
  pub chosen_ids-Deletable :
      (d : Dict ForecastJob) → Entries StandsUnder d → Distinct d → Deletable (chosen_ids test d) d
  unfolding Dict.values
  chosen_ids-Deletable [] h u = tt
  chosen_ids-Deletable ((k, job) ∷ d) h u =
      let rest = Deletable-cons (chosen_ids test d) k job d u.0 (chosen_ids-Deletable d h.1 u.1) in
      elim (Bool-cases (test job)) [
        | inl taken ↦
            rw (taken, keep)
              (
                (job, unfold Dict.get in ground (arith, eq_iff k job.id, h.0)),
                rw h.0 (rw (contains-chosen_ids test d k h.1 u.1, u.0)),
                rest,
              )
        | inr left ↦ rw (left, keep) rest
      ]

-- what is left of a stored job
abbrev pub remaining : Datetime → List ForecastJobStatus → Option ForecastJob → Option ForecastJob
remaining cutoff statuses none = none
remaining cutoff statuses (some job) = if expired cutoff statuses job then none else some job

remaining_lem :
    (cutoff : Datetime) (statuses : List ForecastJobStatus) (o : Option ForecastJob)
    → (if chosen (expired cutoff statuses) o then none else o) ≡ remaining cutoff statuses o
remaining_lem cutoff statuses none = refl
remaining_lem cutoff statuses (some job) = refl

-- On a consistent table the method deletes exactly the expired jobs, counts them, and raises nothing.
pub delete_older_than_lem :
    (cutoff : Datetime) (statuses : List ForecastJobStatus) (w : World)
    → IsConsistent w.jobs
    → let (r, w') = delete_older_than cutoff statuses w in
      (r ≡ ok (length (keep (expired cutoff statuses) (Dict.values w.jobs))))
      × ((key : String) → Dict.get w'.jobs key ≡ remaining cutoff statuses (Dict.get w.jobs key))
unfolding delete_older_than expired_ids
delete_older_than_lem cutoff statuses w c =
    let test = expired cutoff statuses in
    let under = Entries-mono Entry StandsUnder (λ k job h. h.0) w.jobs c.entries in
    let (done, gone) =
      delete_all_lem (chosen_ids test w.jobs) w.jobs
        (chosen_ids-Deletable test w.jobs under c.distinct) in
    (
      rw done (rw (length-map (λ (job : ForecastJob). job.id) (keep test (Dict.values w.jobs)))),
      λ key. rw done (
          gone key
          ∙ rw (contains-chosen_ids test w.jobs key under c.distinct)
              (remaining_lem cutoff statuses (Dict.get w.jobs key))),
    )
