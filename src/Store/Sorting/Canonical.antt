-- ===== src/Store/Sorting/Canonical.antt =====
-- `sort_jobs` of job_store_helpers.py does not depend on the order in which it is given the jobs, as
-- long as no two of them share an identifier.
use Prim.Native.Nat.{Ordering}
use Prim.Native.String.{compare as compare_text}
use text.Mathlib.TextEquality.{path_by_compare}
use earth2_sandbox.Prelude.{
  true, false, ◌≡◌, ◌≢◌, refl, sym, ap, ◌∙◌, List, [], ◌∷◌, All, inl, inr, Bool-cases, arith,
}
use earth2_sandbox.Prelude.Text.Order.{compare-flip, compare_below}
use earth2_sandbox.Prelude.Rearranged.{Rearranged, same, skip, swap, chain, Rearranged-All}
use earth2_sandbox.Jobs.{ForecastJob}
use earth2_sandbox.Store.Helpers.{key_lt, insert_job, sort_jobs}

abbrev Differ : ForecastJob → ForecastJob → Type 0
Differ a b = a.id ≢ b.id

abbrev pub DistinctIds : List ForecastJob → Type 0
DistinctIds [] = Unit
DistinctIds (a ∷ as') = All (Differ a) as' × DistinctIds as'

DistinctIds-Rearranged :
    {as' bs : List ForecastJob} → Rearranged as' bs → DistinctIds as' → DistinctIds bs
DistinctIds-Rearranged (same as') h = h
DistinctIds-Rearranged (skip a r) h =
    (Rearranged-All (Differ a) r h.0, DistinctIds-Rearranged r h.1)
DistinctIds-Rearranged (swap a b as') h = ((λ e. h.0.0 (sym e), h.1.0), (h.0.1, h.1.1))
DistinctIds-Rearranged (chain r s) h = DistinctIds-Rearranged s (DistinctIds-Rearranged r h)

-- Of two jobs with different identifiers, exactly one has the smaller key.
key_lt_total : (a b : ForecastJob) → Differ a b → key_lt a b ≡ false → key_lt b a ≡ true
key_lt_total a b differ h = ground (
  arith,
  compare-flip a.id b.id,
  λ (e : compare_text a.id b.id ≡ Ordering.eq). differ (path_by_compare a.id b.id e),
)

key_lt_asym : (a b : ForecastJob) → key_lt a b ≡ true → key_lt b a ≡ false
key_lt_asym a b h = ground (arith, compare-flip a.id b.id)

-- what is before one job is before another that is not before that one
key_lt_below : (a b c : ForecastJob) → key_lt a c ≡ true → key_lt b c ≡ false → key_lt a b ≡ true
key_lt_below a b c h k = ground (arith, compare_below a.id b.id c.id (compare_text b.id c.id) refl)

insert_job_comm :
    (a b : ForecastJob) (cs : List ForecastJob)
    → Differ a b
    → insert_job a (insert_job b cs) ≡ insert_job b (insert_job a cs)
unfolding insert_job
insert_job_comm a b [] differ = elim (Bool-cases (key_lt a b)) [
  | inl after ↦ rw (after, key_lt_asym a b after)
  | inr before ↦ rw (before, key_lt_total a b differ before)
]
insert_job_comm a b (c ∷ cs) differ = elim (Bool-cases (key_lt a c)) [
  | inl a_after ↦ elim (Bool-cases (key_lt b c)) [
    | inl b_after ↦
        rw (a_after, b_after, a_after) (ap (λ js. c ∷ js) (insert_job_comm a b cs differ))
    | inr b_before ↦ rw (a_after, b_before, key_lt_below a b c a_after b_before, a_after)
  ]
  | inr a_before ↦ elim (Bool-cases (key_lt b c)) [
    | inl b_after ↦ rw (a_before, b_after, key_lt_below b a c b_after a_before, a_before)
    | inr b_before ↦ elim (Bool-cases (key_lt a b)) [
      | inl after ↦ rw (a_before, b_before, after, key_lt_asym a b after, a_before)
      | inr before ↦ rw (a_before, b_before, before, key_lt_total a b differ before)
    ]
  ]
]

pub sort_jobs-Rearranged :
    {as' bs : List ForecastJob} → Rearranged as' bs → DistinctIds as' → sort_jobs as' ≡ sort_jobs bs
unfolding sort_jobs
sort_jobs-Rearranged (same as') h = refl
sort_jobs-Rearranged (skip a r) h = ap (insert_job a) (sort_jobs-Rearranged r h.1)
sort_jobs-Rearranged (swap a b as') h = insert_job_comm a b (sort_jobs as') h.0.0
sort_jobs-Rearranged (chain r s) h =
    sort_jobs-Rearranged r h ∙ sort_jobs-Rearranged s (DistinctIds-Rearranged r h)
