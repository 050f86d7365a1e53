-- ===== src/Store/Files/Deletion.antt =====
-- `delete_older_than` of src/earth2_sandbox/infrastructure/storage/file_job_store.py against that of
-- memory_job_store.py: in whatever order the files come, the same jobs go.
use earth2_sandbox.Prelude.{
  String, Bool, true, false, ◌&&◌, ◌||◌, ◌≡◌, refl, sym, ap, ◌∙◌, none, some, List, [], ◌∷◌, keep,
  length, inl, inr, Bool-cases, ◌==◌, eq_iff, if◌then◌else◌, arith,
}
use earth2_sandbox.Prelude.Dict
use earth2_sandbox.Prelude.Dict.{Dict, get-remove}
use earth2_sandbox.Prelude.Rearranged.{
  Rearranged, same, skip, swap, chain, collect, contains, contains-Rearranged,
}
use earth2_sandbox.Domain.Policies.{Datetime}
use earth2_sandbox.Domain.Status.{ForecastJobStatus}
use earth2_sandbox.Jobs.{ForecastJob}
use earth2_sandbox.Outcome.{ok}
use earth2_sandbox.Store.Memory.{expired, delete_all}
use earth2_sandbox.Store.Memory.Deletion.{chosen, Deletable, Deletable-remove}
use earth2_sandbox.Store.Files.{FileSystem, returned, delete_one, delete_each}
use earth2_sandbox.Store.Files.Laws.{AreReadable, dumped, get-dumped, remove-dumped}

-- the table without the keys that pass a test
abbrev pub dropped {ℓ} : {V : Type ℓ} → (String → Bool) → Dict V → Dict V
dropped test [] = []
dropped test ((k, v) ∷ d) = if test k then dropped test d else (k, v) ∷ dropped test d

module _ {ℓ} {V : Type ℓ} where
  remove-dropped : (d : Dict V) (gone : String) → Dict.remove d gone ≡ dropped (λ k. k == gone) d
  unfolding Dict.remove
  remove-dropped [] gone = refl
  remove-dropped ((k, v) ∷ d) gone = ground (arith, remove-dropped d gone)

  dropped-dropped :
      (p q : String → Bool) (d : Dict V) → dropped p (dropped q d) ≡ dropped (λ k. q k || p k) d
  dropped-dropped p q [] = refl
  dropped-dropped p q ((k, v) ∷ d) = ground (arith, dropped-dropped p q d)

  pub dropped-ext :
      (p q : String → Bool) (d : Dict V) → ((k : String) → p k ≡ q k) → dropped p d ≡ dropped q d
  dropped-ext p q d h = λ i. dropped (λ k. h k i) d

  dropped_nothing : (d : Dict V) → dropped (λ k. false) d ≡ d
  dropped_nothing [] = refl
  dropped_nothing ((k, v) ∷ d) = ap (λ rest. (k, v) ∷ rest) (dropped_nothing d)

pub delete_all-dropped :
    (ids : List String) (jobs : Dict ForecastJob)
    → Deletable ids jobs
    → delete_all ids jobs ≡ (ok tt, dropped (contains ids) jobs)
unfolding delete_all
delete_all-dropped [] jobs h = rw (dropped_nothing jobs)
delete_all-dropped (id ∷ ids) jobs h =
    rw
      (
        h.0.1,
        delete_all,
        delete_all-dropped ids (Dict.remove jobs id) (Deletable-remove ids id jobs h.1 h.2),
      )
      (ap (λ d. (ok tt, d))
        (ap (dropped (contains ids)) (remove-dropped jobs id)
          ∙ dropped-dropped (contains ids) (λ k. k == id) jobs
          ∙ dropped-ext (λ k. k == id || contains ids k) (contains (id ∷ ids)) jobs
              (λ k. ground (arith, eq_iff k id, eq_iff id k))))

-- no name comes twice
abbrev pub Nodup : List String → Type 0
Nodup [] = Unit
Nodup (k ∷ ks) = (contains ks k ≡ false) × Nodup ks

pub Nodup-Rearranged : {ks js : List String} → Rearranged ks js → Nodup ks → Nodup js
Nodup-Rearranged (same ks) h = h
Nodup-Rearranged (skip k r) h = (sym (contains-Rearranged k r) ∙ h.0, Nodup-Rearranged r h.1)
Nodup-Rearranged (swap k j ks) h = ground (arith, eq_iff j k, eq_iff k j)
Nodup-Rearranged (chain r s) h = Nodup-Rearranged s (Nodup-Rearranged r h)

module _ {T : Type 0} (disk : FileSystem T) (cutoff : Datetime)
    (statuses : List ForecastJobStatus) where
  -- what the loop deletes of the names that are left
  abbrev pub due : List String → Dict ForecastJob → String → Bool
  due ks jobs k = contains ks k && chosen (expired cutoff statuses) (Dict.get jobs k)

  AreReadable-remove :
      (jobs : Dict ForecastJob) (gone : String) (ks : List String)
      → contains ks gone ≡ false
      → AreReadable disk jobs ks
      → AreReadable disk (Dict.remove jobs gone) ks
  AreReadable-remove jobs gone [] h a = tt
  AreReadable-remove jobs gone (k ∷ ks) h a = (
    (a.0.0, ground (arith, get-remove jobs gone k, eq_iff gone k, eq_iff k gone, h, a.0.1), a.0.2),
    AreReadable-remove jobs gone ks (ground (arith, h)) a.1,
  )

  collect-remove :
      (jobs : Dict ForecastJob) (gone : String) (ks : List String)
      → contains ks gone ≡ false
      → collect (Dict.get (Dict.remove jobs gone)) ks ≡ collect (Dict.get jobs) ks
  collect-remove jobs gone [] h = refl
  collect-remove jobs gone (k ∷ ks) h =
      let rest = collect-remove jobs gone ks (ground (arith, h)) in
      let here : Dict.get (Dict.remove jobs gone) k ≡ Dict.get jobs k =
        ground (arith, get-remove jobs gone k, eq_iff gone k, eq_iff k gone, h) in
      rw (collect, here)
        (ap (λ js. elim (Dict.get jobs k) [ none ↦ js | some job ↦ job ∷ js ]) rest)

  due_deleted :
      (k : String) (ks : List String) (jobs : Dict ForecastJob) (job : ForecastJob) (j : String)
      → Dict.get jobs k ≡ some job
      → expired cutoff statuses job ≡ true
      → (j == k || due ks (Dict.remove jobs k) j) ≡ due (k ∷ ks) jobs j
  due_deleted k ks jobs job j found old =
      ground (arith, get-remove jobs k j, eq_iff j k, eq_iff k j, found, old)

  due_kept :
      (k : String) (ks : List String) (jobs : Dict ForecastJob) (job : ForecastJob) (j : String)
      → Dict.get jobs k ≡ some job
      → expired cutoff statuses job ≡ false
      → due ks jobs j ≡ due (k ∷ ks) jobs j
  due_kept k ks jobs job j found young = ground (arith, eq_iff k j, found, young)

  pub delete_each_lem :
      (ks : List String) (jobs : Dict ForecastJob)
      → AreReadable disk jobs ks
      → Nodup ks
      → delete_each disk cutoff statuses ks (dumped disk jobs) ≡ (
        returned (length (keep (expired cutoff statuses) (collect (Dict.get jobs) ks))),
        dumped disk (dropped (due ks jobs) jobs),
      )
  unfolding delete_each
  delete_each_lem [] jobs a n = rw (dropped_nothing jobs)
  delete_each_lem (k ∷ ks) jobs ((job, found, reads), a) n =
      elim (Bool-cases (expired cutoff statuses job)) [
        | inl old ↦
            let left = Dict.remove jobs k in
            let rest = delete_each_lem ks left (AreReadable-remove jobs k ks n.0 a) n.1 in
            let agreed : dropped (due ks left) left ≡ dropped (due (k ∷ ks) jobs) jobs =
              ap (dropped (due ks left)) (remove-dropped jobs k)
              ∙ dropped-dropped (due ks left) (λ j. j == k) jobs
              ∙ dropped-ext (λ j. j == k || due ks left j) (due (k ∷ ks) jobs) jobs
                  (λ j. due_deleted k ks jobs job j found old) in
            rw (
              collect,
              get-dumped disk jobs k,
              found,
              reads,
              delete_one,
              old,
              remove-dumped disk jobs k,
              rest,
              collect-remove jobs k ks n.0,
              agreed,
            )
        | inr young ↦
            let rest = delete_each_lem ks jobs a n.1 in
            let agreed : dropped (due ks jobs) jobs ≡ dropped (due (k ∷ ks) jobs) jobs =
              dropped-ext (due ks jobs) (due (k ∷ ks) jobs) jobs
                (λ j. due_kept k ks jobs job j found young) in
            rw (collect, get-dumped disk jobs k, found, reads, delete_one, young, rest, agreed)
      ]
