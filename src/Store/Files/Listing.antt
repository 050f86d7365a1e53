-- ===== src/Store/Files/Listing.antt =====
-- The methods of src/earth2_sandbox/infrastructure/storage/file_job_store.py that go through all files,
-- against those of memory_job_store.py. The order in which the files come does not matter.
use earth2_sandbox.Prelude.{
  ℕ, String, Bool, true, false, ◌≡◌, refl, sym, ap, subst, ◌∙◌, Option, List, [], keep, take,
  length, length-map, inl, inr, Bool-cases, arith,
}
use earth2_sandbox.Prelude.Dict
use earth2_sandbox.Prelude.Dict.{Dict}
use earth2_sandbox.Prelude.Dict.Entries.{Entries-mono}
use earth2_sandbox.Prelude.Rearranged.{
  Rearranged, same, Rearranged-All, Rearranged-length, keep-Rearranged, collect-Rearranged,
  contains-Rearranged, collect, contains,
}
use earth2_sandbox.Domain.Policies.{Datetime}
use earth2_sandbox.Domain.Status.{ForecastJobStatus, is_in, active_job_statuses}
use earth2_sandbox.Outcome.{ok}
use earth2_sandbox.Jobs.{ForecastJob}
use earth2_sandbox.Jobs.Forecast.{ForecastSummary}
use earth2_sandbox.Store.Helpers.{sort_jobs, sort_and_filter_jobs, has_status}
use earth2_sandbox.Store.Sorting.Canonical.{sort_jobs-Rearranged}
use earth2_sandbox.Store.Memory
use earth2_sandbox.Store.Memory.{expired}
use earth2_sandbox.Store.Memory.Deletion.{
  StandsUnder, chosen_ids, contains-chosen_ids, chosen_ids-Deletable,
}
use earth2_sandbox.Store.Files.{
  FileSystem, Machine, returned, read_each, read_all_unlocked, list_recent, list_active,
  delete_each, delete_older_than,
}
use earth2_sandbox.Store.Files.Laws.{
  stems, dumped, stems-dumped, contains-stems, collect-stems, Reads, Readable, AreReadable,
  AreReadable-stems, read_each_lem,
}
use earth2_sandbox.Store.Files.Deletion.{
  dropped, dropped-ext, delete_all-dropped, Nodup-Rearranged, due, delete_each_lem,
}
use earth2_sandbox.Store.Files.Holding.{IsStorable, Named, as_memory, Holds, Agree}
use earth2_sandbox.Store.Files.Tables.{
  values-DistinctIds, keep-DistinctIds, stems-Nodup, dropped-Entries, dropped-Distinct,
}

module _ {T : Type 0} (disk : FileSystem T) (Sound : ForecastSummary → Type 0)
    (reads : (job : ForecastJob) → IsStorable Sound job → Reads disk job)
    (lists : (files : Dict T) → Rearranged (stems files) (disk.glob files)) (m : Machine T)
    (jobs : Dict ForecastJob) (holds : Holds disk Sound m.root jobs) where
  globbed : Rearranged (stems jobs) (disk.glob m.root.files)
  globbed =
      subst (λ ks. Rearranged ks (disk.glob m.root.files))
        (ap stems holds.files ∙ stems-dumped disk jobs) (lists m.root.files)

  empty_if_missing : m.root.exists ≡ false → jobs ≡ []
  empty_if_missing missing = elim holds.made [ inl exists ↦ cc | inr empty ↦ empty ]

  AreReadable-globbed : AreReadable disk jobs (disk.glob m.root.files)
  AreReadable-globbed = Rearranged-All (Readable disk jobs) globbed (
      AreReadable-stems disk jobs (
        Entries-mono (Named Sound) (λ k job. Reads disk job) (λ k job h. reads job h.2) jobs
          holds.named))

  -- Every job of the table is read, in some order.
  read_all_lem :
      (read : List ForecastJob) × (read_all_unlocked disk m ≡ (returned read, m))
      × Rearranged (Dict.values jobs) read
  unfolding read_all_unlocked Dict.values
  read_all_lem = elim (Bool-cases m.root.exists) [
    | inl exists ↦
        let read = collect (Dict.get jobs) (disk.glob m.root.files) in
        (
          read,
          simp exists (
              ap (λ r. (r, m))
                (ap (read_each disk (disk.glob m.root.files)) holds.files
                  ∙ read_each_lem disk jobs (disk.glob m.root.files) AreReadable-globbed)),
          subst (λ js. Rearranged js read) (collect-stems jobs holds.distinct)
              (collect-Rearranged (Dict.get jobs) globbed),
        )
    | inr missing ↦ (
      [],
      simp missing,
      subst (λ js. Rearranged (Dict.values js) []) (sym (empty_if_missing missing)) (same []),
    )
  ]

  sort_read :
      (test : ForecastJob → Bool)
      → sort_jobs (keep test (Dict.values jobs)) ≡ sort_jobs (keep test read_all_lem.0)
  sort_read test = sort_jobs-Rearranged (keep-Rearranged test read_all_lem.2) (
      keep-DistinctIds test (Dict.values jobs)
        (values-DistinctIds Sound jobs holds.named holds.distinct))

  pub list_recent-Agree :
      (limit : ℕ) (status : Option ForecastJobStatus)
      → list_recent disk limit status m
        ≡ (returned (Memory.list_recent limit status (as_memory m jobs)), m)
  unfolding list_recent Memory.list_recent sort_and_filter_jobs
  list_recent-Agree limit status =
      rw read_all_lem.1
        (ap (λ js. (returned (take limit js), m)) (sym (sort_read (has_status status))))

  pub list_active-Agree : list_active disk m ≡ (returned (Memory.list_active (as_memory m jobs)), m)
  unfolding list_active Memory.list_active
  list_active-Agree =
      rw read_all_lem.1 (
        ap (λ js. (returned js, m)) (sym (sort_read (λ job. is_in job.status active_job_statuses))))

  -- what the in-memory store deletes is what the loop over the files deletes
  same_jobs_go :
      (cutoff : Datetime) (statuses : List ForecastJobStatus) (k : String)
      → due disk cutoff statuses (disk.glob m.root.files) jobs k
        ≡ contains (chosen_ids (expired cutoff statuses) jobs) k
  same_jobs_go cutoff statuses k =
      let test = expired cutoff statuses in
      let under = Entries-mono (Named Sound) StandsUnder (λ j job h. h.0) jobs holds.named in
      ground (
        arith,
        contains-chosen_ids test jobs k under holds.distinct,
        contains-Rearranged k globbed,
        contains-stems jobs k,
      )

  module _ (cutoff : Datetime) (statuses : List ForecastJobStatus) where
    abbrev ids : List String
    ids = chosen_ids (expired cutoff statuses) jobs

    abbrev left : Dict ForecastJob
    left = dropped (contains ids) jobs

    memory_deletes :
        Memory.delete_older_than cutoff statuses (as_memory m jobs)
        ≡ (ok (length ids), as_memory m left)
    unfolding Memory.delete_older_than Memory.delete_jobs Memory.expired_ids
    memory_deletes =
        let under = Entries-mono (Named Sound) StandsUnder (λ j job h. h.0) jobs holds.named in
        rw (
          delete_all-dropped ids jobs
            (chosen_ids-Deletable (expired cutoff statuses) jobs under holds.distinct))

    as_many :
        length (keep (expired cutoff statuses) (collect (Dict.get jobs) (disk.glob m.root.files)))
        ≡ length ids
    as_many =
        let found = collect-Rearranged (Dict.get jobs) globbed in
        let test = expired cutoff statuses in
        sym (Rearranged-length (keep-Rearranged test found))
        ∙ ap (λ js. length (keep test js)) (collect-stems jobs holds.distinct)
        ∙ sym (length-map (λ (job : ForecastJob). job.id) (keep test (Dict.values jobs)))

    loop_deletes :
        delete_each disk cutoff statuses (disk.glob m.root.files) m.root.files
        ≡ (returned (length ids), dumped disk left)
    loop_deletes =
        ap (delete_each disk cutoff statuses (disk.glob m.root.files)) holds.files
        ∙ delete_each_lem disk cutoff statuses (disk.glob m.root.files) jobs AreReadable-globbed
            (Nodup-Rearranged globbed (stems-Nodup jobs holds.distinct))
        ∙ (λ i. (
          returned (as_many i),
          dumped disk (
              dropped-ext (due disk cutoff statuses (disk.glob m.root.files) jobs) (contains ids)
                jobs (same_jobs_go cutoff statuses) i),
        ))

    left-Holds :
        Holds disk Sound
          (record { exists = true; files = dumped disk left; temporaries = m.root.temporaries })
          left
    left-Holds = record {
      files = refl;
      made = inl refl;
      named = dropped-Entries (Named Sound) (contains ids) jobs holds.named;
      distinct = dropped-Distinct (contains ids) jobs holds.distinct;
    }

    nothing_left : jobs ≡ [] → (length ids ≡ 0) × (left ≡ jobs)
    unfolding Dict.values
    nothing_left empty = (
      ap (λ js. length (chosen_ids (expired cutoff statuses) js)) empty,
      ap (λ js. dropped (contains (chosen_ids (expired cutoff statuses) js)) js) empty ∙ sym empty,
    )

    pub delete_older_than-Agree :
        Agree disk Sound
          (delete_older_than disk cutoff statuses m)
          (Memory.delete_older_than cutoff statuses (as_memory m jobs))
    unfolding delete_older_than
    delete_older_than-Agree = elim (Bool-cases m.root.exists) [
      | inl exists ↦ simp (memory_deletes, loop_deletes, exists) (refl, (left, refl, left-Holds))
      | inr missing ↦
          let none_left = nothing_left (empty_if_missing missing) in
          simp (memory_deletes, missing)
            (sym (ap returned none_left.0), (jobs, ap (as_memory m) none_left.1, holds))
    ]
