-- ===== src/Tests/Artifacts.antt =====
-- Archives in a directory, and the provider that keeps them there.
use earth2_sandbox.Prelude.{
  ℕ, List, eq_iff, none, subst, ◌==◌, Bool-cases, inl, inr, ◌≡◌, refl, String, true, some, [], ◌∷◌,
}
use earth2_sandbox.Prelude.Text.{contains_lowered}
use earth2_sandbox.Prelude.Dict
use earth2_sandbox.Artifacts.{
  Document, string, number, ArtifactRecord, ArtifactEnv, Disk, value, is_safe_key, document_of,
  load, save,
}
use earth2_sandbox.Artifacts.Integrity.{document, KeepsTexts, load-save, load-altered}
use earth2_sandbox.Artifacts.Cache.{tar_store, result_metadata}
use earth2_sandbox.Nim.{done, send, stored, hit, HostedInferenceResult}
use earth2_sandbox.Nim.Client.{reference_of, build_hosted_result}
use earth2_sandbox.Nim.Client.Requests.{
  build_hosted_inference_payload, poll_loop, poll_once, resolve, resolve_hosted_response,
  run_hosted_inference,
}
use earth2_sandbox.Fourcastnet.{
  post_processing_error, ProviderEnv, cache_env, nim_env, FourcastnetProvider, Remote, answered,
  load_result, run_hosted_inference_with_cache,
}
use earth2_sandbox.Fourcastnet.Forecast.{point_request}
use earth2_sandbox.Fourcastnet.Reuse.{run_hosted_inference_with_cache-reuse}
use earth2_sandbox.Tests.Inferences.{network, client, delivered}

-- a text for the empty bytes, and one for all others
abbrev digest_of : List ℕ → String
digest_of [] = "d0"
digest_of (b ∷ bytes) = "d1"

digest_of-safe : (bytes : List ℕ) → is_safe_key (digest_of bytes) ≡ true
unfolding is_safe_key
digest_of-safe [] = refl
digest_of-safe (b ∷ bytes) = refl

-- an environment in which every metadata file holds one document
abbrev holding : Document → ArtifactEnv
holding d = record {
  clock = λ n. n;
  isoformat = λ moment. "2025-01-01T00:00:00+00:00";
  sha256 = digest_of;
  dumps = λ any. [];
  loads = λ bytes. some d;
}

abbrev empty_disk : Disk
empty_disk = record { files = []; clock_reads = 0 }

abbrev archive : Document
archive =
    document (holding []) "run-1" (7 ∷ 8 ∷ []) "application/x-tar" "2025-01-01T00:00:00+00:00" []

-- the same with its keys in alphabetical order
abbrev sorted : Document
sorted =
    ("byte_length", number 2)
    ∷ ("content_type", string "application/x-tar")
    ∷ ("created_at", string "2025-01-01T00:00:00+00:00")
    ∷ ("key", string "run-1")
    ∷ ("sha256", string "d1")
    ∷ []

abbrev KeptAt : String → Type 0
KeptAt key =
    (t : String) → Dict.get archive key ≡ some (string t) → Dict.get sorted key ≡ some (string t)

equal_keys : (name key : String) → (name == key) ≡ true → KeptAt name → KeptAt key
equal_keys name key same = subst KeptAt ((eq_iff name key).0 same)

sorted-KeepsTexts : KeepsTexts archive sorted
unfolding document_of Dict.get
sorted-KeepsTexts key = elim (Bool-cases ("key" == key)) [
  | inl same ↦ equal_keys "key" key same (λ t h. h)
  | inr a ↦ elim (Bool-cases ("created_at" == key)) [
    | inl same ↦ equal_keys "created_at" key same (λ t h. h)
    | inr b ↦ elim (Bool-cases ("content_type" == key)) [
      | inl same ↦ equal_keys "content_type" key same (λ t h. h)
      | inr c ↦ elim (Bool-cases ("byte_length" == key)) [
        | inl same ↦ equal_keys "byte_length" key same (λ t h. h)
        | inr d ↦ rw (a, b, c, d) (λ t h. h)
      ]
    ]
  ]
]

load-save_example :
    (saved : ArtifactRecord) × ((save
        (holding sorted)
        tar_store
        "run-1"
        (7 ∷ 8 ∷ [])
        "application/x-tar"
        []
        empty_disk).0
      ≡ value saved)
    × (load
          (holding sorted)
          tar_store
          "run-1"
          (save
            (holding sorted)
            tar_store
            "run-1"
            (7 ∷ 8 ∷ [])
            "application/x-tar"
            []
            empty_disk).1.files
        ≡ value (some (7 ∷ 8 ∷ [], record saved { metadata = sorted })))
unfolding is_safe_key document_of Dict.get
load-save_example =
    load-save (holding sorted) tar_store "run-1" (7 ∷ 8 ∷ []) "application/x-tar" [] empty_disk
      sorted refl refl refl sorted-KeepsTexts refl refl refl refl refl

load-altered_example :
    let (r, left) =
      save (holding sorted) tar_store "run-1" (7 ∷ 8 ∷ []) "application/x-tar" [] empty_disk in
    load (holding sorted) tar_store "run-1" (Dict.put left.files "run-1.tar" []) ≡ value none
unfolding is_safe_key document_of Dict.get
load-altered_example =
    load-altered (holding sorted) tar_store "run-1" (7 ∷ 8 ∷ []) "application/x-tar" [] empty_disk
      sorted refl refl refl sorted-KeepsTexts refl [] refl

abbrev provider_env : Document → ProviderEnv
provider_env d = record {
  transport = network;
  artifacts = holding d;
  serialized = λ payload accept. 1 ∷ [];
  payload_text = λ payload. "{...}";
  archives = record {
    build_forecast_summary_from_tar_bytes =
        λ n content request latitude longitude. post_processing_error "no arrays";
  };
  quoted = λ t. t;
}

abbrev provider : FourcastnetProvider
provider = record { client = client; has_cache = true }

abbrev remote : Remote
remote = record { sent = []; disk = empty_disk; archives_read = 0 }

abbrev kept : Document
kept = document (holding []) "d1" (7 ∷ 8 ∷ []) "application/x-tar" "2025-01-01T00:00:00+00:00" (
    result_metadata (cache_env (provider_env [])) (build_hosted_inference_payload point_request)
      delivered)

delivered-there :
    (run_hosted_inference (nim_env (provider_env kept) remote) client point_request []).0
    ≡ done delivered
unfolding run_hosted_inference resolve_hosted_response poll_loop poll_once resolve send reference_of
delivered-there = refl

run_hosted_inference_with_cache-reuse_example :
    (first again : HostedInferenceResult) × (after : Remote) × (run_hosted_inference_with_cache
        (provider_env kept)
        provider
        point_request
        remote
      ≡ (answered first, after))
    × (first.cache_status ≡ stored)
    × (first.raw_content ≡ some (7 ∷ 8 ∷ []))
    × (run_hosted_inference_with_cache (provider_env kept) provider point_request after
        ≡ (answered again, after))
    × (again.cache_status ≡ hit)
    × (again.raw_content ≡ some (7 ∷ 8 ∷ []))
unfolding is_safe_key load_result build_hosted_result contains_lowered document_of
run_hosted_inference_with_cache-reuse_example =
    run_hosted_inference_with_cache-reuse (provider_env kept) provider point_request remote
      delivered (7 ∷ 8 ∷ []) digest_of-safe (λ moment. refl) refl refl kept refl (λ key t h. h) refl
      refl delivered-there
