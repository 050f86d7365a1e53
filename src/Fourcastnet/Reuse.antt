-- ===== src/Fourcastnet/Reuse.antt =====
-- An inference whose archive is kept is not made again.
use earth2_sandbox.Prelude.{
  ℕ, ◌≡◌, refl, ap, subst, ◌∙◌, String, true, false, none, some, List, [], inl, inr, Bool-cases,
  ◌==◌, eq_iff,
}
use text.Mathlib.TextLemmas.{append_cancel_left}
use earth2_sandbox.Prelude.Text.{contains_lowered}
use earth2_sandbox.Domain.Policies.{Datetime}
use earth2_sandbox.Artifacts.{
  Document, ArtifactRecord, value, is_safe_key, content_name, metadata_name,
}
use earth2_sandbox.Artifacts.Integrity.{KeepsTexts, document, load-save}
use earth2_sandbox.Artifacts.Cache.{
  key_for, is_tar, load_cached, save_cached, tar_store, cache_record, result_metadata,
}
use earth2_sandbox.Nim.{done, HostedInferenceRequest, HostedInferenceResult, stored, hit}
use earth2_sandbox.Nim.Client.Requests.{run_hosted_inference, build_hosted_inference_payload}
use earth2_sandbox.Fourcastnet.{
  ProviderEnv, cache_env, nim_env, with_sent, FourcastnetProvider, Remote, answered, reuse,
  cached_result, run_uncached, load_result, run_hosted_inference_with_cache,
}

false-true : false ≡ true → ⊥
false-true h = cc

-- No name ends in both suffixes.
suffixes-apart : (key : String) → (metadata_name key == content_name tar_store key) ≡ false
suffixes-apart key = elim (Bool-cases (metadata_name key == content_name tar_store key)) [
  | inl same ↦ absurd (
      false-true (
        subst (λ s. (".json" == s) ≡ true)
          (append_cancel_left key ".json" ".tar"
            ((eq_iff (metadata_name key) (content_name tar_store key)).0 same))
          refl))
  | inr apart ↦ apart
]

tar-nonempty : (content_type : String) → is_tar content_type ≡ true → (content_type == "") ≡ false
unfolding contains_lowered
tar-nonempty content_type tar = elim (Bool-cases (content_type == "")) [
  | inl empty ↦
      absurd (false-true (subst (λ s. is_tar s ≡ true) ((eq_iff content_type "").0 empty) tar))
  | inr full ↦ full
]

module _ (env : ProviderEnv) (provider : FourcastnetProvider) (request : HostedInferenceRequest)
    (remote : Remote) (result : HostedInferenceResult) (content : List ℕ)
    (safe : (bytes : List ℕ) → is_safe_key (env.artifacts.sha256 bytes) ≡ true)
    (dated : (moment : Datetime) → (env.artifacts.isoformat moment == "") ≡ false)
    (present : result.raw_content ≡ some content) (tar : is_tar result.content_type ≡ true) where
  abbrev pub key : String
  key = key_for (cache_env env) (build_hosted_inference_payload request) request.accept

  -- the metadata that is written with the archive
  abbrev pub written : Document
  written =
      document env.artifacts key content result.content_type
        (env.artifacts.isoformat (env.artifacts.clock remote.disk.clock_reads))
        (result_metadata (cache_env env) (build_hosted_inference_payload request) result)

  -- What saving leaves is loaded again.
  kept-again :
      (decoded : Document)
      → env.artifacts.loads (env.artifacts.dumps written) ≡ some decoded
      → KeepsTexts written decoded
      → (saved : ArtifactRecord) × ((save_cached
            (cache_env env)
            (build_hosted_inference_payload request)
            request.accept
            result
            remote.disk).0
          ≡ value (some (cache_record saved)))
        × (load_cached
              (cache_env env)
              (build_hosted_inference_payload request)
              request.accept
              (save_cached
                (cache_env env)
                (build_hosted_inference_payload request)
                request.accept
                result
                remote.disk).1.files
            ≡ value (some (content, cache_record saved)))
  unfolding save_cached load_cached
  kept-again decoded decodes keeps =
      let (saved, returned, loaded) =
        load-save env.artifacts tar_store key content result.content_type
          (result_metadata (cache_env env) (build_hosted_inference_payload request) result)
          remote.disk decoded (safe _) (suffixes-apart key) decodes keeps refl
          (tar-nonempty result.content_type tar) (dated _) refl refl in
      (
        saved,
        simp (present, tar, returned, save_cached),
        simp (present, tar, loaded, save_cached, load_cached),
      )

  -- the state that the inference and the save leave
  abbrev later : Remote
  later =
      record (with_sent remote
        (run_hosted_inference (nim_env env remote) provider.client request []).1) {
          disk =
              (save_cached (cache_env env) (build_hosted_inference_payload request) request.accept
                result remote.disk).1;
        }

  module _ (decoded : Document)
      (decodes : env.artifacts.loads (env.artifacts.dumps written) ≡ some decoded)
      (keeps : KeepsTexts written decoded) (caching : provider.has_cache ≡ true)
      (missing : load_result env provider request remote ≡ value none)
      (delivered : (run_hosted_inference (nim_env env remote) provider.client request []).0
        ≡ done result) where
    first-answered : run_hosted_inference_with_cache env provider request remote ≡ (
      answered (record result {
        cache_status = stored;
        cached_artifact_id = some (kept-again decoded decodes keeps).0.key;
      }),
      later,
    )
    unfolding run_hosted_inference_with_cache run_uncached
    first-answered =
        ap (λ found. reuse env provider request found remote) missing
        ∙ simp (delivered, caching, (kept-again decoded decodes keeps).1, run_uncached)

    again-answered : run_hosted_inference_with_cache env provider request later ≡ (
      answered (
          cached_result provider
            (build_hosted_inference_payload request)
            content
            (cache_record (kept-again decoded decodes keeps).0)),
      later,
    )
    unfolding run_hosted_inference_with_cache load_result
    again-answered = simp (
      caching,
      (kept-again decoded decodes keeps).2,
      run_hosted_inference_with_cache,
      load_result,
    )

    -- With a cache, when SHA-256 digests are safe keys, datetimes print as some text, and the texts of the
    -- metadata that is dumped are under the same keys again when it is loaded: after an inference for which the cache had nothing, and which the client
    -- answered with bytes of a tar content type, the result is marked as stored; and the same request
    -- is then answered with the same bytes as a hit, sending nothing and writing nothing.
    pub run_hosted_inference_with_cache-reuse :
        (first again : HostedInferenceResult) × (after : Remote) × (run_hosted_inference_with_cache
            env provider request remote
          ≡ (answered first, after))
        × (first.cache_status ≡ stored)
        × (first.raw_content ≡ some content)
        × (run_hosted_inference_with_cache env provider request after ≡ (answered again, after))
        × (again.cache_status ≡ hit)
        × (again.raw_content ≡ some content)
    run_hosted_inference_with_cache-reuse =
        (_, _, later, first-answered, refl, present, again-answered, refl, refl)
