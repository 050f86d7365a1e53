-- ===== src/Artifacts/Cache.antt =====
-- The result cache of hosted inferences, src/earth2_sandbox/storage/fourcastnet.py, on the local
-- artifact store. The JSON text that a key is the digest of, and the text of a payload, are
-- parameters.
use earth2_sandbox.Prelude.{ℕ, String, Bool, Option, none, some, List, [], ◌∷◌, if◌then◌else◌}
use earth2_sandbox.Prelude.Dict.{Dict}
use earth2_sandbox.Prelude.Text.{contains_lowered}
use earth2_sandbox.Nim.{Payload, HostedInferenceResult, source_text}
use earth2_sandbox.Artifacts.{
  Value, string, null, other, Document, ArtifactRecord, ArtifactEnv, LocalArtifactStore, Disk,
  Attempt, value, value_error, undecodable, content_name, metadata_name, load, save,
}

pub record FourcastnetCacheRecord : Type 0 where
  pub key : String
  pub path : String
  pub metadata_path : String
  pub byte_length : ℕ
  pub sha256 : String
  pub content_type : String
  pub created_at : String

pub record CacheEnv : Type 0 where
  pub artifacts : ArtifactEnv
  pub serialized : Payload → String → List ℕ
  pub payload_text : Payload → String

-- `LocalArtifactStore(self.root, clock=clock, content_suffix=".tar")`
abbrev pub tar_store : LocalArtifactStore
tar_store = record { content_suffix = ".tar" }

-- _key
abbrev pub key_for : CacheEnv → Payload → String → String
key_for env payload accept = env.artifacts.sha256 (env.serialized payload accept)

-- _cache_record_from_artifact
abbrev pub cache_record : ArtifactRecord → FourcastnetCacheRecord
cache_record artifact = record {
  key = artifact.key;
  path = content_name tar_store artifact.key;
  metadata_path = metadata_name artifact.key;
  byte_length = artifact.byte_length;
  sha256 = artifact.sha256;
  content_type = artifact.content_type;
  created_at = artifact.created_at;
}

abbrev pub cached :
    Attempt (Option (List ℕ × ArtifactRecord)) → Attempt (Option (List ℕ × FourcastnetCacheRecord))
cached (value (some (content, artifact))) = value (some (content, cache_record artifact))
cached (value none) = value none
cached (value_error message) = value_error message
cached undecodable = undecodable

unfoldable pub load_cached :
    CacheEnv → Payload → String → Dict (List ℕ) → Attempt (Option (List ℕ × FourcastnetCacheRecord))
unfolding load
load_cached env payload accept files =
    cached (load env.artifacts tar_store (key_for env payload accept) files)

abbrev value_or_null : Option String → Value
value_or_null none = null
value_or_null (some t) = string t

abbrev pub result_metadata : CacheEnv → Payload → HostedInferenceResult → Document
result_metadata env payload result =
    ("request_payload", other (env.payload_text payload))
    ∷ ("source", string (source_text result.response_source))
    ∷ ("nvcf_request_id", value_or_null result.nvcf_request_id)
    ∷ ("nvcf_status", value_or_null result.nvcf_status)
    ∷ []

-- `"tar" in content_type.lower()`
abbrev pub is_tar : String → Bool
is_tar content_type = contains_lowered content_type (116 ∷ 97 ∷ 114 ∷ [])

abbrev pub kept : Attempt ArtifactRecord → Attempt (Option FourcastnetCacheRecord)
kept (value artifact) = value (some (cache_record artifact))
kept (value_error message) = value_error message
kept undecodable = undecodable

unfoldable pub save_cached :
    CacheEnv
    → Payload
    → String
    → HostedInferenceResult
    → Disk
    → Attempt (Option FourcastnetCacheRecord) × Disk
unfolding save contains_lowered
save_cached env payload accept result disk = elim result.raw_content [
  | none ↦ (value none, disk)
  | some content ↦
      let (saved, disk') =
        save env.artifacts tar_store (key_for env payload accept) content result.content_type
          (result_metadata env payload result) disk in
      if is_tar result.content_type then (kept saved, disk') else (value none, disk)
]
