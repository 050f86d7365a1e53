-- ===== src/Artifacts.antt =====
-- src/earth2_sandbox/infrastructure/storage/local_artifact_store.py and its records in
-- application/ports/artifact_store.py. The directory is the bytes of its files by name: keys hold no
-- slash, so every path is a name in it. Links in the directory are not modelled. JSON, SHA-256 and
-- the printing of a datetime are parameters.
pub mod Integrity
pub mod Cache
use Prim.Native.Char.{Char, code}
use earth2_sandbox.Prelude.{
  ℕ, suc, String, Bool, true, false, ◌&&◌, ◌||◌, Option, none, some, List, [], ◌∷◌, length, leb,
  ◌==◌, if◌then◌else◌,
}
use earth2_sandbox.Prelude.Dict
use earth2_sandbox.Prelude.Dict.{Dict}
use earth2_sandbox.Prelude.Decimal.{decimal}
use earth2_sandbox.Outcome.{◌⧺◌}
use earth2_sandbox.Domain.Policies.{Datetime}

-- a value of a metadata document; `other` is one that counts as true, with its `str(...)`
pub data Value : Type 0 where
  string : String → Value
  number : ℕ → Value
  null : Value
  other : (printed : String) → Value

abbrev pub Document : Type 0
Document = Dict Value

pub record ArtifactRecord : Type 0 where
  pub key : String
  pub byte_length : ℕ
  pub sha256 : String
  pub content_type : String
  pub created_at : String
  pub metadata : Document

-- `loads` is none where decoding the text raises, or gives no dictionary.
pub record ArtifactEnv : Type 0 where
  pub clock : ℕ → Datetime
  pub isoformat : Datetime → String
  pub sha256 : List ℕ → String
  pub dumps : Document → List ℕ
  pub loads : List ℕ → Option Document

pub record LocalArtifactStore : Type 0 where
  pub content_suffix : String

-- What the store reads and writes outside the process.
pub record Disk : Type 0 where
  pub files : Dict (List ℕ)
  pub clock_reads : ℕ

-- what is returned, the ValueError of an unsafe key, or what decoding the metadata raises
pub data Attempt (A : Type 0) : Type 0 where
  value : A → Attempt A
  value_error : (message : String) → Attempt A
  undecodable : Attempt A

-- one of A-Z, a-z, 0-9, `.`, `_` and `-`
abbrev pub is_key_char : Char → Bool
is_key_char c =
    let n = code c in
    leb 65 n && leb n 90
    || leb 97 n && leb n 122
    || leb 48 n && leb n 57
    || leb 45 n && leb n 46
    || leb 95 n && leb n 95

unfoldable pub are_key_chars : String → Bool
are_key_chars String.[] = true
are_key_chars (String.◌∷◌ c text) = is_key_char c && are_key_chars text

-- _SAFE_ARTIFACT_KEY.fullmatch(key)
unfoldable pub is_safe_key : String → Bool
unfolding are_key_chars
is_safe_key String.[] = false
is_safe_key (String.◌∷◌ c text) = are_key_chars (String.◌∷◌ c text)

abbrev pub content_name : LocalArtifactStore → String → String
content_name store key = key ⧺ store.content_suffix

abbrev pub metadata_name : String → String
metadata_name key = key ⧺ ".json"

abbrev pub unsafe_key : String
unsafe_key = "Artifact key must be path-safe."

-- `metadata.get("sha256") != digest` is false
abbrev pub names_digest : Document → String → Bool
names_digest metadata digest = elim (Dict.get metadata "sha256") [
  | some (string t) ↦ t == digest
  | _ ↦ false
]

-- `str(metadata.get(key) or fallback)`
unfoldable pub text_at : Document → String → String → String
unfolding Dict.get decimal
text_at metadata key fallback = elim (Dict.get metadata key) [
  | some (string t) ↦ if t == "" then fallback else t
  | some (number n) ↦ if leb n 0 then fallback else decimal n
  | some (other printed) ↦ printed
  | _ ↦ fallback
]

abbrev pub record_of : ArtifactEnv → String → List ℕ → Document → ArtifactRecord
record_of env key content metadata = record {
  key = key;
  byte_length = length content;
  sha256 = env.sha256 content;
  content_type = text_at metadata "content_type" "application/octet-stream";
  created_at = text_at metadata "created_at" "";
  metadata = metadata;
}

unfoldable pub read :
    ArtifactEnv → String → List ℕ → List ℕ → Attempt (Option (List ℕ × ArtifactRecord))
unfolding text_at
read env key content written = elim (env.loads written) [
  | none ↦ undecodable
  | some metadata ↦
      if names_digest metadata (env.sha256 content)
      then value (some (content, record_of env key content metadata))
      else value none
]

-- when both files exist
abbrev pub read_if :
    ArtifactEnv
    → String
    → Option (List ℕ)
    → Option (List ℕ)
    → Attempt (Option (List ℕ × ArtifactRecord))
read_if env key (some content) (some written) = read env key content written
read_if env key _ _ = value none

unfoldable pub load :
    ArtifactEnv
    → LocalArtifactStore
    → String
    → Dict (List ℕ)
    → Attempt (Option (List ℕ × ArtifactRecord))
unfolding is_safe_key read Dict.get
load env store key files =
    if is_safe_key key
    then read_if env key (Dict.get files (content_name store key))
        (Dict.get files (metadata_name key))
    else value_error unsafe_key

-- `{**document, **metadata}`
unfoldable pub merge : Document → Document → Document
unfolding Dict.put
merge document [] = document
merge document ((key, v) ∷ metadata) = merge (Dict.put document key v) metadata

unfoldable pub document_of : ArtifactEnv → String → List ℕ → String → String → Document → Document
unfolding merge
document_of env key content content_type created_at metadata =
    merge
      (("key", string key)
        ∷ ("created_at", string created_at)
        ∷ ("content_type", string content_type)
        ∷ ("byte_length", number (length content))
        ∷ ("sha256", string (env.sha256 content))
        ∷ [])
      metadata

abbrev pub saved_record :
    ArtifactEnv → String → List ℕ → String → String → Document → ArtifactRecord
saved_record env key content content_type created_at metadata = record {
  key = key;
  byte_length = length content;
  sha256 = env.sha256 content;
  content_type = content_type;
  created_at = created_at;
  metadata = document_of env key content content_type created_at metadata;
}

-- The two files are written one after the other.
abbrev pub write_both :
    LocalArtifactStore → String → List ℕ → List ℕ → Dict (List ℕ) → Dict (List ℕ)
write_both store key content written files =
    Dict.put (Dict.put files (content_name store key) content) (metadata_name key) written

unfoldable pub save :
    ArtifactEnv
    → LocalArtifactStore
    → String
    → List ℕ
    → String
    → Document
    → Disk
    → Attempt ArtifactRecord × Disk
unfolding is_safe_key document_of Dict.put
save env store key content content_type metadata disk =
    let created_at = env.isoformat (env.clock disk.clock_reads) in
    let saved = saved_record env key content content_type created_at metadata in
    let read_once = record disk { clock_reads = suc disk.clock_reads } in
    let files = write_both store key content (env.dumps saved.metadata) disk.files in
    if is_safe_key key
    then (value saved, record read_once { files = files })
    else (value_error unsafe_key, read_once)
