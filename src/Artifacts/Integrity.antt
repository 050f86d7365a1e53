-- ===== src/Artifacts/Integrity.antt =====
-- What the artifact store gives back: what was saved, and nothing that has been altered.
use earth2_sandbox.Prelude.{
  ℕ, ◌≡◌, refl, String, true, false, none, some, List, [], ◌∷◌, ◌==◌, eq_iff, eq_refl, arith,
}
use earth2_sandbox.Prelude.Dict
use earth2_sandbox.Prelude.Dict.{Dict, get-put, get-put_self}
use earth2_sandbox.Artifacts.{
  string, Document, ArtifactRecord, ArtifactEnv, LocalArtifactStore, Disk, value, is_safe_key,
  content_name, metadata_name, names_digest, text_at, read, load, merge, document_of, saved_record,
  save,
}

-- Every text of the document is in the other one under the same key.
abbrev pub KeepsTexts : Document → Document → Type 0
KeepsTexts document decoded =
    (key t : String)
    → Dict.get document key ≡ some (string t)
    → Dict.get decoded key ≡ some (string t)

-- A key that the metadata does not set keeps the store's value.
merge-get :
    (document metadata : Document) (key : String)
    → Dict.get metadata key ≡ none
    → Dict.get (merge document metadata) key ≡ Dict.get document key
unfolding merge Dict.get
merge-get document [] key h = refl
merge-get document ((k, v) ∷ metadata) key h = ground (
  arith,
  h,
  eq_iff k key,
  get-put document k v key,
  merge-get (Dict.put document k v) metadata key,
)

text_at-string :
    (d : Document) (key fallback t : String)
    → Dict.get d key ≡ some (string t)
    → (t == "") ≡ false
    → text_at d key fallback ≡ t
unfolding text_at
text_at-string d key fallback t e nonempty = rw (e, text_at) (rw nonempty refl)

names_digest-string :
    (d : Document) (t : String) → Dict.get d "sha256" ≡ some (string t) → names_digest d t ≡ true
names_digest-string d t e = rw (e, names_digest) (eq_refl t)

names_digest-other :
    (d : Document) (s t : String)
    → Dict.get d "sha256" ≡ some (string s)
    → (s == t) ≡ false
    → names_digest d t ≡ false
names_digest-other d s t e differ = rw (e, names_digest) differ

other_way : (s t : String) → (s == t) ≡ false → (t == s) ≡ false
other_way s t differ = ground (arith, eq_iff s t, eq_iff t s)

module _ (env : ArtifactEnv) (key : String) (content : List ℕ) (content_type created_at : String)
    (metadata : Document) where
  abbrev pub document : Document
  document = document_of env key content content_type created_at metadata

  document-digest :
      Dict.get metadata "sha256" ≡ none
      → Dict.get document "sha256" ≡ some (string (env.sha256 content))
  unfolding document_of Dict.get
  document-digest own = merge-get _ metadata "sha256" own

  document-type :
      Dict.get metadata "content_type" ≡ none
      → Dict.get document "content_type" ≡ some (string content_type)
  unfolding document_of Dict.get
  document-type own = merge-get _ metadata "content_type" own

  document-date :
      Dict.get metadata "created_at" ≡ none
      → Dict.get document "created_at" ≡ some (string created_at)
  unfolding document_of Dict.get
  document-date own = merge-get _ metadata "created_at" own

  read-document :
      (decoded : Document)
      → env.loads (env.dumps document) ≡ some decoded
      → KeepsTexts document decoded
      → (content_type == "") ≡ false
      → (created_at == "") ≡ false
      → Dict.get metadata "sha256" ≡ none
      → Dict.get metadata "content_type" ≡ none
      → Dict.get metadata "created_at" ≡ none
      → read env key content (env.dumps document)
        ≡ value (
            some (
              content,
              record (saved_record env key content content_type created_at metadata) {
                metadata = decoded;
              },
            ))
  unfolding read
  read-document decoded decodes keeps typed dated own_digest own_type own_date = simp (
    decodes,
    names_digest-string decoded (env.sha256 content) (keeps _ _ (document-digest own_digest)),
    text_at-string decoded "content_type" "application/octet-stream" content_type
        (keeps _ _ (document-type own_type)) typed,
    text_at-string decoded "created_at" "" created_at (keeps _ _ (document-date own_date)) dated,
    read,
  )

  -- other bytes than those that the document was made for
  read-altered :
      (decoded : Document) (bytes : List ℕ)
      → env.loads (env.dumps document) ≡ some decoded
      → KeepsTexts document decoded
      → Dict.get metadata "sha256" ≡ none
      → (env.sha256 content == env.sha256 bytes) ≡ false
      → read env key bytes (env.dumps document) ≡ value none
  unfolding read
  read-altered decoded bytes decodes keeps own_digest differ = simp (
    decodes,
    names_digest-other decoded (env.sha256 content) (env.sha256 bytes)
        (keeps _ _ (document-digest own_digest)) differ,
    read,
  )

module _ (env : ArtifactEnv) (store : LocalArtifactStore) (key : String) (content : List ℕ)
    (content_type : String) (metadata : Document) (disk : Disk) where
  abbrev created : String
  created = env.isoformat (env.clock disk.clock_reads)

  module _ (decoded : Document) (safe : is_safe_key key ≡ true)
      (apart : (metadata_name key == content_name store key) ≡ false)
      (decodes : env.loads (env.dumps (document env key content content_type created metadata))
        ≡ some decoded)
      (keeps : KeepsTexts (document env key content content_type created metadata) decoded)
      (own_digest : Dict.get metadata "sha256" ≡ none) where
    -- For a safe key, file names that differ, a metadata document whose texts are under the same keys
    -- again after it is dumped and loaded, and metadata that do not set `sha256`, `content_type` or
    -- `created_at`, where the content type and the datetime's text are not empty: loading after saving
    -- gives the content and the record that saving returned, with the loaded document for its
    -- metadata.
    pub load-save :
        (content_type == "") ≡ false
        → (created == "") ≡ false
        → Dict.get metadata "content_type" ≡ none
        → Dict.get metadata "created_at" ≡ none
        → (saved : ArtifactRecord) × ((save env store key content content_type metadata disk).0
            ≡ value saved)
          × (load env store key (save env store key content content_type metadata disk).1.files
              ≡ value (some (content, record saved { metadata = decoded })))
    unfolding save load
    load-save typed dated own_type own_date = (
      saved_record env key content content_type created metadata,
      simp (safe, save),
      simp (
        safe,
        get-put,
        eq_refl,
        apart,
        read-document env key content content_type created metadata decoded decodes keeps typed
            dated own_digest own_type own_date,
        save,
        load,
      ),
    )

    -- For a safe key, file names that differ, a metadata document whose texts are under the same keys
    -- again after it is dumped and loaded, and metadata that do not set `sha256`: when the bytes in
    -- the content file are replaced after a save by bytes with another digest, loading gives nothing
    -- back.
    pub load-altered :
        (bytes : List ℕ)
        → (env.sha256 content == env.sha256 bytes) ≡ false
        → let (r, left) = save env store key content content_type metadata disk in
          load env store key (Dict.put left.files (content_name store key) bytes) ≡ value none
    unfolding save load
    load-altered bytes differ = simp (
      safe,
      get-put,
      eq_refl,
      other_way (metadata_name key) (content_name store key) apart,
      read-altered env key content content_type created metadata decoded bytes decodes keeps
          own_digest differ,
      save,
      load,
    )
