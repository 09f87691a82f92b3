-- ===== src/Recording/Metadata.antt =====
-- recording/recording.service.ts: the chapters that are stored beside a recording.
use aura_new_live_server.Prelude.{
  Text, ℕ, ◌≡◌, refl, ◌∙◌, ap, Bool, true, false, Option, none, some, List, [], ◌∷◌, ◌++◌,
  if◌then◌else◌, option_or, nat_eq, list_eq, Table, get, set, get-set_self, subst,
}

-- `VideoChapter`
pub record VideoChapter : Type 0 where
  pub title : Text
  pub start_time : ℕ
  pub end_time : Option ℕ

-- `RecordingMetadata`, which is stored as its text
pub record RecordingMetadata : Type 0 where
  pub room_id : Text
  pub file_name : Text
  pub file_url : Text
  pub file_size : ℕ
  pub recording_start_time : Option ℕ
  pub chapters : List VideoChapter
  pub created_at : ℕ
  pub updated_at : ℕ

-- The objects of the bucket that hold metadata, by their keys.
abbrev pub Bucket : Type 0
Bucket = Table Text RecordingMetadata

-- 'rooms/', '/recordings/' and '.meta.json'
abbrev pub s3_prefix : Text
s3_prefix = 114 ∷ 111 ∷ 111 ∷ 109 ∷ 115 ∷ 47 ∷ []

abbrev pub recordings_part : Text
recordings_part = 47 ∷ 114 ∷ 101 ∷ 99 ∷ 111 ∷ 114 ∷ 100 ∷ 105 ∷ 110 ∷ 103 ∷ 115 ∷ 47 ∷ []

abbrev pub meta_suffix : Text
meta_suffix = 46 ∷ 109 ∷ 101 ∷ 116 ∷ 97 ∷ 46 ∷ 106 ∷ 115 ∷ 111 ∷ 110 ∷ []

-- `getMetadataS3Key`
unfoldable pub get_metadata_s3_key : Text → Text → Text
get_metadata_s3_key room file_name =
    s3_prefix ++ (room ++ (recordings_part ++ (file_name ++ meta_suffix)))

-- `getRecordingMetadata`, where the request for the object fails or not: null in both cases
unfoldable pub get_recording_metadata : Text → Text → Bool → Bucket → Option RecordingMetadata
get_recording_metadata room file_name fails bucket =
    if fails then none else get (get_metadata_s3_key room file_name) bucket

-- `saveRecordingMetadata`, where the request fails or not
unfoldable pub save_recording_metadata : Text → RecordingMetadata → Bool → Bucket → Bucket × Bool
save_recording_metadata room m fails bucket =
    if fails then (bucket, false) else (set (get_metadata_s3_key room m.file_name) m bucket, true)

-- The metadata where there is none: the address comes from the bucket's.
abbrev pub blank_metadata : Text → Text → Text → ℕ → RecordingMetadata
blank_metadata room file_name file_url now = record {
  room_id = room;
  file_name = file_name;
  file_url = file_url;
  file_size = 0;
  recording_start_time = none;
  chapters = [];
  created_at = now;
  updated_at = now;
}

-- `createRecordingMetadata`
unfoldable pub create_recording_metadata :
    Text → Text → Text → ℕ → Option ℕ → ℕ → Bool → Bucket → Bucket
unfolding save_recording_metadata
create_recording_metadata room file_name file_url file_size start now fails bucket =
    let m : RecordingMetadata = record (blank_metadata room file_name file_url now) {
      file_size = file_size;
      recording_start_time = start;
    } in
    (save_recording_metadata room m fails bucket).0

-- `updateRecordingChapters`
unfoldable pub update_recording_chapters :
    Text → Text → Text → List VideoChapter → ℕ → Bool → Bool → Bucket → Bucket × Bool
unfolding get_recording_metadata save_recording_metadata
update_recording_chapters room file_name file_url chapters now read_fails write_fails bucket =
    let found = get_recording_metadata room file_name read_fails bucket in
    let m = option_or found (blank_metadata room file_name file_url now) in
    save_recording_metadata room (record m { chapters = chapters; updated_at = now }) write_fails
      bucket

-- `getRecordingChapters`
unfoldable pub get_recording_chapters : Text → Text → Bool → Bucket → List VideoChapter
unfolding get_recording_metadata
get_recording_chapters room file_name fails bucket =
    elim (get_recording_metadata room file_name fails bucket) [ none ↦ [] | some m ↦ m.chapters ]

-- A chapter of the answer of the retrieval server, with its label.
pub record RawChapter : Type 0 where
  pub title : Text
  pub start_time : ℕ

unfoldable next_start : List RawChapter → Option ℕ
next_start [] = none
next_start (c ∷ cs) = some c.start_time

-- The chapters of `fetchAndSaveChaptersFromRAG`: each ends where the next begins.
unfoldable pub to_chapters : List RawChapter → List VideoChapter
unfolding next_start
to_chapters [] = []
to_chapters (c ∷ cs) =
    record { title = c.title; start_time = c.start_time; end_time = next_start cs } ∷ to_chapters cs

-- The metadata with other chapters.
abbrev with_chapters : List VideoChapter → ℕ → RecordingMetadata → RecordingMetadata
with_chapters chapters now old = record old { chapters = chapters; updated_at = now }

-- What `update_recording_chapters` stores, after what it has read.
pub update_recording_chapters_lem :
    (room file_name file_url : Text) (chapters : List VideoChapter) (now : ℕ) (read_fails : Bool)
    (bucket : Bucket) {found : Option RecordingMetadata}
    → get_recording_metadata room file_name read_fails bucket ≡ found
    → (option_or found (blank_metadata room file_name file_url now)).file_name ≡ file_name
    → let old = option_or found (blank_metadata room file_name file_url now) in
      let result =
        update_recording_chapters room file_name file_url chapters now read_fails false bucket in
      (result.1 ≡ true)
      × (get (get_metadata_s3_key room file_name) result.0 ≡ some (with_chapters chapters now old))
unfolding update_recording_chapters save_recording_metadata get_recording_metadata
update_recording_chapters_lem room file_name file_url chapters now read_fails bucket {found} read
      same =
    let stored = λ (o : Option RecordingMetadata).
      with_chapters chapters now (option_or o (blank_metadata room file_name file_url now)) in
    let m = stored (get_recording_metadata room file_name read_fails bucket) in
    let name : m.file_name ≡ file_name = ap (λ o. (stored o).file_name) read ∙ same in
    let here =
      subst
        (λ n.
          get (get_metadata_s3_key room n) (set (get_metadata_s3_key room m.file_name) m bucket)
          ≡ some m)
        name (get-set_self (get_metadata_s3_key room m.file_name) m bucket) in
    (refl, here ∙ ap (λ o. some (stored o)) read)

read_uploaded :
    (room file_name file_url : Text) (file_size created : ℕ) (start : Option ℕ) (bucket : Bucket)
    → get_recording_metadata room file_name false
        (create_recording_metadata room file_name file_url file_size start created false bucket)
      ≡ some (record (blank_metadata room file_name file_url created) {
        file_size = file_size;
        recording_start_time = start;
      })
unfolding create_recording_metadata save_recording_metadata get_recording_metadata
read_uploaded room file_name file_url file_size created start bucket =
    get-set_self (get_metadata_s3_key room file_name) _ bucket

read_failed :
    (room file_name : Text) (bucket : Bucket)
    → get_recording_metadata room file_name true bucket ≡ none
unfolding get_recording_metadata
read_failed room file_name bucket = refl

-- What an update does to the metadata of a recording that was uploaded.
pub create-update_recording_chapters :
    (room file_name file_url : Text) (file_size created now : ℕ) (start : Option ℕ)
    (chapters : List VideoChapter) (bucket : Bucket)
    → let uploaded =
        create_recording_metadata room file_name file_url file_size start created false bucket in
      let key = get_metadata_s3_key room file_name in
      let (good, good_saved) =
        update_recording_chapters room file_name file_url chapters now false false uploaded in
      let (bad, bad_saved) =
        update_recording_chapters room file_name file_url chapters now true false uploaded in
      ((good_saved ≡ true)
        × (get key good
            ≡ some (record (blank_metadata room file_name file_url created) {
              file_size = file_size;
              recording_start_time = start;
              chapters = chapters;
              updated_at = now;
            })))
      × ((bad_saved ≡ true)
          × (get key bad
              ≡ some (record (blank_metadata room file_name file_url now) { chapters = chapters })))
create-update_recording_chapters room file_name file_url file_size created now start chapters
      bucket =
    let uploaded =
      create_recording_metadata room file_name file_url file_size start created false bucket in
    (
      update_recording_chapters_lem room file_name file_url chapters now false uploaded
          (read_uploaded room file_name file_url file_size created start bucket) refl,
      update_recording_chapters_lem room file_name file_url chapters now true uploaded
          (read_failed room file_name uploaded) refl,
    )
