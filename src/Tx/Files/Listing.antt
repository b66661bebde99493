-- ===== src/Tx/Files/Listing.antt =====
-- The list of the transmitter's files: the GET of `/api/tx/files` in src/stream_web/app.py.
use sdr_docker.Base.{
  ℕ, ◌≡◌, refl, sym, ap, subst, ◌∙◌, Bool, true, false, Option, none, some, List, [], ◌∷◌, length,
  any, map, All, ltb, if◌then◌else◌, arith, inl, inr, Bool-cases, IsThere, Option-cases, All-imp,
}
use sdr_docker.Config.{tx_max_upload_bytes}
use sdr_docker.Tx.Files.{
  is_directory, basename, Files, same_name, read_file, UploadReply, refused, saved,
  api_tx_files_upload, Uploaded, api_tx_files_upload-Uploaded, same_name_refl, same_name-eq,
}
use sdr_docker.Tx.Files.Sorted.{
  sorted, Ascends, sorted-Ascends, any-sorted, All-sorted, length-put_name,
}

-- `os.listdir`.
pub names_of : Files → List (List ℕ)
names_of [] = []
names_of ((n, content) ∷ files) = n ∷ names_of files

pub record FileEntry : Type 0 where
  pub name : List ℕ
  pub size : ℕ
  pub sha256 : List ℕ

length-sorted-names_of : (files : Files) → length (sorted (names_of files)) ≡ length files
unfolding sorted names_of
length-sorted-names_of [] = refl
length-sorted-names_of ((n, content) ∷ files) =
    omega (arith, length-put_name n (sorted (names_of files)), length-sorted-names_of files)

-- A name that is not listed has no file, and every one that is has.
read_file-missing :
    (name : List ℕ) (files : Files)
    → any (λ n. same_name n name) (names_of files) ≡ false
    → read_file name files ≡ none
unfolding names_of read_file
read_file-missing name [] h = refl
read_file-missing name ((n, content) ∷ files) h = elim (Bool-cases (same_name n name)) [
  | inl here ↦ cc (rw (here) at h)
  | inr other ↦ rw (other) (read_file-missing name files (rw (other) at h))
]

read_file-more :
    (name n content : List ℕ) (files : Files)
    → IsThere (read_file name files)
    → IsThere (read_file name ((n, content) ∷ files))
unfolding read_file
read_file-more name n content files (c, e) = elim (Bool-cases (same_name n name)) [
  | inl here ↦ rw (here) (content, refl)
  | inr other ↦ rw (other) (c, e)
]

read_file-first :
    (n content : List ℕ) (files : Files) → IsThere (read_file n ((n, content) ∷ files))
unfolding read_file
read_file-first n content files = rw (same_name_refl n) (content, refl)

read_file-names_of : (files : Files) → All (λ n. IsThere (read_file n files)) (names_of files)
unfolding names_of
read_file-names_of [] = tt
read_file-names_of ((n, content) ∷ files) = (
  read_file-first n content files,
  All-imp (names_of files) (λ m there. read_file-more m n content files there)
      (read_file-names_of files),
)

-- The entry of a name in a list.
pub entry_of : List ℕ → List FileEntry → Option FileEntry
unfolding same_name
entry_of name [] = none
entry_of name (e ∷ es) = if same_name e.name name then some e else entry_of name es

module _ (sha256_of : List ℕ → List ℕ) where
  abbrev pub described : List ℕ → List ℕ → FileEntry
  described name content = record { name = name; size = length content; sha256 = sha256_of content }

  -- The entries of the names that are files.
  pub entries : List (List ℕ) → Files → List FileEntry
  unfolding read_file
  entries [] files = []
  entries (n ∷ ns) files =
      let later = entries ns files in
      elim (read_file n files) [ none ↦ later | some content ↦ described n content ∷ later ]

  pub api_tx_files_list : Files → List FileEntry
  unfolding entries sorted names_of
  api_tx_files_list files = entries (sorted (names_of files)) files

  -- What the files say of a name.
  abbrev pub file_of : List ℕ → Files → Option FileEntry
  file_of name files = elim (read_file name files) [
    | none ↦ none
    | some content ↦ some (described name content)
  ]

  file_of_missing :
      (name : List ℕ) (files : Files) (b : Bool)
      → read_file name files ≡ none
      → (if b then file_of name files else none) ≡ file_of name files
  file_of_missing name files true gone = refl
  file_of_missing name files false gone = rw (gone, file_of) refl

  file_of_found :
      (name content : List ℕ) (files : Files)
      → read_file name files ≡ some content
      → file_of name files ≡ some (described name content)
  file_of_found name content files found = rw (found, file_of) refl

  entry_of-entries :
      (name : List ℕ) (ns : List (List ℕ)) (files : Files)
      → entry_of name (entries ns files)
        ≡ (if any (λ n. same_name n name) ns then file_of name files else none)
  unfolding entry_of entries
  entry_of-entries name [] files = refl
  entry_of-entries name (n ∷ ns) files =
      let ih = entry_of-entries name ns files in
      elim (Option-cases (read_file n files)) [
        | inl missing ↦ elim (Bool-cases (same_name n name)) [
          | inl here ↦
              let gone : read_file name files ≡ none =
                subst (λ m. read_file m files ≡ none) (same_name-eq n name here) missing in
              rw (missing, entries) (rw (here) (ih ∙ file_of_missing name files _ gone))
          | inr other ↦ rw (missing, entries) (rw (other) ih)
        ]
        | inr (content, found) ↦ elim (Bool-cases (same_name n name)) [
          | inl here ↦
              let e = same_name-eq n name here in
              let found' : read_file name files ≡ some content =
                subst (λ m. read_file m files ≡ some content) e found in
              rw (found, entries, entry_of)
                (rw (here) (
                  ap (λ m. some (described m content)) e
                  ∙ sym (file_of_found name content files found')))
          | inr other ↦ rw (found, entries, entry_of) (rw (other) ih)
        ]
      ]

  map-entries :
      (ns : List (List ℕ)) (files : Files)
      → All (λ n. IsThere (read_file n files)) ns
      → map FileEntry.name (entries ns files) ≡ ns
  unfolding entries
  map-entries [] files h = refl
  map-entries (n ∷ ns) files ((content, found), h) =
      rw (found, entries, map) (ap (◌∷◌ n) (map-entries ns files h))

  -- The list has the names in order, as many as there are files, and of each name what the files say.
  pub record IsListing (files : Files) (list : List FileEntry) : Type 0 where
    pub in_order : Ascends (map FileEntry.name list)
    pub as_many : length (map FileEntry.name list) ≡ length files
    pub tells : (name : List ℕ) → entry_of name list ≡ file_of name files

  file_of_listed :
      (name : List ℕ) (files : Files)
      → (if any (λ n. same_name n name) (names_of files) then file_of name files else none)
        ≡ file_of name files
  file_of_listed name files = elim (Bool-cases (any (λ n. same_name n name) (names_of files))) [
    | inl there ↦ rw (there) refl
    | inr missing ↦ file_of_missing name files _ (read_file-missing name files missing)
  ]

  api_tx_files_list-IsListing : (files : Files) → IsListing files (api_tx_files_list files)
  unfolding api_tx_files_list
  api_tx_files_list-IsListing files =
      let names = map-entries (sorted (names_of files)) files (
        All-sorted (λ n. IsThere (read_file n files)) (names_of files)
          (read_file-names_of files)) in
      record {
        in_order = rw (names) (sorted-Ascends (names_of files));
        as_many = rw (names) (length-sorted-names_of files);
        tells = λ name.
            entry_of-entries name (sorted (names_of files)) files
            ∙ rw (any-sorted (λ n. same_name n name) (names_of files)) (file_of_listed name files);
      }

  -- A saved file's hash is that of the content.
  abbrev HasHash : List ℕ → UploadReply → Type 0
  HasHash content (refused status) = Unit
  HasHash content (saved name size sha256) = sha256 ≡ sha256_of content

  upload-HasHash :
      (filename content : List ℕ) (files : Files)
      → HasHash content (api_tx_files_upload sha256_of (some (filename, content)) files).0
  unfolding api_tx_files_upload
  upload-HasHash [] content files = tt
  upload-HasHash (c ∷ cs) content files =
      elim (Bool-cases (ltb tx_max_upload_bytes (length content))) [
        | inl large ↦ rw (large) tt
        | inr fits ↦ elim (Bool-cases (is_directory (basename (c ∷ cs)))) [
          | inl directory ↦ rw (fits, directory) tt
          | inr file ↦ rw (fits, file) refl
        ]
      ]

  -- The list after an upload into the files `before`: what was saved is listed as the reply says, and
  -- every other name as before; after a refusal the list is as before.
  pub Lists : Files → UploadReply × Files → Type 0
  Lists before (refused status, after) = api_tx_files_list after ≡ api_tx_files_list before
  Lists before (saved name size sha256, after) =
      (entry_of name (api_tx_files_list after)
        ≡ some (record { name = name; size = size; sha256 = sha256 }))
      × ((other : List ℕ)
          → same_name name other ≡ false
          → entry_of other (api_tx_files_list after) ≡ entry_of other (api_tx_files_list before))

  upload-Lists :
      (content : List ℕ) (before : Files) (r : UploadReply × Files)
      → Uploaded content before r
      → HasHash content r.0
      → Lists before r
  unfolding Uploaded Lists
  upload-Lists content before (refused status, after) same hash = ap api_tx_files_list same
  upload-Lists content before (saved name size sha256, after) (slash, size_is, fits, reads, others)
        hash =
      (
        (api_tx_files_list-IsListing after).tells name
            ∙ rw (size_is, hash) (file_of_found name content after reads),
        λ other differs.
            (api_tx_files_list-IsListing after).tells other
            ∙ (ap (λ o. elim o [ none ↦ none | some c ↦ some (described other c) ])
                  (others other differs)
                ∙ sym ((api_tx_files_list-IsListing before).tells other)),
      )

  -- After an upload, the list of the files has them in order of their names, as many as there are, and
  -- says of each name the size and the hash of its file. What was saved is listed with the size and the
  -- hash that the reply to the upload gives, and every other name as before; after a refusal the list
  -- is as before.
  pub api_tx_files_list-upload :
      (filename content : List ℕ) (files : Files)
      → let r = api_tx_files_upload sha256_of (some (filename, content)) files in
        IsListing r.1 (api_tx_files_list r.1) × Lists files r
  api_tx_files_list-upload filename content files =
      let r = api_tx_files_upload sha256_of (some (filename, content)) files in
      (
        api_tx_files_list-IsListing r.1,
        upload-Lists content files r (api_tx_files_upload-Uploaded sha256_of filename content files)
            (upload-HasHash filename content files),
      )
