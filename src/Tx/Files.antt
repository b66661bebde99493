-- ===== src/Tx/Files.antt =====
-- The files that the transmitter can send: the `/api/tx/files` routes of src/stream_web/app.py. The
-- directory TX_SOURCE_DIR is a list of names and contents, without directories in it, on a file system
-- that takes every name without a slash. A name is a list of code points, and the hash of a file is
-- Python's.
pub mod Sorted
pub mod Listing
use sdr_docker.Base.{
  ℕ, ◌≤◌, ◌≡◌, refl, ap₂, ◌∙◌, Bool, true, false, ◌&&◌, ◌||◌, ◌==◌, Option, none, some, List, [],
  ◌∷◌, length, any, ltb, if◌then◌else◌, arith, inl, inr, Bool-cases,
}
use sdr_docker.Config.{tx_max_upload_bytes}

-- The slash.
abbrev pub is_slash : ℕ → Bool
is_slash c = c == 47

-- `os.path.basename`: what follows the last slash.
pub basename : List ℕ → List ℕ
basename [] = []
basename (c ∷ cs) =
    let later = basename cs in if any is_slash cs then later else if is_slash c then cs else c ∷ cs

pub same_name : List ℕ → List ℕ → Bool
same_name [] [] = true
same_name [] (d ∷ ds) = false
same_name (c ∷ cs) [] = false
same_name (c ∷ cs) (d ∷ ds) = c == d && same_name cs ds

-- A name that is the directory itself, `.` or `..`: opening it for writing raises.
pub is_directory : List ℕ → Bool
unfolding same_name
is_directory name = same_name name [] || (same_name name (46 ∷ []) || same_name name (46 ∷ 46 ∷ []))

abbrev pub Files : Type 0
Files = List (List ℕ × List ℕ)

pub read_file : List ℕ → Files → Option (List ℕ)
unfolding same_name
read_file name [] = none
read_file name ((n, content) ∷ files) =
    if same_name n name then some content else read_file name files

pub write_file : List ℕ → List ℕ → Files → Files
unfolding same_name
write_file name content [] = (name, content) ∷ []
write_file name content ((n, old) ∷ files) =
    let later = (n, old) ∷ write_file name content files in
    if same_name n name then (n, content) ∷ files else later

pub remove_file : List ℕ → Files → Files
unfolding same_name
remove_file name [] = []
remove_file name ((n, content) ∷ files) =
    let later = (n, content) ∷ remove_file name files in if same_name n name then files else later

-- The reply of an upload, or the status of an error.
pub data UploadReply : Type 0 where
  refused : ℕ → UploadReply
  saved : (name : List ℕ) → (size : ℕ) → (sha256 : List ℕ) → UploadReply

module _ (sha256_of : List ℕ → List ℕ) where
  -- `none` is a request without the field `file`.
  pub api_tx_files_upload : Option (List ℕ × List ℕ) → Files → UploadReply × Files
  unfolding basename is_directory write_file
  api_tx_files_upload none files = (refused 400, files)
  api_tx_files_upload (some ([], content)) files = (refused 400, files)
  api_tx_files_upload (some (c ∷ cs, content)) files =
      let name = basename (c ∷ cs) in
      if ltb tx_max_upload_bytes (length content)
      then (refused 413, files)
      else if is_directory name
      then (refused 500, files)
      else (saved name (length content) (sha256_of content), write_file name content files)

-- The reply's status.
pub api_tx_files_delete : List ℕ → Files → ℕ × Files
unfolding basename read_file remove_file
api_tx_files_delete filename files = elim (read_file (basename filename) files) [
  | none ↦ (404, files)
  | some content ↦ (200, remove_file (basename filename) files)
]

basename_plain : (name : List ℕ) → any is_slash (basename name) ≡ false
unfolding basename
basename_plain [] = refl
basename_plain (c ∷ cs) = elim (Bool-cases (any is_slash cs)) [
  | inl more ↦ rw (more, basename) (basename_plain cs)
  | inr last ↦ elim (Bool-cases (is_slash c)) [
    | inl slash ↦ rw (last, basename, slash) last
    | inr other ↦ rw (last, basename, other) (ground arith)
  ]
]

same_name_refl : (name : List ℕ) → same_name name name ≡ true
unfolding same_name
same_name_refl [] = refl
same_name_refl (c ∷ cs) = ground (arith, same_name_refl cs)

same_name_trans : (a b c : List ℕ) → same_name a b ≡ true → same_name a c ≡ same_name b c
unfolding same_name
same_name_trans [] [] c h = refl
same_name_trans [] (d ∷ ds) c h = cc
same_name_trans (a ∷ xs) [] c h = cc
same_name_trans (a ∷ xs) (d ∷ ds) [] h = refl
same_name_trans (a ∷ xs) (d ∷ ds) (e ∷ es) h =
    let rest = same_name_trans xs ds es (ground arith) in ground (arith, rest)

same_name-eq : (a b : List ℕ) → same_name a b ≡ true → a ≡ b
unfolding same_name
same_name-eq [] [] h = refl
same_name-eq [] (d ∷ ds) h = cc
same_name-eq (a ∷ xs) [] h = cc
same_name-eq (a ∷ xs) (d ∷ ds) h =
    let first : a ≡ d = ground arith in ap₂ ◌∷◌ first (same_name-eq xs ds (ground arith))

different_name :
    (n name other : List ℕ)
    → same_name n name ≡ false
    → same_name n other ≡ true
    → same_name name other ≡ false
different_name n name other h k = elim (Bool-cases (same_name name other)) [
  | inl same ↦ cc (same_name-eq name other same, h, k)
  | inr differs ↦ differs
]

read_file-write_file :
    (name other content : List ℕ) (files : Files)
    → read_file other (write_file name content files)
      ≡ (if same_name name other then some content else read_file other files)
unfolding read_file write_file
read_file-write_file name other content [] = refl
read_file-write_file name other content ((n, old) ∷ files) = elim (Bool-cases (same_name n name)) [
  | inl here ↦
      let e = same_name_trans n name other here in
      elim (Bool-cases (same_name name other)) [
        | inl it ↦ rw (here, read_file, e, it) refl
        | inr else_ ↦ rw (here, read_file, e, else_) refl
      ]
  | inr later ↦
      let rest = read_file-write_file name other content files in
      elim (Bool-cases (same_name n other)) [
        | inl it ↦
            let differs = different_name n name other later it in
            rw (later, read_file, it, differs) refl
        | inr else_ ↦ rw (later, read_file, else_) rest
      ]
]

-- The outcome of an upload into the files `before`.
pub Uploaded : List ℕ → Files → UploadReply × Files → Type 0
unfolding same_name
Uploaded content before (refused status, after) = after ≡ before
Uploaded content before (saved name size sha, after) =
    (any is_slash name ≡ false)
    × (size ≡ length content)
    × (size ≤ tx_max_upload_bytes)
    × (read_file name after ≡ some content)
    × ((other : List ℕ)
        → same_name name other ≡ false
        → read_file other after ≡ read_file other before)

-- What an upload does: a reply that a file was saved means that reading its name gives the content,
-- that the name has no slash, that the size replied is that of the content and within the limit, and
-- that every other file is what it was; a refusal changes nothing.
pub api_tx_files_upload-Uploaded :
    (sha256_of : List ℕ → List ℕ) (filename content : List ℕ) (files : Files)
    → Uploaded content files (api_tx_files_upload sha256_of (some (filename, content)) files)
unfolding api_tx_files_upload Uploaded
api_tx_files_upload-Uploaded sha256_of [] content files = refl
api_tx_files_upload-Uploaded sha256_of (c ∷ cs) content files =
    elim (Bool-cases (ltb tx_max_upload_bytes (length content))) [
      | inl large ↦ rw (large) refl
      | inr fits ↦ elim (Bool-cases (is_directory (basename (c ∷ cs)))) [
        | inl directory ↦ rw (fits, directory) refl
        | inr file ↦
            rw (fits, file)
              (
                basename_plain (c ∷ cs),
                refl,
                ground arith,
                read_file-write_file (basename (c ∷ cs)) (basename (c ∷ cs)) content files
                    ∙ rw (same_name_refl (basename (c ∷ cs))) refl,
                (λ other h.
                    read_file-write_file (basename (c ∷ cs)) other content files ∙ rw (h) refl),
              )
      ]
    ]
