-- ===== src/Gridfs/Gfs.antt =====
-- gridfs/file.rs: `GfsFile`, the document of a file in the collection of files. `none` is a panic.
use old_mongo_rust_driver.Prelude.{
  ℕ, ◌≡◌, refl, sym, subst, Option, none, some, List, [], if◌then◌else◌,
}
use old_mongo_rust_driver.Prelude.Int.{ℤ, pos}
use old_mongo_rust_driver.Prelude.Text.{Text, text, text_eq}
use old_mongo_rust_driver.Bson.{
  Bson, object_id, string, i32, i64, utc_datetime, binary, Document, end, field, get,
}

-- Seconds since the epoch.
abbrev pub Date : Type 0
Date = ℤ

pub record GfsFile : Type 0 where
  pub len : ℤ
  pub md5 : Text
  pub id : ℕ
  pub chunk_size : ℤ
  pub aliases : List Text
  pub name : Option Text
  pub upload_date : Option Date
  pub content_type : Option Text
  pub metadata : Option (List ℕ)

-- DEFAULT_CHUNK_SIZE
abbrev pub default_chunk_size : ℤ
default_chunk_size = pos 261120

unfoldable pub new : ℕ → GfsFile
new id = record {
  len = pos 0;
  md5 = [];
  id = id;
  chunk_size = default_chunk_size;
  aliases = [];
  name = none;
  upload_date = none;
  content_type = none;
  metadata = none;
}

unfoldable pub with_name : Text → ℕ → GfsFile
with_name name id = record {
  len = pos 0;
  md5 = [];
  id = id;
  chunk_size = default_chunk_size;
  aliases = [];
  name = some name;
  upload_date = none;
  content_type = none;
  metadata = none;
}

-- `Document::insert`: a new key comes last.
unfoldable pub insert : Text → Bson → Document → Document
insert k v end = field k v end
insert k v (field j w rest) = if text_eq j k then field j v rest else field j w (insert k v rest)

-- The fields of a document are read by their kind, in the order of the source.
unfoldable pub read_name : Option Bson → GfsFile → GfsFile
read_name (some (string name)) f = record f { name = some name }
read_name _ f = f

unfoldable pub read_chunk_size : Option Bson → GfsFile → GfsFile
read_chunk_size (some (i32 size)) f = record f { chunk_size = size }
read_chunk_size _ f = f

unfoldable pub read_upload_date : Option Bson → GfsFile → GfsFile
read_upload_date (some (utc_datetime date)) f = record f { upload_date = some date }
read_upload_date _ f = f

unfoldable pub read_length : Option Bson → GfsFile → GfsFile
read_length (some (i64 len)) f = record f { len = len }
read_length _ f = f

unfoldable pub read_md5 : Option Bson → GfsFile → GfsFile
read_md5 (some (string hash)) f = record f { md5 = hash }
read_md5 _ f = f

unfoldable pub read_content_type : Option Bson → GfsFile → GfsFile
read_content_type (some (string t)) f = record f { content_type = some t }
read_content_type _ f = f

unfoldable pub read_metadata : Option Bson → GfsFile → GfsFile
read_metadata (some (binary _ m)) f = record f { metadata = some m }
read_metadata _ f = f

unfoldable pub read_fields : Document → GfsFile → GfsFile
unfolding read_name read_chunk_size read_upload_date read_length read_md5 read_content_type
    read_metadata
read_fields d f = read_metadata (get (text "metadata") d) (
    read_content_type (get (text "contentType") d) (
      read_md5 (get (text "md5") d) (
        read_length (get (text "length") d) (
          read_upload_date (get (text "uploadDate") d)
            (read_chunk_size (get (text "chunkSize") d) (read_name (get (text "filename") d) f))))))

unfoldable pub with_id : Option Bson → Document → Option GfsFile
unfolding read_fields new
with_id (some (object_id id)) d = some (read_fields d (new id))
with_id _ d = none

unfoldable pub with_doc : Document → Option GfsFile
unfolding with_id
with_doc d = with_id (get (text "_id") d) d

abbrev pub add_text : Text → Option Text → Document → Document
add_text k none d = d
add_text k (some t) d = insert k (string t) d

abbrev pub add_metadata : Option (List ℕ) → Document → Document
add_metadata none d = d
add_metadata (some m) d = insert (text "metadata") (binary 0 m) d

unfoldable pub dated_doc : Date → GfsFile → Document
unfolding insert
dated_doc date f = add_metadata f.metadata (
    add_text (text "contentType") f.content_type (
      add_text (text "filename") f.name (
        field (text "_id") (object_id f.id) (
          field (text "chunkSize") (i32 f.chunk_size) (
            field (text "length") (i64 f.len) (
              field (text "md5") (string f.md5)
                (field (text "uploadDate") (utc_datetime date) end)))))))

unfoldable pub dated : Option Date → GfsFile → Option Document
unfolding dated_doc
dated none f = none
dated (some date) f = some (dated_doc date f)

unfoldable pub to_bson : GfsFile → Option Document
unfolding dated
to_bson f = dated f.upload_date f

-- What is in the document of a file: all but its aliases.
abbrev stored : GfsFile → Date → Option Text → Option Text → Option (List ℕ) → GfsFile
stored f date name content_type metadata = record f {
  aliases = [];
  upload_date = some date;
  name = name;
  content_type = content_type;
  metadata = metadata;
}

stored_lem :
    (f : GfsFile) (date : Date) (n c : Option Text) (m : Option (List ℕ))
    → with_doc (dated_doc date (stored f date n c m)) ≡ some (stored f date n c m)
unfolding with_doc dated_doc get text_eq
stored_lem f date none none none = refl
stored_lem f date none none (some m) = refl
stored_lem f date none (some c) none = refl
stored_lem f date none (some c) (some m) = refl
stored_lem f date (some n) none none = refl
stored_lem f date (some n) none (some m) = refl
stored_lem f date (some n) (some c) none = refl
stored_lem f date (some n) (some c) (some m) = refl

-- Reading the document back.
abbrev pub read_back : Option Document → Option GfsFile
read_back none = none
read_back (some d) = with_doc d

-- The file that is made of a dated file's document is the file with all its fields but its aliases (without
-- a date the source panics).
pub with_doc-to_bson :
    (f : GfsFile) (date : Date)
    → f.upload_date ≡ some date
    → read_back (to_bson f) ≡ some (record f { aliases = []; upload_date = some date })
unfolding to_bson
with_doc-to_bson f date e =
    subst (λ o. read_back (dated o f) ≡ some (record f { aliases = []; upload_date = some date }))
      (sym e) (stored_lem f date f.name f.content_type f.metadata)
