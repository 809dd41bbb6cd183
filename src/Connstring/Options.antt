-- ===== src/Connstring/Options.antt =====
-- connstring.rs: the parsing of the options.
use old_mongo_rust_driver.Prelude.{
  ℕ, not, ◌&&◌, Option, none, some, List, [], ◌∷◌, ◌++◌, if◌then◌else◌,
}
use old_mongo_rust_driver.Prelude.Text.{Text, text, text_eq}
use old_mongo_rust_driver.Error.{argument_error, Result, ok, err}
use old_mongo_rust_driver.Connstring.Find.{contains, partition, split, to_ascii_lowercase}
use old_mongo_rust_driver.Connstring.Data.{ConnectionOptions, insert}

abbrev pub put_option : Text × Text → ConnectionOptions → ConnectionOptions
put_option (key, val) o =
    if text_eq (to_ascii_lowercase key) (text "readpreferencetags")
    then record o { read_pref_tags = o.read_pref_tags ++ val ∷ [] }
    else record o { options = insert key val o.options }

unfoldable pub put_options : List Text → ConnectionOptions → ConnectionOptions
put_options [] o = o
put_options (opt ∷ opts) o = put_options opts (put_option (partition opt (text "=")) o)

abbrev pub opt_list : Text → Option ℕ → List Text
opt_list opts (some delim) = split delim opts
opt_list opts none = opts ∷ []

unfoldable pub parse_options : Text → Option ℕ → ConnectionOptions
parse_options opts delim =
    put_options (opt_list opts delim) (record { options = []; read_pref_tags = [] })

unfoldable pub split_options : Text → Result ConnectionOptions
split_options opts =
    let ampersand = contains opts (text "&") in
    let semicolon = contains opts (text ";") in
    if ampersand && semicolon
    then err (argument_error "Cannot mix '&' and ';' for option separators.")
    else if ampersand
    then ok (parse_options opts (some b'&'))
    else if semicolon
    then ok (parse_options opts (some b';'))
    else if not (contains opts (text "="))
    then err (argument_error "InvalidURI: MongoDB URI options are key=value pairs.")
    else ok (parse_options opts none)
