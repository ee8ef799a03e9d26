-- ===== src/Settings.antt =====
-- The configuration from environment variables: NFTorrent/settings.py. The environment, the files
-- and the modules that it names, and the functions of Python on texts are parameters.
pub mod Types
pub mod Sections
pub mod Printed
mod Tests
use nft_torrent.Base.{
  ℕ, Bool, true, false, not, ◌&&◌, ◌||◌, Option, none, some, List, [], ◌∷◌, if◌then◌else◌,
}
use nft_torrent.Base.Int.{ℤ}
use nft_torrent.Base.Result.{Result, ok, err, ◌>>=◌, ◌>>◌, raise_if}
use Prim.Native.String.{String, ◌++◌ as append}
use text.Mathlib.Text.{◌==◌ as str_eq, starts_with}

pub data SettingsError : Type 0 where
  value_error import_error os_error attribute_error : SettingsError

-- `os.environ.get`, `int`, `lower`, `strip`, `split(",")` and `rsplit(".", 1)`; the stripped first
-- line of the file that a text names after its first five characters; and whether a module and an
-- attribute of it are there.
pub record Environ : Type 0 where
  pub getenv : String → Option String
  pub int : String → Option ℤ
  pub lower : String → String
  pub strip : String → String
  pub split : String → List String
  pub rsplit : String → Option (String × String)
  pub first_line : String → Result SettingsError String
  pub has_module : String → Bool
  pub has_attribute : String → String → Bool

-- `val in texts`
abbrev pub is_one_of : List String → String → Bool
is_one_of [] val = false
is_one_of (text ∷ texts) val = str_eq val text || is_one_of texts val

module _ (environ : Environ) where
  unfoldable pub strtobool : String → Result SettingsError Bool
  strtobool val =
      if is_one_of ("y" ∷ "yes" ∷ "t" ∷ "true" ∷ "on" ∷ "1" ∷ []) (environ.lower val)
      then ok true
      else if is_one_of ("n" ∷ "no" ∷ "f" ∷ "false" ∷ "off" ∷ "0" ∷ []) (environ.lower val)
      then ok false
      else err value_error

  abbrev pub imported : String → String × String → Result SettingsError (Option String)
  imported dotted_path (module_path, class_name) =
      raise_if (not (environ.has_module module_path)) import_error
      >> raise_if (not (environ.has_attribute module_path class_name)) import_error
      >> ok (some dotted_path)

  -- The object is told by its path.
  unfoldable pub import_string : Option String → Result SettingsError (Option String)
  import_string none = ok none
  import_string (some dotted_path) =
      if str_eq dotted_path "" then ok none else elim (environ.rsplit dotted_path) [
        | none ↦ err import_error
        | some parts ↦ imported dotted_path parts
      ]

  unfoldable pub value_from_file : Option String → Result SettingsError (Option String)
  value_from_file none = ok none
  value_from_file (some value) =
      if starts_with value "file:"
      then (environ.first_line value >>= λ line. ok (some line))
      else ok (some value)

  -- `os.environ.get(name, default)`
  abbrev pub env_text : String → String → String
  env_text name default = elim (environ.getenv name) [ none ↦ default | some value ↦ value ]

  abbrev pub as_int : String → Result SettingsError ℤ
  as_int value = elim (environ.int value) [ none ↦ err value_error | some n ↦ ok n ]

  -- `int(os.environ.get(name, default))`, for a default that is a number
  unfoldable pub int_of : String → ℤ → Result SettingsError ℤ
  int_of name default = elim (environ.getenv name) [ none ↦ ok default | some value ↦ as_int value ]

  unfoldable pub bool_of : String → String → Result SettingsError Bool
  bool_of name default = strtobool (env_text name default)

  abbrev pub stripped : List String → List String
  stripped [] = []
  stripped (x ∷ xs) =
      let rest = stripped xs in if str_eq (environ.strip x) "" then rest else environ.strip x ∷ rest

  -- `[x.strip() for x in os.environ.get(name, "").split(",") if x.strip()]`
  unfoldable pub list_of : String → List String
  list_of name = stripped (environ.split (env_text name ""))
