-- ===== src/Archive.antt =====
-- What the archive validators share: the members that `tarfile` reads, and the limits that the
-- environment may set.
pub mod Limits
pub mod Checkpoint
mod Tests
use chromium_compile.Prelude.{
  ℕ, ◌+◌, String, Bool, true, false, List, [], ◌∷◌, Option, none, some, ltb, eqb, if◌then◌else◌,
}
use chromium_compile.Result.{Result, raise, ok, value_error}
use chromium_compile.Json.{show}

-- `negsuc n` is -(n + 1).
pub data ℤ : Type 0 where
  pos : ℕ → ℤ
  negsuc : ℕ → ℤ

-- What `isreg`, `isdir`, `issym` and `islnk` say of a member; `special` is none of them.
pub data Kind : Type 0 where
  regular directory symlink hardlink special : Kind

pub record Member : Type 0 where
  pub name : String
  pub kind : Kind
  pub size : ℤ
  pub linkname : String
  pub mode : ℕ

-- The members in the order of the archive, and whether the reading ends well after them
pub record Archive : Type 0 where
  pub members : List Member
  pub ending : Result (Unit {0})

pub record Stats : Type 0 where
  pub member_count : ℕ
  pub unpacked_bytes : ℕ

-- A member's size, which must not be negative
abbrev pub size_of : ℤ → Result ℕ
size_of (pos n) = ok n
size_of (negsuc n) = raise value_error "negative size"

-- `value <= 0`, `value > hard_max`
abbrev pub bounded : ℤ → ℕ → Result ℕ
bounded (negsuc n) hard_max = raise value_error "must be positive"
bounded (pos n) hard_max =
    if eqb n 0
    then raise value_error "must be positive"
    else if ltb hard_max n
    then raise value_error "must not exceed hard maximum"
    else ok n

-- `os.environ.get(name)`, and `int(raw)` where none is ValueError
pub record Environ : Type 0 where
  pub get : String → Option String
  pub to_int : String → Option ℤ

abbrev or_default : Option String → ℕ → String
or_default none n = show n
or_default (some raw) n = raw

-- `_positive_int_env`, `_env_limit`
unfoldable pub env_limit : Environ → String → ℕ → ℕ → Result ℕ
unfolding show
env_limit e name default hard_max = elim (e.to_int (or_default (e.get name) default)) [
  | none ↦ raise value_error "must be an integer"
  | some value ↦ bounded value hard_max
]

-- `_positive_limit`
unfoldable pub positive_limit : ℤ → ℕ → Result ℕ
positive_limit value hard_max = bounded value hard_max
