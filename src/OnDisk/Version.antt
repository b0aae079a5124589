-- ===== src/OnDisk/Version.antt =====
-- ondisk/data_version.rs and ondisk/header.rs
use databend_meta.Common.{ℕ, zero, suc, Bool, true, false, ◌&&◌, Option, none, some, leb}

pub data DataVersion : Type 0 where
  v0 v001 v002 v003 v004 : DataVersion

-- The place in the derived `Ord`
abbrev pub rank : DataVersion → ℕ
rank v0 = 0
rank v001 = 1
rank v002 = 2
rank v003 = 3
rank v004 = 4

abbrev pub version_leb : DataVersion → DataVersion → Bool
version_leb a b = leb (rank a) (rank b)

unfoldable pub next : DataVersion → Option DataVersion
next v0 = some v001
next v001 = some v002
next v002 = some v003
next v003 = some v004
next v004 = none

unfoldable pub min_compatible_data_version : DataVersion → DataVersion
min_compatible_data_version v0 = v0
min_compatible_data_version v001 = v0
min_compatible_data_version v002 = v001
min_compatible_data_version v003 = v002
min_compatible_data_version v004 = v002

unfoldable pub is_compatible : DataVersion → DataVersion → Bool
unfolding min_compatible_data_version
is_compatible v on_disk =
    version_leb (min_compatible_data_version v) on_disk && version_leb on_disk v

-- The loop, with fuel; there are five versions, so five rounds are enough.
unfoldable pub climb : ℕ → DataVersion → DataVersion → DataVersion
unfolding next is_compatible
climb zero start working_version = working_version
climb (suc fuel) start working_version = elim (next working_version) [
  | none ↦ working_version
  | some v ↦ elim (is_compatible v start) [ true ↦ climb fuel start v | false ↦ working_version ]
]

unfoldable pub max_compatible_working_version : DataVersion → DataVersion
unfolding climb
max_compatible_working_version v = climb 5 v v

-- `DATA_VERSION`
abbrev pub data_version : DataVersion
data_version = v004

pub record Header : Type 0 where
  pub version : DataVersion
  pub upgrading : Option DataVersion
  pub cleaning : Bool

unfoldable pub this_version : Header
this_version = record { version = data_version; upgrading = none; cleaning = false }
