-- ===== src/OnDisk/Compatible.antt =====
-- What `max_compatible_working_version` of ondisk/data_version.rs finds.
use databend_meta.Common.{◌≡◌, refl, arith, true}
use databend_meta.OnDisk.Version.{
  DataVersion, v0, v001, v002, v003, v004, version_leb, is_compatible,
  max_compatible_working_version,
}

-- The working version found for data on disk is compatible with them, and no compatible version is greater.
pub max_compatible_working_version-is_compatible :
    (v : DataVersion)
    → (is_compatible (max_compatible_working_version v) v ≡ true)
      × ((w : DataVersion)
          → is_compatible w v ≡ true
          → version_leb w (max_compatible_working_version v) ≡ true)
unfolding is_compatible max_compatible_working_version
max_compatible_working_version-is_compatible v0 = (refl, λ w h. ground arith)
max_compatible_working_version-is_compatible v001 = (refl, λ w h. ground arith)
max_compatible_working_version-is_compatible v002 = (refl, λ w h. ground arith)
max_compatible_working_version-is_compatible v003 = (refl, λ w h. ground arith)
max_compatible_working_version-is_compatible v004 = (refl, λ w h. ground arith)
