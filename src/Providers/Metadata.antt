-- ===== src/Providers/Metadata.antt =====
-- app/providers.py: `ObjectMetadata` and the two checks on it.
use ctyun_zos.Prelude.{
  ℕ, Bool, true, false, ◌&&◌, Option, none, some, [], ◌∷◌, ◌==◌, if◌then◌else◌, Text, text_eq,
}
use ctyun_zos.Data.{object_size_mismatch, upload_confirmation_failed}
use ctyun_zos.World.{Result, ok, raised, provider_error}

pub record ObjectMetadata : Type 0 where
  pub size_bytes : ℕ
  pub etag : Option Text
  pub version_id : Option ℕ
  pub content_type : Option Text
  pub last_modified : Option ℕ

-- `not metadata.etag` is false
abbrev pub has_etag : Option Text → Bool
has_etag none = false
has_etag (some []) = false
has_etag (some (_ ∷ _)) = true

unfoldable pub require_upload_metadata : ObjectMetadata → ℕ → Result (Unit {0})
require_upload_metadata metadata expected_size =
    if metadata.size_bytes == expected_size
    then (if has_etag metadata.etag
        then ok tt
        else raised (provider_error upload_confirmation_failed true))
    else raised (provider_error object_size_mismatch true)

abbrev pub same_size : Option ℕ → ℕ → Bool
same_size none actual = false
same_size (some n) actual = actual == n

abbrev pub same_etag : Option Text → Option Text → Bool
same_etag (some expected) (some actual) = text_eq actual expected
same_etag _ _ = false

-- A missing expected version accepts any version.
abbrev pub same_version : Option ℕ → Option ℕ → Bool
same_version none _ = true
same_version (some expected) (some actual) = actual == expected
same_version (some _) none = false

unfoldable pub matches_object_metadata : ObjectMetadata → Option ℕ → Option Text → Option ℕ → Bool
matches_object_metadata metadata size etag version =
    same_size size metadata.size_bytes
    && same_etag etag metadata.etag
    && same_version version metadata.version_id
