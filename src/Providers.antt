-- ===== src/Providers.antt =====
-- app/providers.py: the calls of the S3 client, how their failures are classified, and the checks
-- on object metadata.
pub mod Metadata
pub mod Endpoint
pub mod Results
pub mod Configs
use Prim.Native.Nat.{◌+◌}
use Metadata.{ObjectMetadata}
use ctyun_zos.Prelude.{
  ℕ, Bool, true, false, ◌||◌, Option, none, some, List, [], ◌∷◌, leb, ◌==◌, if◌then◌else◌, any,
  Text, codes, text_eq,
}
use ctyun_zos.Data.{
  Code, upload_failed, upload_confirmation_failed, storage_timeout, delete_pending, delete_failed,
}
use ctyun_zos.World.{
  Env, World, Action, Result, ok, raised, Exn, provider_error, Provider, NetworkError,
  connect_timeout, read_timeout, endpoint_connection, connection_closed, name_resolution,
  ClientOutcome, returned, network_error, client_error, other_error, HeadResponse, headed, uploaded,
  deleted_object,
}

abbrev pub has_status : ℕ → Option ℕ → Bool
has_status n none = false
has_status n (some s) = s == n

-- isinstance(status, int) and status >= 500
abbrev pub is_server_error : Option ℕ → Bool
is_server_error none = false
is_server_error (some s) = leb 500 s

-- status == 404 or code in {"404", "NoSuchKey", "NotFound"}
abbrev pub is_missing_code : Option Text → Bool
is_missing_code none = false
is_missing_code (some c) = any (text_eq c) (codes "404" ∷ codes "NoSuchKey" ∷ codes "NotFound" ∷ [])

abbrev pub metadata_of : HeadResponse → ℕ → ObjectMetadata
metadata_of r size = record {
  size_bytes = size;
  etag = r.etag;
  version_id = r.version_id;
  content_type = r.content_type;
  last_modified = r.last_modified;
}

-- The result of `head_object`, by how the client's call ended. A closed connection and a failed
-- name resolution are not named there, and fall to the last clause.
unfoldable pub head_result : ClientOutcome HeadResponse → Result (Option ObjectMetadata)
head_result (returned r) = elim r.content_length [
  | none ↦ raised (provider_error upload_confirmation_failed true)
  | some size ↦ ok (some (metadata_of r size))
]
head_result (network_error connection_closed) =
    raised (provider_error upload_confirmation_failed true)
head_result (network_error name_resolution) =
    raised (provider_error upload_confirmation_failed true)
head_result (network_error _) = raised (provider_error storage_timeout true)
head_result (client_error status code) =
    if has_status 404 status || is_missing_code code
    then ok none
    else raised (provider_error upload_confirmation_failed true)
head_result other_error = raised (provider_error upload_confirmation_failed true)

unfoldable pub upload_result : ClientOutcome (Unit {0}) → Result (Unit {0})
upload_result (returned _) = ok tt
upload_result (network_error _) = raised (provider_error storage_timeout true)
upload_result (client_error status _) =
    raised (provider_error upload_failed (is_server_error status))
upload_result other_error = raised (provider_error upload_failed true)

unfoldable pub delete_result : ClientOutcome (Unit {0}) → Result (Unit {0})
delete_result (returned _) = ok tt
delete_result (network_error _) = raised (provider_error delete_pending true)
delete_result (client_error status _) =
    if is_server_error status
    then raised (provider_error delete_pending true)
    else raised (provider_error delete_failed false)
delete_result other_error = raised (provider_error delete_pending true)

module _ (env : Env) where
  unfoldable pub head_object : Provider → Text → Option ℕ → Action (Option ObjectMetadata)
  head_object p key version w =
      let reply = env.head w.draws p key version in
      (
        head_result reply,
        record w { trace = headed key version reply ∷ w.trace; draws = w.draws + 1 },
      )

  unfoldable pub upload_file : Provider → Text → Action (Unit {0})
  upload_file p key w =
      let reply = env.upload w.draws p key in
      (upload_result reply, record w { trace = uploaded key reply ∷ w.trace; draws = w.draws + 1 })

  unfoldable pub delete_object : Provider → Text → Option ℕ → Action (Unit {0})
  delete_object p key version w =
      let reply = env.delete w.draws p key version in
      (
        delete_result reply,
        record w { trace = deleted_object key version reply ∷ w.trace; draws = w.draws + 1 },
      )
