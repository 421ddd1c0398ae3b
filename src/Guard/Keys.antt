-- ===== src/Guard/Keys.antt =====
-- Who passes the tests of credentials (app/http.py).
use ctyun_zos.Prelude.{
  ◌≡◌, ◌⊎◌, true, Option, some, List, [], ◌∷◌, arith, any, all, if◌then◌else◌, text_eq, get_or,
  Text, codes, text_eq_iff,
}
use ctyun_zos.World.{ok, raised, other}
use ctyun_zos.Guard.{
  is_ascii, compare_digest, match_keys, valid_admin_key, match_clients, client_identity,
}

-- The key is listed.
abbrev pub IsListed : Text → List Text → Type 0
IsListed key [] = ⊥
IsListed key (k ∷ keys) = (key ≡ k) ⊎ IsListed key keys

-- The pair is listed.
abbrev pub IsClient : Text → Text → List (Text × Text) → Type 0
IsClient i key [] = ⊥
IsClient i key ((j, k) ∷ clients) = ((i ≡ j) × (key ≡ k)) ⊎ IsClient i key clients

IsListed-match_keys :
    (candidate : Text) (keys : List Text)
    → match_keys candidate keys ≡ ok true
    → IsListed candidate keys
unfolding match_keys compare_digest
IsListed-match_keys candidate [] e = cc
IsListed-match_keys candidate (k ∷ keys) e =
    ground (arith, text_eq_iff candidate k, IsListed-match_keys candidate keys)

IsClient-match_clients :
    (i key : Text) (clients : List (Text × Text))
    → match_clients i key clients ≡ ok true
    → IsClient i key clients
unfolding match_clients compare_digest
IsClient-match_clients i key [] e = cc
IsClient-match_clients i key ((j, k) ∷ clients) e =
    ground (arith, text_eq_iff i j, text_eq_iff key k, IsClient-match_clients i key clients)

-- A source is identified as a client only by the administrator's key, or if no client is
-- configured, or as a configured client that has given its own key.
pub client_identity_lem :
    (admin_key : Option Text) (client_id supplied who : Text) (admin_keys : List Text)
    (client_keys : List (Text × Text))
    → client_identity admin_key client_id supplied admin_keys client_keys ≡ ok (some who)
    → ((who ≡ codes "admin-dashboard") × IsListed (get_or admin_key []) admin_keys)
      ⊎ (((who ≡ codes "legacy") × (client_keys ≡ []))
          ⊎ ((who ≡ client_id) × IsClient client_id supplied client_keys))
unfolding client_identity valid_admin_key
client_identity_lem admin_key client_id supplied who admin_keys [] e =
    ground (arith, IsListed-match_keys (get_or admin_key []) admin_keys)
client_identity_lem admin_key client_id supplied who admin_keys (c ∷ client_keys) e = ground (
  arith,
  IsListed-match_keys (get_or admin_key []) admin_keys,
  IsClient-match_clients client_id supplied (c ∷ client_keys),
)

match_keys_lem :
    (candidate key : Text) (keys : List Text)
    → all is_ascii (key ∷ keys) ≡ true
    → match_keys candidate (key ∷ keys)
      ≡ (if is_ascii candidate then ok (any (text_eq candidate) (key ∷ keys)) else raised other)
unfolding match_keys compare_digest
match_keys_lem candidate key [] h = ground arith
match_keys_lem candidate key (k ∷ keys) h =
    let rest = match_keys_lem candidate k keys (ground arith) in ground arith

-- For expected keys of ASCII characters, of which there is at least one: a supplied key of ASCII
-- characters is valid if and only if it is one of them, wherever it stands in the list; a supplied
-- key with another character is answered by an exception.
pub valid_admin_key_lem :
    (supplied key : Text) (keys : List Text)
    → all is_ascii (key ∷ keys) ≡ true
    → valid_admin_key (some supplied) (key ∷ keys)
      ≡ (if is_ascii supplied then ok (any (text_eq supplied) (key ∷ keys)) else raised other)
unfolding valid_admin_key
valid_admin_key_lem supplied key keys h = match_keys_lem supplied key keys h
