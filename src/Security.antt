-- ===== src/Security.antt =====
-- app/security.py: the delete token. The digest is a parameter of the outside.
use ctyun_zos.Prelude.{
  ℕ, ◌+◌, Bool, false, not, ◌&&◌, ◌||◌, Option, none, some, ltb, leb, ◌==◌, if◌then◌else◌, any,
  length, Text,
}
use ctyun_zos.World.{Env, Action, ok}

-- any(ord(char) < 33 or ord(char) > 126 …) is false
abbrev pub is_printable : Text → Bool
is_printable s = not (any (λ c. ltb c 33 || ltb 126 c) s)

abbrev pub well_formed_token : Text → Bool
well_formed_token s = leb 1 (length s) && leb (length s) 256 && is_printable s

module _ (env : Env) where
  unfoldable pub issue_delete_token : Action (Text × ℕ)
  issue_delete_token w =
      let token = env.token w.draws in
      (ok (token, env.sha256 token), record w { draws = w.draws + 1 })

  unfoldable pub matches_delete_token : Option Text → Option ℕ → Bool
  matches_delete_token none _ = false
  matches_delete_token (some token) none = false
  matches_delete_token (some token) (some expected_hash) =
      if well_formed_token token then env.sha256 token == expected_hash else false
