-- ===== src/Runtime/Storage/Checked.antt =====
-- What a candidate for the settings has passed.
use ctyun_zos.Prelude.{ℕ, ◌+◌, ◌≡◌, refl, inl, inr, Bool, Option, none, Text, arith, Option-cases}
use mathlib.Core.Path.{subst, ap}
use ctyun_zos.Values.{Fields, ProviderConfig, Credentials}
use ctyun_zos.Providers.Configs.{validate}
use ctyun_zos.Providers.Endpoint.{endpoint_error}
use ctyun_zos.World.{Env, World, Provider, Result, ok, raised, Action, pure, ◌>>=◌, continue}
use ctyun_zos.Runtime.Cache.{raise_some}
use ctyun_zos.Runtime.Storage.Payloads.{
  Candidate, Payload, Parsed, parse_payload, of_result, with_credentials, validated, completed,
  permit_endpoint, construct_provider, build_candidate, candidate_of, handle_of, make_client,
  candidate, with_latency, tested_candidate, test_connection, config_fields, credential_fields,
}

-- A chain that returns has returned at each step.
ok-continue :
    {A B : Type 0} (r : Result A) (f : A → Action B) (w : World) (b : B) (w' : World)
    → continue r f w ≡ (ok b, w')
    → (a : A) × (r ≡ ok a) × (f a w ≡ (ok b, w'))
ok-continue (ok a) f w b w' e = (a, refl, e)
ok-continue (raised x) f w b w' e = ground arith

pub ok-bind :
    {A B : Type 0} (m : Action A) (f : A → Action B) (w : World) (b : B) (w' : World)
    → (m >>= f) w ≡ (ok b, w')
    → (a : A) × ((m w).0 ≡ ok a) × (f a (m w).1 ≡ (ok b, w'))
ok-bind m f w b w' e = ok-continue (m w).0 f (m w).1 b w' e

module _ (env : Env) where
  -- The tests of a candidate.
  pub record IsChecked (p : Payload) (key : Option Text) (inherit : Bool) (w : World)
      (c : Candidate) : Type 0 where
    pub parts : Parsed
    pub fields : Fields
    pub draws : ℕ
    pub is_parsed : parse_payload p ≡ ok parts
    pub completes :
        (with_credentials env inherit key parts.provider_id parts.schema_version parts.config
          parts.given w).0
        ≡ ok fields
    pub is_valid : validate env parts.provider_id parts.config fields ≡ ok (c.config, c.credentials)
    pub is_permitted : endpoint_error env draws (env.endpoint (env.json_dumps c.config)) ≡ none
    pub provider : c.provider_id ≡ parts.provider_id
    pub version : c.schema_version ≡ parts.schema_version
    pub handle : c.handle ≡ handle_of env c.provider_id c.config c.credentials

  constructed :
      (provider : Text) (config : ProviderConfig) (credentials : Credentials) (w : World)
      (h : Provider)
      → (construct_provider env provider config credentials w).0 ≡ ok h
      → h ≡ handle_of env provider config credentials
  constructed provider config credentials w h e =
      let again =
        of_result (validate env provider (config_fields config) (credential_fields credentials)) in
      let handle = handle_of env provider config credentials in
      let w' = (construct_provider env provider config credentials w).1 in
      let (n, _, g) = ok-bind again (make_client env handle) w h w' (ap (λ r. (r, w')) e) in
      let (_, _, f) =
        ok-bind (λ v. raise_some (env.client v.draws n.0 n.1) (record v { draws = v.draws + 1 }))
          (λ _. pure handle) w h w' g in
      ground arith

  permitted :
      (config : ProviderConfig) (w : World) (u : Unit {0})
      → (permit_endpoint env config w).0 ≡ ok u
      → endpoint_error env w.draws (env.endpoint (env.json_dumps config)) ≡ none
  permitted config w u e =
      elim (Option-cases (endpoint_error env w.draws (env.endpoint (env.json_dumps config)))) [
        | inl n ↦ n
        | inr x ↦ ground arith
      ]

  pub candidate-IsChecked :
      (p : Payload) (key : Option Text) (inherit : Bool) (w : World) (c : Candidate) (w' : World)
      → candidate env p key inherit w ≡ (ok c, w')
      → IsChecked p key inherit w c
  unfolding candidate
  candidate-IsChecked p key inherit w c w' e =
      let (q, e0, g0) =
        ok-bind (of_result (parse_payload p)) (completed env key inherit) w c w' e in
      let give = with_credentials env inherit key q.provider_id q.schema_version q.config q.given in
      let (fields, e1, g1) = ok-bind give (validated env q) w c w' g0 in
      let w1 = (give w).1 in
      let (n, e2, g2) =
        ok-bind (of_result (validate env q.provider_id q.config fields))
          (build_candidate env q.provider_id q.schema_version) w1 c w' g1 in
      let (u, e3, g3) =
        ok-bind (permit_endpoint env n.0)
          (λ _. construct_provider env q.provider_id n.0 n.1 >>= λ handle.
            pure (candidate_of q.provider_id q.schema_version n handle))
          w1 c w' g2 in
      let w2 = (permit_endpoint env n.0 w1).1 in
      let (h, e4, g4) =
        ok-bind (construct_provider env q.provider_id n.0 n.1)
          (λ handle. pure (candidate_of q.provider_id q.schema_version n handle)) w2 c w' g3 in
      let made = candidate_of q.provider_id q.schema_version n h in
      let built : h ≡ handle_of env q.provider_id n.0 n.1 =
        constructed q.provider_id n.0 n.1 w2 h e4 in
      let same : made ≡ c = ground arith in
      subst (IsChecked p key inherit w) same (record {
        parts = q;
        fields = fields;
        draws = w1.draws;
        is_parsed = e0;
        completes = e1;
        is_valid = e2;
        is_permitted = permitted n.0 w1 u e3;
        provider = refl;
        version = refl;
        handle = built;
      })

  pub tested_candidate-IsChecked :
      (p : Payload) (key : Option Text) (inherit : Bool) (w : World) (c : Candidate) (latency : ℕ)
      (w' : World)
      → tested_candidate env p key inherit w ≡ (ok (c, latency), w')
      → IsChecked p key inherit w c
  unfolding tested_candidate
  tested_candidate-IsChecked p key inherit w c latency w' e =
      let (d, e0, g0) =
        ok-bind (candidate env p key inherit) (with_latency env) w (c, latency) w' e in
      let w1 = (candidate env p key inherit w).1 in
      let checked = candidate-IsChecked p key inherit w d w1 (ap (λ r. (r, w1)) e0) in
      let (l, e1, g1) =
        ok-bind (test_connection env d.handle) (λ l. pure (d, l)) w1 (c, latency) w' g0 in
      let same : d ≡ c = ground arith in subst (IsChecked p key inherit w) same checked
