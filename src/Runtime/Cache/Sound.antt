-- ===== src/Runtime/Cache/Sound.antt =====
-- What a cache of providers holds (app/runtime.py): for each identifier of a configuration, the
-- provider that was constructed from it.
use ctyun_zos.Prelude.{
  ℕ, ◌≡◌, ◌∙◌, sym, ap, inl, inr, false, some, [], ◌∷◌, ◌++◌, ◌==◌, ==_iff, ltb, length, arith, All,
  Bool-cases, Option-cases,
}
use mathlib.Core.Path.{subst}
use ctyun_zos.Data.{StorageConfig}
use ctyun_zos.World.{Env, World, Provider, ok}
use ctyun_zos.Runtime.Cache.{
  Cache, get, remove, put_last, evict, cache_provider, provider_of, provider_for_record,
}

module _ (built : ℕ → Provider) where
  -- Every entry is the provider that `built` gives for its identifier.
  abbrev pub IsSound : Cache → Type 0
  IsSound cache = All (λ (e : ℕ × Provider). e.1 ≡ built e.0) cache

  IsSound-get :
      (i : ℕ) (cache : Cache) (p : Provider) → IsSound cache → get i cache ≡ some p → p ≡ built i
  unfolding get
  IsSound-get i [] p h e = ground arith
  IsSound-get i ((j, q) ∷ cache) p h e = elim (Bool-cases (j == i)) [
    | inl same ↦
        let found : q ≡ p = ground arith in sym found ∙ h.0 ∙ ap built ((==_iff j i).0 same)
    | inr other ↦ IsSound-get i cache p h.1 (ground arith)
  ]

  IsSound-remove : (i : ℕ) (cache : Cache) → IsSound cache → IsSound (remove i cache)
  unfolding remove
  IsSound-remove i [] h = tt
  IsSound-remove i ((j, q) ∷ cache) h = elim (Bool-cases (j == i)) [
    | inl same ↦ rw same (IsSound-remove i cache h.1)
    | inr other ↦ rw other (h.0, IsSound-remove i cache h.1)
  ]

  IsSound-append : (a b : Cache) → IsSound a → IsSound b → IsSound (a ++ b)
  IsSound-append [] b h k = k
  IsSound-append (e ∷ a) b h k = (h.0, IsSound-append a b h.1 k)

  IsSound-put_last :
      (i : ℕ) (p : Provider) (cache : Cache)
      → p ≡ built i
      → IsSound cache
      → IsSound (put_last i p cache)
  unfolding put_last
  IsSound-put_last i p cache e h =
      IsSound-append (remove i cache) ((i, p) ∷ []) (IsSound-remove i cache h) (e, tt)

  IsSound-evict : (max : ℕ) (cache : Cache) → IsSound cache → IsSound (evict max cache)
  unfolding evict
  IsSound-evict max [] h = tt
  IsSound-evict max (e ∷ cache) h = elim (Bool-cases (ltb max (length (e ∷ cache)))) [
    | inl more ↦ rw more (IsSound-evict max cache h.1)
    | inr fits ↦ rw fits h
  ]

  -- A lookup through the cache gives the provider of the configuration, and keeps the cache sound.
  pub provider_for_record-IsSound :
      (env : Env) (c : StorageConfig) (w : World) (p : Provider) (w' : World)
      → IsSound w.providers
      → built c.id ≡ provider_of false c
      → provider_for_record env c w ≡ (ok p, w')
      → (p ≡ provider_of false c) × IsSound w'.providers
  unfolding provider_for_record cache_provider
  provider_for_record-IsSound env c w p w' h made e = elim (Option-cases (get c.id w.providers)) [
    | inr (q, found) ↦
        let same : q ≡ p = ground arith in
        let right = IsSound-get c.id w.providers q h found in
        let after : put_last c.id q w.providers ≡ w'.providers = ground arith in
        (sym same ∙ right ∙ made, subst IsSound after (IsSound-put_last c.id q w.providers right h))
    | inl missing ↦
        let max = env.settings.provider_cache_max_entries in
        let now = provider_of false c in
        let same : p ≡ now = ground arith in
        let after : evict max (put_last c.id now w.providers) ≡ w'.providers = ground arith in
        (
          same,
          subst IsSound after (
              IsSound-evict max (put_last c.id now w.providers)
                (IsSound-put_last c.id now w.providers (sym made) h)),
        )
  ]
