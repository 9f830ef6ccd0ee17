-- ===== src/Approval/Verifier.antt =====
-- governance/identity.py: `IdentityVerifier`, which binds a provider's claims to a trust domain, a
-- subject and the roles of the policy. The provider is outside of the program: a function.
use computational_governance.Prelude.{
  String, ℤ, Bool, false, ◌||◌, not, Option, none, some, List, [], ◌∷◌, Dict, lookup, keys, values,
  if◌then◌else◌, ◌==◌, ◌<>◌, any, keep, sort_by, update, is_some,
}
use mathlib.Core.List.{map}
use computational_governance.Decimal.{repr}
use computational_governance.Errors.{identity_error, Try, ok, raise, ◌>>=◌}
use computational_governance.Json.{Json}
use computational_governance.Model.{is_empty}
use computational_governance.Approval.{VerifiedIdentity}
use computational_governance.Approval.Manager.{join_comma, is_valid_at}
use computational_governance.Approval.Identity.{from_provider}

-- A credential, which only the provider reads, and the provider's `verify`.
abbrev pub Provider : Type 0
Provider = Option Json → ℤ → Try VerifiedIdentity

pub record IdentityVerifier : Type 0 where
  pub provider : Provider
  pub trust_domain : String
  pub role_mapping : Dict String

-- `IdentityVerifier(...)`
unfoldable pub make_verifier : Provider → String → Dict String → Try IdentityVerifier
make_verifier provider trust_domain role_mapping =
    if trust_domain == ""
    then raise (identity_error "trust domain must be a non-empty string")
    else if any (λ role. role == "") (keys role_mapping)
        || any (λ role. role == "") (values role_mapping)
    then raise (identity_error "identity role mappings must use non-empty strings")
    else ok
        (record { provider = provider; trust_domain = trust_domain; role_mapping = role_mapping })

abbrev role_or_empty : Option String → String
role_or_empty none = ""
role_or_empty (some role) = role

-- The mapped roles, without repetition and sorted; every role has to be mapped.
unfoldable pub mapped_roles : Dict String → List String → Try (List String)
mapped_roles [] roles = ok roles
mapped_roles (entry ∷ entries) roles =
    let mapping = entry ∷ entries in
    let unknown =
      sort_by (λ r. r) (update [] (keep (λ r. not (is_some (lookup r mapping))) roles)) in
    if not (is_empty unknown)
    then raise (
        identity_error
          ("identity contains unmapped roles [" <> join_comma (map repr unknown) <> "]"))
    else ok (sort_by (λ r. r) (update [] (map (λ r. role_or_empty (lookup r mapping)) roles)))

module _ (digest : Json → String) where
  -- The checks of the claims, after the provider has returned them.
  unfoldable pub bind_claims :
      IdentityVerifier → Option String → ℤ → VerifiedIdentity → Try VerifiedIdentity
  unfolding mapped_roles from_provider
  bind_claims self actor_id now identity =
      if not (identity.trust_domain == self.trust_domain)
      then raise (
          identity_error
            ("identity trust domain " <> repr identity.trust_domain <> " is not trusted"))
      else if other_subject actor_id
      then raise (identity_error "verified identity subject does not match actor")
      else if not (is_valid_at digest identity now)
      then raise (identity_error "identity is not valid at the decision time")
      else mapped_roles self.role_mapping identity.roles >>= λ roles.
          from_provider (record identity { roles = roles })
    where
      other_subject : Option String → Bool
      other_subject none = false
      other_subject (some id) = not (identity.subject == id)

  -- `IdentityVerifier.verify`
  unfoldable pub verify : IdentityVerifier → Option Json → Option String → ℤ → Try VerifiedIdentity
  unfolding bind_claims
  verify self credential actor_id now =
      self.provider credential now >>= λ identity. bind_claims self actor_id now identity
