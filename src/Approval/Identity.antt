-- ===== src/Approval/Identity.antt =====
-- governance/identity.py: the checks of `VerifiedIdentity.__post_init__`, and `_from_provider`.
use computational_governance.Prelude.{
  String, true, false, not, List, [], ◌∷◌, if◌then◌else◌, ◌==◌, ◌<>◌, any, distinct, sort_by,
  le_int,
}
use computational_governance.Errors.{identity_error, Try, ok, raise, ◌>>=◌}
use computational_governance.Approval.{VerifiedIdentity}

-- The name of the first field that is empty, in the order of the checks.
abbrev pub refuse_empty : List (String × String) → Try (Unit {0})
refuse_empty [] = ok tt
refuse_empty ((name, value) ∷ rest) =
    let later = refuse_empty rest in
    if value == ""
    then raise (identity_error ("identity " <> name <> " must be a non-empty string"))
    else later

-- `VerifiedIdentity(...)`, with the checks of `__post_init__`; the roles are kept sorted, and the
-- verifier's marker is not set.
unfoldable pub make_identity : VerifiedIdentity → Try VerifiedIdentity
make_identity self =
    refuse_empty (
      ("trust_domain", self.trust_domain)
      ∷ ("subject", self.subject)
      ∷ ("issuer", self.issuer)
      ∷ ("credential_reference", self.credential_reference)
      ∷ [])
    >>= λ checked.
        if any (λ role. role == "") self.roles
        then raise (identity_error "identity roles must be non-empty strings")
        else if not (distinct self.roles)
        then raise (identity_error "identity roles must be distinct")
        else if le_int self.expires_at self.issued_at
        then raise (identity_error "identity expiry must be after issuance")
        else ok (record self { roles = sort_by (λ role. role) self.roles; verified = false })

-- `_from_provider`: the verifier's marker is put on the claims that were accepted.
unfoldable pub from_provider : VerifiedIdentity → Try VerifiedIdentity
unfolding make_identity
from_provider claims = make_identity claims >>= λ identity. ok (record identity { verified = true })
