-- ===== src/Versioning/Bundles.antt =====
-- governance/versioning.py: `policy_semantics` and `PolicyBundle`.
use computational_governance.Prelude.{
  String, ℤ, Bool, true, false, ◌&&◌, not, Option, none, some, List, [], ◌∷◌, Dict, if◌then◌else◌,
  ◌==◌, ◌<>◌, sort_by, update, eq_int,
}
use mathlib.Core.List.{map}
use computational_governance.Decimal.{repr}
use computational_governance.Errors.{versioning_error, Try, ok, raise, ◌>>=◌, ◌>>◌, refuse_if}
use computational_governance.Json.{
  Json, null, bool, int, word, arr, obj, Items, nil, cons, Fields, end, field, texts,
}
use computational_governance.Model.{Value, structured}
use computational_governance.Rule.{Rule, ApprovalRequirement}
use computational_governance.Compiler.{CompiledPolicy}
use computational_governance.Parser.Policies.{compile_source}
use computational_governance.Strip.{strip}
use computational_governance.Audit.Fingerprints.{rule_value, kind_value, params_value}
use computational_governance.Versioning.{PolicySemantics, PolicyBundle}
use computational_governance.Versioning.Semver.{version_key}

-- `==` on JSON values whose objects list their fields in one order.
unfoldable mutual
  pub json_eq : Json → Json → Bool
  json_eq null null = true
  json_eq (bool true) (bool true) = true
  json_eq (bool false) (bool false) = true
  json_eq (int m) (int n) = eq_int m n
  json_eq (word s) (word t) = s == t
  json_eq (arr xs) (arr ys) = items_eq xs ys
  json_eq (obj fs) (obj gs) = fields_eq fs gs
  json_eq _ _ = false

  pub items_eq : Items → Items → Bool
  items_eq nil nil = true
  items_eq (cons x xs) (cons y ys) = json_eq x y && items_eq xs ys
  items_eq _ _ = false

  pub fields_eq : Fields → Fields → Bool
  fields_eq end end = true
  fields_eq (field k v fs) (field l w gs) = (k == l) && (json_eq v w && fields_eq fs gs)
  fields_eq _ _ = false

-- `_rule_dict`: the same fields as in the fingerprint of a policy.
abbrev pub rule_dict : Rule → Json
rule_dict r = rule_value r

-- `policy_semantics`
unfoldable pub policy_semantics : CompiledPolicy → PolicySemantics
unfolding kind_value
policy_semantics policy = record {
  rules = map rule_dict (sort_by (λ r. r.id) policy.rules);
  roles = sort_by (λ r. r) (update [] policy.roles);
  default_decision = kind_value policy.default_decision;
}

abbrev pub json_items : List Json → Items
json_items [] = nil
json_items (j ∷ js) = cons j (json_items js)

abbrev pub semantics_value : PolicySemantics → Json
semantics_value s = obj (
    field "rules" (arr (json_items s.rules)) (
      field "roles" (arr (texts s.roles)) (field "default_decision" (word s.default_decision) end)))

-- `_validate_provenance`: the values are scalars, and are kept sorted by their keys.
unfoldable pub scalars : Dict Value → Try (Unit {0})
scalars [] = ok tt
scalars ((key, structured j) ∷ rest) =
    raise (versioning_error "policy provenance values must be scalar")
scalars ((key, value) ∷ rest) = scalars rest

unfoldable pub validate_provenance : Dict Value → Try (Dict Value)
unfolding scalars
validate_provenance provenance = scalars provenance >> ok (sort_by (λ (key, value). key) provenance)

-- `PolicyBundle(...)`, with the checks of `__post_init__`
unfoldable pub make_bundle : PolicyBundle → Try PolicyBundle
unfolding validate_provenance
make_bundle self =
    refuse_if (not (self.bundle_version == "1.0"))
      (versioning_error ("unsupported policy bundle version " <> repr self.bundle_version))
    >> (refuse_if (self.policy_id == "") (versioning_error "policy_id must be a non-empty string")
        >> (version_key self.policy_version >>= λ key.
            refuse_if (strip self.source == "") (versioning_error "policy source must be non-empty")
            >> (validate_provenance self.provenance >>= λ kept. ok self)))

-- `content_hash`: provenance is not part of it.
unfoldable pub content_hash : (Json → String) → PolicyBundle → String
content_hash digest self = digest (
    obj (
      field "policy_id" (word self.policy_id) (
        field "policy_version" (word self.policy_version)
          (field "semantics" (semantics_value self.semantics) end))))

abbrev role_list : Option String → List String
role_list none = []
role_list (some role) = if role == "" then [] else role ∷ []

abbrev quorum_list : Option ApprovalRequirement → List String
quorum_list none = []
quorum_list (some q) = q.roles

-- The roles that the rules name, where no roles are given.
unfoldable pub referenced_roles : List String → List Rule → List String
referenced_roles roles [] = roles
referenced_roles roles (r ∷ rs) =
    referenced_roles
      (update (update roles (role_list r.requires_approval)) (quorum_list r.approval_requirement))
      rs

abbrev pub semantics_with : Option (List String) → CompiledPolicy → PolicySemantics
semantics_with (some roles) policy = policy_semantics policy
semantics_with none policy = record (policy_semantics policy) {
  roles = sort_by (λ r. r) (referenced_roles (update [] policy.roles) policy.rules);
}

abbrev role_set : Option (List String) → Option (List String)
role_set none = none
role_set (some roles) = some (update [] roles)

-- `from_source`
unfoldable pub from_source :
    (String → Option ℤ)
    → String
    → String
    → String
    → Option (List String)
    → String
    → Dict Value
    → Try PolicyBundle
unfolding policy_semantics referenced_roles make_bundle
from_source float source policy_id policy_version roles default_decision provenance =
    compile_source float source (role_set roles) [] default_decision >>= λ policy.
    validate_provenance provenance >>= λ kept. make_bundle (record {
      policy_id = policy_id;
      policy_version = policy_version;
      source = source;
      semantics = semantics_with roles policy;
      provenance = kept;
      bundle_version = "1.0";
    })

abbrev pub same_semantics : PolicySemantics → PolicySemantics → Bool
same_semantics a b = json_eq (semantics_value a) (semantics_value b)

-- `from_policy`: the bundle of a compiled policy, whose source has to mean the same.
unfoldable pub from_policy :
    (String → Option ℤ) → CompiledPolicy → String → String → String → Dict Value → Try PolicyBundle
unfolding policy_semantics make_bundle json_eq items_eq fields_eq kind_value
from_policy float policy source policy_id policy_version provenance =
    validate_provenance provenance >>= λ kept.
    make_bundle (record {
      policy_id = policy_id;
      policy_version = policy_version;
      source = source;
      semantics = policy_semantics policy;
      provenance = kept;
      bundle_version = "1.0";
    })
    >>= λ bundle.
        compile_source float source (some policy.roles) [] (kind_value policy.default_decision)
        >>= λ rebuilt.
            if same_semantics (policy_semantics rebuilt) bundle.semantics
            then ok bundle
            else raise (versioning_error "source semantics do not match compiled policy")

-- `compile`: the source has to mean what the bundle says.
unfoldable pub compile : (String → Option ℤ) → PolicyBundle → Try CompiledPolicy
unfolding policy_semantics json_eq items_eq fields_eq
compile float self =
    compile_source float self.source (some self.semantics.roles) [] self.semantics.default_decision
    >>= λ policy.
        if same_semantics (policy_semantics policy) self.semantics
        then ok policy
        else raise (versioning_error "policy source does not match bundle semantics")

-- `PolicyBundle.to_dict`
unfoldable pub bundle_dict : (Json → String) → PolicyBundle → Json
unfolding content_hash params_value
bundle_dict digest self = obj (
    field "bundle_version" (word self.bundle_version) (
      field "policy_id" (word self.policy_id) (
        field "policy_version" (word self.policy_version) (
          field "content_hash" (word (content_hash digest self)) (
            field "source" (word self.source) (
              field "semantics" (semantics_value self.semantics)
                (field "provenance" (obj (params_value self.provenance)) end)))))))
