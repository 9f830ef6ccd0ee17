-- ===== src/Approval/Snapshots.antt =====
-- governance/approval.py: `ApprovalRequest.to_dict` and `ApprovalManager.snapshot`.
use computational_governance.Prelude.{
  String, pos, Option, none, some, List, [], ◌∷◌, Dict, insert, sort_by, values,
}
use computational_governance.Json.{
  Json, bool, int, word, arr, obj, Items, nil, cons, Fields, end, field, texts,
}
use computational_governance.Approval.{ApprovalRequest, ApprovalManager}
use computational_governance.Approval.Manager.{state_value}

-- `{role: reference for role, reference in self.vote_identity_references}`
unfoldable pub references_dict : List (String × String) → Dict String → Dict String
references_dict [] d = d
references_dict ((role, reference) ∷ rest) d = references_dict rest (insert role reference d)

abbrev pub text_fields : Dict String → Fields
text_fields [] = end
text_fields ((key, value) ∷ rest) = field key (word value) (text_fields rest)

-- The fields that are written only where they are set.
abbrev pub set_field : String → Option String → Fields → Fields
set_field key none rest = rest
set_field key (some value) rest = field key (word value) rest

abbrev pub reference_field : List (String × String) → Fields → Fields
reference_field [] rest = rest
reference_field (vote ∷ votes) rest =
    field "vote_identity_references" (obj (text_fields (references_dict (vote ∷ votes) []))) rest

unfoldable pub to_dict : ApprovalRequest → Json
unfolding references_dict
to_dict self = obj (
    field "id" (word self.id) (
      field "role" (word self.role) (
        field "action_fingerprint" (word self.action_fingerprint) (
          field "context_fingerprint" (word self.context_fingerprint) (
            field "policy_fingerprint" (word self.policy_fingerprint) (
              field "state_fingerprint" (word self.state_fingerprint) (
                field "matched_rules" (arr (texts self.matched_rules)) (
                  field "created_at" (int self.created_at) (
                    field "expires_at" (int self.expires_at) (
                      field "required_roles" (arr (texts self.required_roles)) (
                        field "threshold" (int (pos self.threshold)) (
                          field "votes" (arr (texts self.votes)) (
                            field "state" (word (state_value self.state)) (
                              field "consumed" (bool self.consumed) (
                                set_field "identity_reference" self.identity_reference (
                                  reference_field self.vote_identity_references (
                                    set_field "denial_identity_reference"
                                      self.denial_identity_reference end)))))))))))))))))

abbrev pub request_items : List ApprovalRequest → Items
request_items [] = nil
request_items (r ∷ rs) = cons (to_dict r) (request_items rs)

unfoldable pub snapshot : ApprovalManager → Json
unfolding to_dict
snapshot self = obj (
    field "schema_version" (word "1.0") (
      field "ttl" (int self.ttl) (
        field "request_prefix" (word self.request_prefix) (
          field "require_identity" (bool self.require_identity) (
            field "next_id" (int (pos self.next_id)) (
              field "requests" (arr (request_items (sort_by (λ r. r.id) (values self.requests))))
                end))))))
