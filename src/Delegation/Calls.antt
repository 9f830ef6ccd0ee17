-- ===== src/Delegation/Calls.antt =====
-- governance/delegation.py: sequences of calls on one graph.
use computational_governance.Prelude.{String, ℤ, List, [], ◌∷◌, Dict}
use computational_governance.Model.{Capability}
use computational_governance.Delegation.{DelegationGraph, Party}
use computational_governance.Delegation.Methods.{
  Terms, new_graph, register_intrinsic, grant, revoke,
}
use computational_governance.Delegation.Invariant.{
  IsWellFormed, new_graph-IsWellFormed, grant-IsWellFormed, revoke-IsWellFormed,
}

-- A call that changes the graph, with its arguments.
pub data Call : Type 0 where
  registering : Party → Capability → Call
  granting : Party → Party → Capability → ℤ → Terms → ℤ → Call
  revoking : String → Call

-- What a call makes of the graph, whether it returns or raises.
unfoldable pub perform : Call → DelegationGraph → DelegationGraph
unfolding register_intrinsic grant revoke
perform (registering p capability) self = register_intrinsic self p capability
perform (granting grantor grantee capability depth terms now) self =
    (grant self grantor grantee capability depth terms now).0
perform (revoking grant_id) self = (revoke self grant_id).0

unfoldable pub perform_all : List Call → DelegationGraph → DelegationGraph
unfolding perform
perform_all [] self = self
perform_all (call ∷ calls) self = perform_all calls (perform call self)

register_intrinsic-IsWellFormed :
    (self : DelegationGraph) (p : Party) (capability : Capability)
    → IsWellFormed self
    → IsWellFormed (register_intrinsic self p capability)
unfolding register_intrinsic
register_intrinsic-IsWellFormed self p capability w = record {
  named = w.named;
  numbered = w.numbered;
  linked = w.linked;
  known = w.known;
}

perform-IsWellFormed :
    (call : Call) (self : DelegationGraph) → IsWellFormed self → IsWellFormed (perform call self)
unfolding perform
perform-IsWellFormed (registering p capability) self w =
    register_intrinsic-IsWellFormed self p capability w
perform-IsWellFormed (granting grantor grantee capability depth terms now) self w =
    grant-IsWellFormed self grantor grantee capability depth terms now w
perform-IsWellFormed (revoking grant_id) self w = revoke-IsWellFormed self grant_id w

all-IsWellFormed :
    (calls : List Call) (self : DelegationGraph)
    → IsWellFormed self
    → IsWellFormed (perform_all calls self)
unfolding perform_all
all-IsWellFormed [] self w = w
all-IsWellFormed (call ∷ calls) self w =
    all-IsWellFormed calls (perform call self) (perform-IsWellFormed call self w)

-- On a new graph, with any intrinsic capabilities, every sequence of calls, returning or raising, keeps
-- the invariant: grants under their own ids, ids from numbers handed out, parent links to stored
-- grants that are extended, revocations of known grants.
pub perform_all-IsWellFormed :
    (intrinsic : Dict (List String)) (calls : List Call)
    → IsWellFormed (perform_all calls (new_graph intrinsic))
perform_all-IsWellFormed intrinsic calls =
    all-IsWellFormed calls (new_graph intrinsic) (new_graph-IsWellFormed intrinsic)
