-- ===== src/Lifecycle.antt =====
-- governance/lifecycle.py: the data of the policy lifecycle.
pub mod Tables
pub mod Monad
pub mod Reports
pub mod Authoring
pub mod Rollout
pub mod Deployment
pub mod Serving
pub mod Approvals
pub mod Kept
pub mod Served
pub mod Calls
pub mod Quorum
pub mod Keyed
pub mod Expiry
use computational_governance.Prelude.{ℕ, String, ℤ, Bool, Option, List, Dict}
use computational_governance.Json.{Fields}
use computational_governance.Model.{Action, Context}
use computational_governance.Versioning.{PolicyBundle}
use Tables.{Table}

pub data PolicyLifecycleState : Type 0 where
  draft validated approved deployed superseded rolled_back expired : PolicyLifecycleState

pub data PolicyExpiryMode : Type 0 where
  fail_closed escalate : PolicyExpiryMode

-- The record of one lifecycle transition.
pub record PolicyLifecycleEvent : Type 0 where
  pub event_id : String
  pub occurred_at : ℤ
  pub policy_id : String
  pub policy_version : String
  pub event : String
  pub from_state : PolicyLifecycleState
  pub to_state : PolicyLifecycleState
  pub environment : Option String
  pub actor_id : Option String
  pub reason : String
  pub attributes : Fields

-- One distinct approval vote for a policy and an environment.
pub record PolicyApproval : Type 0 where
  pub approver_id : String
  pub role : String
  pub reason : String
  pub approved_at : ℤ

-- An input of a dry run.
pub record SimulationCase : Type 0 where
  pub case_id : String
  pub action : Action
  pub context : Context

-- The part of a decision that is compared.
pub record DecisionSnapshot : Type 0 where
  pub kind : String
  pub role : Option String
  pub reason : String
  pub matched_rules : List String
  pub authority_source : String
  pub authority_path : List String
  pub approval_roles : List String
  pub approval_threshold : ℕ

pub record SimulationCaseResult : Type 0 where
  pub case_id : String
  pub action_fingerprint : String
  pub context_fingerprint : String
  pub candidate : DecisionSnapshot
  pub baseline : Option DecisionSnapshot
  pub changed : Bool

pub record SimulationReport : Type 0 where
  pub policy_id : String
  pub candidate_version : String
  pub baseline_version : Option String
  pub cases : List SimulationCaseResult
  pub generated_at : ℤ

-- A share of the cases: `num / den`.
pub record Rate : Type 0 where
  pub num : ℕ
  pub den : ℕ

pub record CanaryReport : Type 0 where
  pub policy_id : String
  pub candidate_version : String
  pub environment : String
  pub sample_rate : Rate
  pub max_changed_decisions : ℕ
  pub simulation : SimulationReport
  pub passed : Bool

-- `_LifecycleEntry`
pub record LifecycleEntry : Type 0 where
  pub bundle : PolicyBundle
  pub owner : String
  pub expires_at : Option ℤ
  pub state : PolicyLifecycleState
  pub environment_states : Dict PolicyLifecycleState
  pub simulation : Option SimulationReport
  pub canaries : Dict CanaryReport

-- The state of a `PolicyLifecycleManager`: entries by policy and version, approvals by policy, version
-- and environment, active versions by policy and environment.
pub record PolicyLifecycleManager : Type 0 where
  pub production_approval_threshold : ℕ
  pub approver_roles : List String
  pub expiry_mode : PolicyExpiryMode
  pub entries : Table LifecycleEntry
  pub approvals : Table (List PolicyApproval)
  pub active : Table String
  pub events : List PolicyLifecycleEvent
  pub next_event_id : ℕ
