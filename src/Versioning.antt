-- ===== src/Versioning.antt =====
-- governance/versioning.py: policy bundles and the store of their versions. What float makes of a text
-- is a parameter, which compiling a source passes to the parser.
pub mod Semver
pub mod Bundles
pub mod Store
pub mod Activation
pub mod Register
use computational_governance.Prelude.{ℕ, String, Option, List, Dict}
use computational_governance.Json.{Json}
use computational_governance.Model.{Value}

-- The canonical semantic part of a compiled policy.
pub record PolicySemantics : Type 0 where
  pub rules : List Json
  pub roles : List String
  pub default_decision : String

pub record PolicyBundle : Type 0 where
  pub policy_id : String
  pub policy_version : String
  pub source : String
  pub semantics : PolicySemantics
  pub provenance : Dict Value
  pub bundle_version : String

-- An activation or rollback of a policy bundle.
pub record PolicyVersionEvent : Type 0 where
  pub event_id : String
  pub policy_id : String
  pub event : String
  pub from_version : Option String
  pub to_version : String
  pub content_hash : String
  pub reason : String

-- The state of a `PolicyVersionStore`.
pub record PolicyVersionStore : Type 0 where
  pub bundles : Dict (Dict PolicyBundle)
  pub active : Dict String
  pub events : List PolicyVersionEvent
  pub next_event_id : ℕ
