-- ===== src/Resource/Records.antt =====
-- src/resource_protocol.rs and src/execution_topology.rs: the records of the protocol.
use casegraphen.Prelude.{ℕ, String, Option, List, String-discrete, ℕ_discrete}

pub data ResourceMode : Type 0 where
  read write exclusive : ResourceMode

pub data WorkspaceStrategy : Type 0 where
  shared isolated_worktree ephemeral : WorkspaceStrategy

pub record ResourceClaim : Type 0 where
  pub resource : String
  pub mode : ResourceMode
  pub rate_limit_group : Option String
  pub workspace_strategy : Option WorkspaceStrategy
  pub network_scope : List String
  pub secret_scope : List String

pub record ResourceDeclaration : Type 0 where
  pub schema : String
  pub schema_version : ℕ
  pub declaration_id : String
  pub runtime_graph_id : String
  pub runtime_graph_content_hash : String
  pub node_id : String
  pub claims : List ResourceClaim

pub record ResourceGrant : Type 0 where
  pub resource_id : String
  pub mode : ResourceMode
  pub rate_limit_group : Option String
  pub rate_limit_units : ℕ
  pub workspace_strategy : Option WorkspaceStrategy
  pub network_scope : List String
  pub secret_scope : List String

unfoldable pub ResourceGrant-discrete : Discrete ResourceGrant
ResourceGrant-discrete = hlevel (String-discrete, ℕ_discrete)

pub record ResourceReservation : Type 0 where
  pub schema : String
  pub schema_version : ℕ
  pub reservation_id : String
  pub declaration_id : String
  pub attempt_id : String
  pub granted_at : String
  pub grants : List ResourceGrant

pub data ReservationAssertionKind : Type 0 where
  release supersede expire : ReservationAssertionKind

pub record ReservationDispositionAssertion : Type 0 where
  pub schema : String
  pub schema_version : ℕ
  pub assertion_id : String
  pub reservation_id : String
  pub attempt_id : String
  pub kind : ReservationAssertionKind
  pub asserted_by : String
  pub reason : String
  pub superseding_reservation_id : Option String

pub record RateLimitCapacity : Type 0 where
  pub schema : String
  pub schema_version : ℕ
  pub group_id : String
  pub capacity : ℕ

pub record ResourceProtocolFinding : Type 0 where
  pub code : String
  pub resource_id : Option String
  pub reservation_id : Option String
  pub allocation_id : Option String
  pub detail : String

abbrev pub resource_declaration_schema : String
resource_declaration_schema = "casegraphen.experimental.resource.declaration.v0"

abbrev pub resource_reservation_schema : String
resource_reservation_schema = "casegraphen.experimental.resource.reservation.v0"

abbrev pub reservation_assertion_schema : String
reservation_assertion_schema = "casegraphen.experimental.resource.reservation_disposition.v0"

abbrev pub rate_limit_capacity_schema : String
rate_limit_capacity_schema = "casegraphen.experimental.resource.rate_limit_capacity.v0"
