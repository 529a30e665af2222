-- ===== src/Auth/Decision.antt =====
-- core/spakky-auth/src/spakky/auth/decision.py: authorization decisions.
use spakky_framework.Common.{String, Option, none}

pub data AuthorizationDecisionState : Type 0 where
  allowed challenged denied errored : AuthorizationDecisionState

pub data AuthorizationReasonCode : Type 0 where
  authorized : AuthorizationReasonCode
  missing_credential invalid_credential expired_credential : AuthorizationReasonCode
  insufficient_role insufficient_scope policy_denied : AuthorizationReasonCode
  snapshot_missing snapshot_invalid snapshot_expired : AuthorizationReasonCode
  verification_provider_unavailable internal_error : AuthorizationReasonCode

pub record AuthorizationDecision : Type 0 where
  pub state : AuthorizationDecisionState
  pub reason_code : AuthorizationReasonCode
  pub reason : Option String

abbrev pub allow : AuthorizationDecision
allow = record { state = allowed; reason_code = authorized; reason = none }

abbrev pub challenge : AuthorizationReasonCode → AuthorizationDecision
challenge code = record { state = challenged; reason_code = code; reason = none }

abbrev pub deny : AuthorizationReasonCode → AuthorizationDecision
deny code = record { state = denied; reason_code = code; reason = none }

abbrev pub error : AuthorizationReasonCode → Option String → AuthorizationDecision
error code reason = record { state = errored; reason_code = code; reason = reason }

abbrev pub missing_snapshot_decision : AuthorizationDecision
missing_snapshot_decision = challenge snapshot_missing

abbrev pub invalid_snapshot_decision : AuthorizationDecision
invalid_snapshot_decision = challenge snapshot_invalid

abbrev pub expired_snapshot_decision : AuthorizationDecision
expired_snapshot_decision = challenge snapshot_expired

abbrev pub verification_provider_unavailable_decision : AuthorizationDecision
verification_provider_unavailable_decision = error verification_provider_unavailable none
