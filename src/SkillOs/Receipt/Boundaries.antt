-- ===== src/SkillOs/Receipt/Boundaries.antt =====
-- What a validated receipt can claim of the world outside.
use soloscale_ai_os.Prelude.{◌≡◌, Bool, true, false, ◌&&◌, ◌||◌, arith}
use soloscale_ai_os.SkillOs.Models.{SkillRunStatus, run_status_is, preserve_state_boundaries}
use soloscale_ai_os.SkillOs.Receipt.{
  is_filled, SkillRunReceipt, validate_receipt, validate_receipt_fields, validate_boundaries,
}

and_right : (a b : Bool) → a && b ≡ true → b ≡ true
and_right a b h = ground arith

boundaries-external :
    (receipt : SkillRunReceipt)
    → preserve_state_boundaries receipt.outcome_state ≡ true
    → validate_boundaries receipt ≡ true
    → (receipt.outcome_state.externally_published_or_submitted
        || receipt.outcome_state.external_outcome_observed)
      ≡ true
    → (receipt.outcome_state.artifact_generated ≡ true)
      × (receipt.outcome_state.human_approved ≡ true)
      × (is_filled receipt.approvals ≡ true)
      × (is_filled receipt.external_outcome_ids ≡ true)
      × (run_status_is receipt.final_status SkillRunStatus.routed ≡ false)
      × (run_status_is receipt.final_status SkillRunStatus.awaiting_human_gate ≡ false)
unfolding preserve_state_boundaries validate_boundaries
boundaries-external receipt kept valid outside = ground arith

-- A receipt whose outcome state and fields pass their validators, and that says something was published,
-- submitted or observed outside, has a generated artifact, a human's approval with its record, and the
-- id of what is outside, and is neither routed nor awaiting a human.
pub validate_receipt-external :
    (receipt : SkillRunReceipt)
    → preserve_state_boundaries receipt.outcome_state ≡ true
    → validate_receipt receipt ≡ true
    → (receipt.outcome_state.externally_published_or_submitted
        || receipt.outcome_state.external_outcome_observed)
      ≡ true
    → (receipt.outcome_state.artifact_generated ≡ true)
      × (receipt.outcome_state.human_approved ≡ true)
      × (is_filled receipt.approvals ≡ true)
      × (is_filled receipt.external_outcome_ids ≡ true)
      × (run_status_is receipt.final_status SkillRunStatus.routed ≡ false)
      × (run_status_is receipt.final_status SkillRunStatus.awaiting_human_gate ≡ false)
unfolding validate_receipt
validate_receipt-external receipt kept valid outside =
    boundaries-external receipt kept
      (and_right (validate_receipt_fields receipt) (validate_boundaries receipt) valid) outside
