-- ===== src/Domain/Status.antt =====
-- internal/domain: the enumerations of product.go and import.go. A value that is none of the named
-- strings is `other`.
use khans_bike.Common.{Bool, true, false}
use khans_bike.Common.Text.{Text}

pub data ProductStatus : Type 0 where
  draft active discontinued needs_review : ProductStatus
  other_status : Text → ProductStatus

abbrev pub is_active : ProductStatus → Bool
is_active active = true
is_active _ = false

pub data StockStatus : Type 0 where
  in_stock low out special_order unknown : StockStatus
  other_stock : Text → StockStatus

unfoldable pub stock_is_valid : StockStatus → Bool
stock_is_valid (other_stock _) = false
stock_is_valid _ = true

-- ImportBatchStatus.
pub data BatchStatus : Type 0 where
  dry_run reviewing committed aborted : BatchStatus

unfoldable pub is_open : BatchStatus → Bool
is_open dry_run = true
is_open reviewing = true
is_open _ = false

-- ImportDecision.
pub data Decision : Type 0 where
  pending accept skip merge : Decision
  other_decision : Text → Decision

unfoldable pub decision_is_valid : Decision → Bool
decision_is_valid (other_decision _) = false
decision_is_valid _ = true

abbrev pub is_skip : Decision → Bool
is_skip skip = true
is_skip _ = false

abbrev pub is_accept : Decision → Bool
is_accept accept = true
is_accept _ = false

abbrev pub is_merge : Decision → Bool
is_merge merge = true
is_merge _ = false

abbrev pub is_pending : Decision → Bool
is_pending pending = true
is_pending _ = false

pub data Severity : Type 0 where
  error warning info : Severity

abbrev pub same_severity : Severity → Severity → Bool
same_severity error error = true
same_severity warning warning = true
same_severity info info = true
same_severity _ _ = false
