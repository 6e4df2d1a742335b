-- ===== src/Core/Enums.antt =====
-- core/enums.py and the enums of packages/task, packages/billing and packages/api_keys.

pub data Marketplace : Type 0 where
  ozon wildberries : Marketplace

pub data ParseType : Type 0 where
  product_page search_query reviews category seller : ParseType

pub data TaskStatus : Type 0 where
  queued running paused succeeded failed expired cancelled : TaskStatus

pub data TaskItemStatus : Type 0 where
  pending running succeeded failed excluded : TaskItemStatus

pub data ReferenceType : Type 0 where
  task automation direct : ReferenceType

pub data TransactionKind : Type 0 where
  spend grant : TransactionKind

pub data ApiKeyStatus : Type 0 where
  active expired revoked : ApiKeyStatus

pub data ApiKeyBlockReason : Type 0 where
  inactive credit_limit : ApiKeyBlockReason

-- The `event_code`s that billing, tasks and automations pass to `NotificationService.notify`.
pub data EventCode : Type 0 where
  balance_depleted balance_low task_paused_insufficient_credits task_completed task_failed
        automation_change_detected :
      EventCode
