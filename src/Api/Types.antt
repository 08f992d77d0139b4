-- ===== src/Api/Types.antt =====
-- The types of web/src/features/auth/types, and of web/src/features/dashboard/types. `number` is ℕ for
-- counts, pages, codes and durations; `N` for statistics and `J` for JSON values of `unknown` type.
use chis.Base.{ℕ, String, Option, List}

pub record LoginRequest : Type 0 where
  pub email : String
  pub password : String

pub record RegisterRequest : Type 0 where
  pub email : String
  pub password : String
  pub first_name : String
  pub last_name : String

pub record LoginResponse : Type 0 where
  pub token : String

pub record RegisterResponse : Type 0 where
  pub id : String
  pub email : String
  pub first_name : String

pub record AuthUser : Type 0 where
  pub id : String
  pub email : String
  pub first_name : String

pub record DashboardStats (N : Type 0) : Type 0 where
  pub total_webhooks_sent : N
  pub total_webhooks_failed : N
  pub total_webhooks_queued : N
  pub success_rate : N

pub record ApiKey : Type 0 where
  pub id : String
  pub name : String
  pub prefix : String
  pub created_at : String
  pub last_used_at : Option String

pub record CreateApiKeyRequest : Type 0 where
  pub name : String

pub record CreateApiKeyResponse : Type 0 where
  pub id : String
  pub name : String
  pub prefix : String
  pub key : String
  pub created_at : String

pub data LogStatus : Type 0 where
  success failed pending : LogStatus

pub record WebhookLog : Type 0 where
  pub id : String
  pub endpoint : String
  pub status : LogStatus
  pub status_code : ℕ
  pub event_type : String
  pub attempted_at : String
  pub response_time_ms : ℕ

pub record WebhookLogsParams : Type 0 where
  pub status : Option String
  pub search : Option String
  pub page : Option ℕ
  pub limit : Option ℕ

pub record PaginatedResponse {ℓ} (T : Type ℓ) : Type ℓ where
  pub items : List T  -- `data`
  pub total : ℕ
  pub page : ℕ
  pub limit : ℕ
  pub total_pages : ℕ

pub record DeliveryAttemptDetail : Type 0 where
  pub id : String
  pub attempt_number : ℕ
  pub status_code : Option ℕ
  pub response_body : Option String
  pub error_message : Option String
  pub duration_ms : Option ℕ
  pub attempted_at : String

pub record SendWebhookRequest (J : Type 0) : Type 0 where
  pub url : String
  pub method : String
  pub payload : J

pub record SendWebhookResponse : Type 0 where
  pub message_id : String
  pub status : String

pub record WebhookLogDetail (J : Type 0) : Type 0 where
  pub id : String
  pub method : String
  pub url : String
  pub status : String
  pub payload : J
  pub attempt_count : ℕ
  pub created_at : String
  pub updated_at : String
  pub next_retry_at : Option String
  pub delivery_attempts : List DeliveryAttemptDetail

pub record Invitation : Type 0 where
  pub id : String
  pub email : String
  pub role : String
  pub status : String
  pub expires_at : String
  pub created_at : String

pub record CreateInvitationRequest : Type 0 where
  pub email : String

pub record AcceptInvitationResponse : Type 0 where
  pub message : String
  pub org_id : String
  pub org_name : String
  pub org_slug : String
  pub role : String

pub record PendingInvitation : Type 0 where
  pub id : String
  pub org_name : String
  pub org_slug : String
  pub role : String
  pub expires_at : String

pub record Organization : Type 0 where
  pub id : String
  pub name : String
  pub slug : String
  pub role : String

pub record CreateOrganizationRequest : Type 0 where
  pub name : String
