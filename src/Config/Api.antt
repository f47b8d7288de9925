-- ===== src/Config/Api.antt =====
-- The task API's credentials: `ApiConfig` of crates/config/src/lib.rs.
use coven_github.Base.{ℕ, List, Option, String}

pub data ApiMode : Type 0 where
  open_mode : ApiMode
  token_mode : ApiMode

pub record TenantToken : Type 0 where
  pub token : String
  pub installation_id : ℕ
  pub repos : List String

pub record ApiConfig : Type 0 where
  pub mode : ApiMode
  pub service_token : Option String
  pub tenants : List TenantToken
