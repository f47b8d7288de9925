-- ===== src/Config/Memory.antt =====
-- The memory policy of repositories: `MemoryConfig` of crates/config/src/lib.rs.
use coven_github.Config.Review.{overridden}
use coven_github.Base.{ℕ, Bool, List, Option, String, get_or_else}

pub record RepoMemoryOverride : Type 0 where
  pub enabled : Option Bool
  pub approval_required : Option Bool

pub record MemoryConfig : Type 0 where
  pub enabled : Bool
  pub approval_required : Bool
  pub retention_days : Option ℕ
  pub repos : List (String × RepoMemoryOverride)

unfoldable pub enabled_for : MemoryConfig → String → Bool
enabled_for c repo =
    get_or_else (overridden c.repos repo (λ (o : RepoMemoryOverride). o.enabled)) c.enabled

unfoldable pub approval_required_for : MemoryConfig → String → Bool
approval_required_for c repo =
    get_or_else (overridden c.repos repo (λ (o : RepoMemoryOverride). o.approval_required))
      c.approval_required
