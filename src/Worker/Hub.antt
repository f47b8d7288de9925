-- ===== src/Worker/Hub.antt =====
-- GitHub as the worker calls it (the clients of crates/github/src), and the status comment of
-- crates/worker/src/status_comment.rs. `W` is the state of GitHub, which others change too.
use coven_github.Base.{
  ℕ, Bool, List, String, contains_text, decimal, find, nat_Eq, none, some, text_Eq, ◌<>◌, Option,
}

pub data Reply {ℓ} (A : Type ℓ) : Type ℓ where
  got : A → Reply A
  lost : (message : String) → Reply A

pub record GitHubBranch : Type 0 where
  pub name : String
  pub sha : String
  pub is_protected : Bool

pub record CompareAheadBehind : Type 0 where
  pub ahead_by : ℕ
  pub behind_by : ℕ
  pub author_logins : List String
  pub truncated : Bool

pub record HeadPullRequest : Type 0 where
  pub number : ℕ
  pub state : String
  pub merged : Bool
  pub draft : Bool

pub record IssueComment : Type 0 where
  pub id : ℕ
  pub body : String

pub record PullRequestRefs : Type 0 where
  pub head_ref : String
  pub head_sha : String
  pub base_ref : String
  pub base_sha : String
  pub head_is_fork : Bool

pub data CheckConclusion : Type 0 where
  success failure neutral cancelled action_required : CheckConclusion

pub data ReviewVerdict : Type 0 where
  request_changes comment : ReviewVerdict

pub data TokenRole : Type 0 where
  orchestration agent_git publication : TokenRole

-- The calls, on the task's repository.
pub record Hub (W : Type 0) : Type 0 where
  pub mint : W → TokenRole → Reply String × W
  pub get_repo : W → Reply String × W
  pub list_branches : W → Reply (List GitHubBranch) × W
  pub compare_ahead_behind : W → (base head : String) → Reply CompareAheadBehind × W
  pub list_pulls_by_head : W → (branch : String) → Reply (List HeadPullRequest) × W
  pub get_branch_sha : W → (branch : String) → Reply String × W
  pub delete_ref : W → (branch : String) → Reply Bool × W
  pub open_pull_request : W → (head base title body : String) → Reply ℕ × W
  pub add_labels_to_issue : W → (number : ℕ) → (label : String) → Reply Bool × W
  pub get_collaborator_permission : W → (username : String) → Reply String × W
  pub get_pull_request_refs : W → (number : ℕ) → Reply PullRequestRefs × W
  pub get_pull_request_files : W → (number : ℕ) → Reply (List String) × W
  pub create_check : W → (head_sha name : String) → (details_url : Option String) → Reply ℕ × W
  pub update_check : W → (id : ℕ) → (title summary : String) → Reply Bool × W
  pub complete_check : W → (id : ℕ) → CheckConclusion → (title summary : String) → Reply Bool × W
  pub submit_review : W → (number : ℕ) → ReviewVerdict → (body : String) → Reply Bool × W
  pub list_comments : W → (number : ℕ) → Reply (List IssueComment) × W
  pub update_comment : W → (id : ℕ) → (body : String) → Reply Bool × W
  pub post_comment : W → (number : ℕ) → (body : String) → Reply Bool × W

unfoldable pub marker : String → String → String → ℕ → String
marker familiar_id owner name n =
    "<!-- coven:" <> familiar_id <> ":" <> owner <> "/" <> name <> "#" <> decimal n <> " -->"

module _ {W : Type 0} (hub : Hub W) where
  -- The comment that bears the mark is edited, or a new one is posted.
  unfoldable pub upsert : W → ℕ → String → String → Reply Bool × W
  unfolding contains_text
  upsert w n mark body =
      let full = mark <> "\n" <> body in
      let (listed, w1) = hub.list_comments w n in
      elim listed [
        | lost e ↦ (lost e, w1)
        | got comments ↦ elim (find (λ (c : IssueComment). contains_text mark c.body) comments) [
          | none ↦ hub.post_comment w1 n full
          | some c ↦ hub.update_comment w1 c.id full
        ]
      ]
