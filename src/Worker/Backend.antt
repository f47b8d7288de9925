-- ===== src/Worker/Backend.antt =====
-- The backends of a session: crates/worker/src/backend.rs up to the launch. A path is its text, the
-- limit of the CPUs the text that Rust prints for it, and the id of `uuid` an argument.
use coven_github.Base.{ℕ, List, String, [], decimal, ◌<>◌, ◌∷◌}

abbrev container_workspace : String
container_workspace = "/workspace"

abbrev brief_file : String
brief_file = "session-brief.json"

abbrev result_file : String
result_file = "result.json"

pub record ContainerConfig : Type 0 where
  pub image : String
  pub docker_bin : String
  pub coven_code_bin : String
  pub cpus : String
  pub memory : String
  pub pids : ℕ
  pub tmpfs_size : String
  pub network : String

pub data WorkerBackendKind : Type 0 where
  host_kind container_kind : WorkerBackendKind

pub data Backend : Type 0 where
  host : Backend
  container : ContainerConfig → Backend

-- `Backend::from_config`
unfoldable pub backend_of : WorkerBackendKind → ContainerConfig → Backend
backend_of host_kind config = host
backend_of container_kind config = container config

unfoldable pub workspace_view : Backend → String → String
workspace_view host host_workspace = host_workspace
workspace_view (container config) host_workspace = container_workspace

unfoldable pub container_name : String → String → String
container_name task_id uuid = "coven-task-" <> task_id <> "-" <> uuid

unfoldable pub docker_run_args : ContainerConfig → String → String → List String
docker_run_args config host_workspace name =
    "run"
    ∷ "--rm"
    ∷ "--name"
    ∷ name
    ∷ "--cpus"
    ∷ config.cpus
    ∷ "--memory"
    ∷ config.memory
    ∷ "--pids-limit"
    ∷ decimal config.pids
    ∷ "--network"
    ∷ config.network
    ∷ "--read-only"
    ∷ "--cap-drop"
    ∷ "ALL"
    ∷ "--security-opt"
    ∷ "no-new-privileges"
    ∷ "--tmpfs"
    ∷ ("/tmp:size=" <> config.tmpfs_size)
    ∷ "-v"
    ∷ (host_workspace <> ":" <> container_workspace)
    ∷ "-w"
    ∷ container_workspace
    ∷ "-e"
    ∷ "COVEN_GIT_TOKEN"
    ∷ config.image
    ∷ config.coven_code_bin
    ∷ "--headless"
    ∷ "--context"
    ∷ (container_workspace <> "/" <> brief_file)
    ∷ "--output"
    ∷ (container_workspace <> "/" <> result_file)
    ∷ []
