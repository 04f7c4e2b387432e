-- ===== src/Protocol.antt =====
-- internal/shared/protocol/messages.go: the tasks that the server sends to agents.
use netbox_conductor.Base.{ℕ, String, Bool, true, false, List}

-- The `TaskType` constants.
pub data TaskType : Type 0 where
  write_config update_db_host update_redis_host redis_set_requirepass redis_bind_all : TaskType
  start_netbox stop_netbox restart_netbox restart_rq stop_postgresql : TaskType
  install_patroni create_pg_role write_patroni_conf restart_patroni stop_postgres : TaskType
  patroni_switchover restart_redis restart_sentinel stop_sentinel write_sentinel_conf : TaskType
  db_restore db_backup run_command read_netbox_config : TaskType
  pgbackrest_configure pgbackrest_stanza_create pgbackrest_backup pgbackrest_catalog : TaskType
  pgbackrest_restore pgbackrest_test_path : TaskType
  sync_list sync_send sync_receive sync_finish sync_delete : TaskType

pub TaskType-discrete : Discrete TaskType
TaskType-discrete = hlevel

-- The JSON parameters of the modelled tasks: `{}`, a host with the flag `restart_after`
-- (DBHostUpdateParams, RedisHostUpdateParams), a whole dispatch message in their place, a round of
-- backups (PGBackRestBackupParams), or a stanza (PGBackRestCatalogParams).
pub data Params : Type 0 where
  no_params : Params
  host_params : String → Bool → Params
  dispatch_params : (task_id : ℕ) → TaskType → Params → (timeout_secs : ℕ) → Params
  backup_params :
      (stanza backup_type : String)
      → (repos : List ℕ) → (check_tries check_timeout_secs check_retry_secs backup_timeout_secs : ℕ)
      → Params
  catalog_params : (stanza : String) → Params

pub record TaskDispatchPayload : Type 0 where
  pub task_id : ℕ
  pub task_type : TaskType
  pub params : Params
  pub timeout_secs : ℕ

-- An envelope of type "task.dispatch".
pub record Envelope : Type 0 where
  pub id : ℕ
  pub payload : TaskDispatchPayload

pub record TaskResultPayload : Type 0 where
  pub success : Bool
  pub output : String
  pub error_msg : String

-- Whether a task that was sent and gave no result may be sent again.
unfoldable pub safe_to_retry_on_reconnect : TaskType → Bool
safe_to_retry_on_reconnect pgbackrest_backup = false
safe_to_retry_on_reconnect pgbackrest_restore = false
safe_to_retry_on_reconnect db_backup = false
safe_to_retry_on_reconnect db_restore = false
safe_to_retry_on_reconnect run_command = false
safe_to_retry_on_reconnect sync_list = false
safe_to_retry_on_reconnect sync_send = false
safe_to_retry_on_reconnect sync_receive = false
safe_to_retry_on_reconnect sync_finish = false
safe_to_retry_on_reconnect sync_delete = false
safe_to_retry_on_reconnect _ = true
