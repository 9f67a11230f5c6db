-- ===== src/Wiring.antt =====
-- How the application starts: the database that src/app.module.ts chooses, the processors that
-- src/submissions/submissions.module.ts and src/webhooks/webhooks.module.ts register, the secret that
-- src/leaderboard/leaderboard.gateway.ts refuses to start without, and the port of src/main.ts.
pub mod Workers
use codeweaknesses.Common.{or_else, String, Option, none, some, [], ◌∷◌, if◌then◌else◌, ◌==◌}
use codeweaknesses.Common.Int.{ℤ}
use codeweaknesses.Entities.{Text, codes}
use codeweaknesses.Judge.Output.{is_filled, text_eq}
use codeweaknesses.Queue.Config.{parse_int, Settings}
use codeweaknesses.Queue.{QueueService, Operation, fresh, initialise, register, run}

-- `process.env`
abbrev pub Environment : Type 0
Environment = Text → Option Text

-- `process.env.KEY || fallback`: an empty variable counts as missing.
abbrev pub env_or : Environment → Text → Text → Text
env_or env key fallback = elim (env key) [
  | none ↦ fallback
  | some value ↦ if is_filled value then value else fallback
]

pub record Server : Type 0 where
  pub host : Text
  pub port : Option ℤ
  pub username : Text
  pub password : Text
  pub database : Text

pub data DatabaseConfig : Type 0 where
  mysql postgres : Server → DatabaseConfig
  better_sqlite3 : Text → DatabaseConfig

abbrev pub server : Environment → Text → Text → Text → Server
server env port username password = record {
  host = env_or env (codes "DB_HOST") (codes "localhost");
  port = parse_int (env_or env (codes "DB_PORT") port);
  username = env_or env (codes "DB_USERNAME") username;
  password = env_or env (codes "DB_PASSWORD") password;
  database = env_or env (codes "DB_NAME") (codes "codeweaknesses");
}

unfoldable pub get_database_config : Environment → DatabaseConfig
get_database_config env =
    let db_type = env_or env (codes "DB_TYPE") (codes "postgres") in
    if text_eq db_type (codes "mysql")
    then mysql (server env (codes "3306") (codes "root") (codes "root123"))
    else if text_eq db_type (codes "postgres")
    then postgres (server env (codes "5432") (codes "postgres") (codes "postgres123"))
    else better_sqlite3 (env_or env (codes "DB_DATABASE") (codes "codeweaknesses.db"))

-- `onModuleInit` of the module of submissions, and that of the module of webhooks.
abbrev pub submissions_module_init : {P D : Type 0} → P → Operation P D
submissions_module_init submission_processor = register "submissions" submission_processor

abbrev pub webhooks_module_init : {P D : Type 0} → P → Operation P D
webhooks_module_init webhook_processor = register "webhooks" webhook_processor

-- The modules that use the queue are initialised after it.
unfoldable pub start_queues : {P D : Type 0} → Settings → P → P → QueueService P D
unfolding run
start_queues config submission_processor webhook_processor =
    run config
      (initialise
        ∷ submissions_module_init submission_processor
        ∷ webhooks_module_init webhook_processor
        ∷ [])
      fresh

-- `process.env.PORT ?? 3000`, where an empty variable stays empty.
unfoldable pub port_of : Environment → Text
port_of env = or_else (env (codes "PORT")) (codes "3000")

-- `JWT_SECRET`; the gateway throws without it.
unfoldable pub gateway_secret : Option String → Option String
gateway_secret none = none
gateway_secret (some secret) = if secret == "" then none else some secret
