-- ===== src/Migrations.antt =====
-- azero/contracts/migrations/lib.rs: the record of completed migrations.
use most_aleph_zero_bridge.Common.{
  ℕ, String, not, Result, ok, err, Message, view, Env, ◌>>=◌, ◌>>◌, ◌==◌, if◌then◌else◌, returns,
}
use most_aleph_zero_bridge.Common.Fallible.{map_err}
use most_aleph_zero_bridge.Common.Host.{Host}
pub mod Progress
mod Tests

pub data MigrationsError : Type 0 where
  ink_env_error : String → MigrationsError
  caller_not_owner : ℕ → MigrationsError

pub record Migrations : Type 0 where
  pub last_completed_migration : ℕ
  pub owner : ℕ

abbrev pub MigrationsMessage : Type 0
MigrationsMessage = Message MigrationsError Migrations (Unit {0})

pub new : ℕ → Migrations
new owner = record { last_completed_migration = 0; owner = owner }

pub ensure_owner : Env → Migrations → Result MigrationsError (Unit {0})
ensure_owner env m =
    if not (env.caller == m.owner) then err (caller_not_owner env.caller) else ok tt

pub set_completed : ℕ → MigrationsMessage
unfolding ensure_owner
set_completed completed = do
  view ensure_owner
  (λ env m. returns tt (record m { last_completed_migration = completed }))

unfoldable pub code_hash : (host : Host) → Env → host.World → Result MigrationsError ℕ
code_hash host env w =
    map_err (λ why. ink_env_error (host.debug why)) (host.own_code_hash env.account_id w)

pub last_completed_migration : Migrations → ℕ
last_completed_migration m = m.last_completed_migration
