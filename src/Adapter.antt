-- ===== src/Adapter.antt =====
-- internal/adapter: the account client, the script stores and the Pub/Sub publisher.
pub mod AccountClient
pub mod ScriptStores
pub mod Publisher
pub mod GameConfig
