-- ===== src/Apis.antt =====
-- internal/apis: the metadata that passes from preprocessing to poststorage, the client's activities,
-- and the answers of the APIS interface.
pub mod Metadata
pub mod Status
pub mod Poll
pub mod Create
pub mod Client
