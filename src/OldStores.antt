-- ===== src/OldStores.antt =====
-- internal/redisstore and internal/mgostore, the stores of offline messages that internal/rds has
-- taken the place of: one document for each user, in Redis or in MongoDB.
pub mod RedisStore
pub mod MgoStore
pub mod Views
pub mod MgoViews
pub mod Equivalence
pub mod Repeats
