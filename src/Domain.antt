-- ===== src/Domain.antt =====
-- The data that the services share: prisma/schema.prisma and the entities of src/modules.
pub mod Enums
pub mod Entities
pub mod Finance
pub mod Shop
pub mod Store
pub mod Ensures
pub mod Reads
