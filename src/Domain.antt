-- ===== src/Domain.antt =====
-- internal/domain: the format-independent routing model.
pub mod Result
pub mod Names
pub mod Kind
pub mod Resource
pub mod Rule
pub mod Observation
pub mod Catalog
pub mod Target
pub mod Plan
