-- ===== src/Yaml.antt =====
-- internal/filters/yaml: the filters that a specification in YAML describes.
pub mod Model
pub mod Template
pub mod Lines
pub mod Groups
pub mod Arguments
pub mod Render
pub mod Cases
pub mod Exit
mod Tests
