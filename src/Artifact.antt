-- ===== src/Artifact.antt =====
-- pkg/artifact: the white list of images.
pub mod Model
pub mod Handler
pub mod Genesis
