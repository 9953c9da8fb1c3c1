-- ===== src/Safetensors.antt =====
-- src/io/safetensors.cpp and include/voxmutatio/io/safetensors.h: the checked reader of tensor files.
pub mod Scan
pub mod Skip
pub mod Tensor
pub mod Header
pub mod Loader
mod Tests
