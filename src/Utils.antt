-- ===== src/Utils.antt =====
-- src/common/utils: lookup tables that the other parts share.
pub mod StaticMap
pub mod Mapper
pub mod Streams
pub mod Logging
pub mod EnumMapper
