-- ===== src/ObjectParser.antt =====
-- lib/object_parser: values written as text or as msgpack, and read back.
pub mod JsonDumper
pub mod Jsmn
pub mod JsonLoader
pub mod MsgpackDumper
pub mod MsgpackLoader
