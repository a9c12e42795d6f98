-- ===== src/Json.antt =====
-- JSON values as the sources see them through Qt's QJsonValue, QJsonObject and QJsonArray, and the
-- messages of src/stdiolink/protocol/jsonl_parser.cpp. The text of a document, and its parser, are Qt's.
pub mod Value
pub mod Objects
pub mod Message
