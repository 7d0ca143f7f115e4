-- ===== src/Iproto/Codes.antt =====
-- iproto.h: the codes of requests, and the keys of headers and bodies.
use cpp2tnt.Prelude.{ℕ}

-- enum class request_type
pub data RequestType : Type 0 where
  ok select insert replace update delete : RequestType
  call_16 auth eval upsert call execute : RequestType
  nop prepare ping proto_id watch unwatch : RequestType
  event watch_once : RequestType

abbrev pub request_type_code : RequestType → ℕ
request_type_code RequestType.ok = 0x00
request_type_code RequestType.select = 0x01
request_type_code RequestType.insert = 0x02
request_type_code RequestType.replace = 0x03
request_type_code RequestType.update = 0x04
request_type_code RequestType.delete = 0x05
request_type_code RequestType.call_16 = 0x06
request_type_code RequestType.auth = 0x07
request_type_code RequestType.eval = 0x08
request_type_code RequestType.upsert = 0x09
request_type_code RequestType.call = 0x0a
request_type_code RequestType.execute = 0x0b
request_type_code RequestType.nop = 0x0c
request_type_code RequestType.prepare = 0x0d
request_type_code RequestType.ping = 0x40
request_type_code RequestType.proto_id = 0x49
request_type_code RequestType.watch = 0x4a
request_type_code RequestType.unwatch = 0x4b
request_type_code RequestType.event = 0x4c
request_type_code RequestType.watch_once = 0x4d

-- enum header_field
pub data HeaderField : Type 0 where
  code sync server_id lsn timestamp schema_id : HeaderField

abbrev pub header_field_code : HeaderField → ℕ
header_field_code HeaderField.code = 0x00
header_field_code HeaderField.sync = 0x01
header_field_code HeaderField.server_id = 0x02
header_field_code HeaderField.lsn = 0x03
header_field_code HeaderField.timestamp = 0x04
header_field_code HeaderField.schema_id = 0x05

-- enum body_field
pub data BodyField : Type 0 where
  space index limit offset iterator index_base : BodyField
  key tuple function_name user_name server_uuid cluster_uuid : BodyField
  vclock expression ops sql_text sql_bind version : BodyField
  features auth_type : BodyField

abbrev pub body_field_code : BodyField → ℕ
body_field_code BodyField.space = 0x10
body_field_code BodyField.index = 0x11
body_field_code BodyField.limit = 0x12
body_field_code BodyField.offset = 0x13
body_field_code BodyField.iterator = 0x14
body_field_code BodyField.index_base = 0x15
body_field_code BodyField.key = 0x20
body_field_code BodyField.tuple = 0x21
body_field_code BodyField.function_name = 0x22
body_field_code BodyField.user_name = 0x23
body_field_code BodyField.server_uuid = 0x24
body_field_code BodyField.cluster_uuid = 0x25
body_field_code BodyField.vclock = 0x26
body_field_code BodyField.expression = 0x27
body_field_code BodyField.ops = 0x28
body_field_code BodyField.sql_text = 0x40
body_field_code BodyField.sql_bind = 0x41
body_field_code BodyField.version = 0x54
body_field_code BodyField.features = 0x55
body_field_code BodyField.auth_type = 0x5b

-- enum response_field
pub data ResponseField : Type 0 where
  iproto_data iproto_error_24 iproto_metadata iproto_sql_info iproto_error : ResponseField

abbrev pub response_field_code : ResponseField → ℕ
response_field_code ResponseField.iproto_data = 0x30
response_field_code ResponseField.iproto_error_24 = 0x31
response_field_code ResponseField.iproto_metadata = 0x32
response_field_code ResponseField.iproto_sql_info = 0x42
response_field_code ResponseField.iproto_error = 0x52
