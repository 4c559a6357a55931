-- ===== src/Fix/Fields.antt =====
-- crates/adapters/src/fix/fields.rs: tags and field values.
use blackswan_harness.Prelude.{ℕ, Bytes, codes}

abbrev pub soh : ℕ
soh = 1

abbrev pub tag_begin_string : ℕ
tag_begin_string = 8

abbrev pub tag_body_length : ℕ
tag_body_length = 9

abbrev pub tag_checksum : ℕ
tag_checksum = 10

abbrev pub tag_msg_type : ℕ
tag_msg_type = 35

abbrev pub tag_ord_status : ℕ
tag_ord_status = 39

abbrev pub tag_price : ℕ
tag_price = 44

abbrev pub tag_exec_type : ℕ
tag_exec_type = 150

abbrev pub msg_type_execution_report : Bytes
msg_type_execution_report = codes "8"

abbrev pub msg_type_order_cancel_reject : Bytes
msg_type_order_cancel_reject = codes "9"

abbrev pub msg_type_reject : Bytes
msg_type_reject = codes "3"

abbrev pub ord_status_partially_filled : Bytes
ord_status_partially_filled = codes "1"

abbrev pub ord_status_filled : Bytes
ord_status_filled = codes "2"

abbrev pub ord_status_rejected : Bytes
ord_status_rejected = codes "8"

abbrev pub exec_type_trade : Bytes
exec_type_trade = codes "F"

abbrev pub exec_type_rejected : Bytes
exec_type_rejected = codes "8"
