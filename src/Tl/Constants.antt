-- ===== src/Tl/Constants.antt =====
-- The constructor ids that pkg/tl/types.go writes out.
use gocoon.Common.{ℕ}

abbrev pub id_bool_false : ℕ
id_bool_false = 0xbc799737

abbrev pub id_bool_true : ℕ
id_bool_true = 0x997275b5

abbrev pub id_client_connect_to_proxy : ℕ
id_client_connect_to_proxy = 0xff5fa0f4

abbrev pub id_client_authorize_with_proxy_short : ℕ
id_client_authorize_with_proxy_short = 0x6c276723

abbrev pub id_client_authorize_with_proxy_long : ℕ
id_client_authorize_with_proxy_long = 0xd3474303

abbrev pub id_client_request_refund : ℕ
id_client_request_refund = 0x238d863d

abbrev pub id_client_update_payment_status : ℕ
id_client_update_payment_status = 0x9ed1c697

abbrev pub id_client_run_query_ex : ℕ
id_client_run_query_ex = 0xf54cb74b

abbrev pub id_client_get_worker_types_v2 : ℕ
id_client_get_worker_types_v2 = 0xb2133d72

abbrev pub id_client_connected_to_proxy : ℕ
id_client_connected_to_proxy = 0x95317ad1

abbrev pub id_client_authorization_with_proxy_success : ℕ
id_client_authorization_with_proxy_success = 0x75d5ac34

abbrev pub id_client_authorization_with_proxy_failed : ℕ
id_client_authorization_with_proxy_failed = 0x60551c96

abbrev pub id_client_proxy_connection_auth_short : ℕ
id_client_proxy_connection_auth_short = 0xd6ffc5af

abbrev pub id_client_proxy_connection_auth_long : ℕ
id_client_proxy_connection_auth_long = 0x417bf016

abbrev pub id_client_query_answer : ℕ
id_client_query_answer = 0x9b943922

abbrev pub id_client_query_answer_error : ℕ
id_client_query_answer_error = 0x6d60569a

abbrev pub id_client_query_answer_part : ℕ
id_client_query_answer_part = 0xb765de4c

abbrev pub id_client_query_answer_part_error : ℕ
id_client_query_answer_part_error = 0xd790a022

abbrev pub id_client_query_answer_ex : ℕ
id_client_query_answer_ex = 0xcd524720

abbrev pub id_client_query_answer_error_ex : ℕ
id_client_query_answer_error_ex = 0x072562a8

abbrev pub id_client_query_answer_part_ex : ℕ
id_client_query_answer_part_ex = 0xc07bfaec

abbrev pub id_client_query_final_info : ℕ
id_client_query_final_info = 0x69a452f0

abbrev pub id_client_refund : ℕ
id_client_refund = 0x83aabead

abbrev pub id_client_refund_rejected : ℕ
id_client_refund_rejected = 0xcf9d9957

abbrev pub id_client_payment_status : ℕ
id_client_payment_status = 0xaa8a0ecc

abbrev pub id_client_worker_instance_v2 : ℕ
id_client_worker_instance_v2 = 0x3ea93d00

abbrev pub id_client_worker_type_v2 : ℕ
id_client_worker_type_v2 = 0xb27d8197

abbrev pub id_client_worker_types_v2 : ℕ
id_client_worker_types_v2 = 0x0cf0dc67

abbrev pub id_proxy_signed_payment : ℕ
id_proxy_signed_payment = 0x02998182

abbrev pub id_proxy_signed_payment_empty : ℕ
id_proxy_signed_payment_empty = 0xb347ce64

abbrev pub id_client_params : ℕ
id_client_params = 0x40fdca64

abbrev pub id_proxy_params : ℕ
id_proxy_params = 0xd5c5609f

abbrev pub id_worker_params : ℕ
id_worker_params = 0x869c73ed

abbrev pub id_tokens_used : ℕ
id_tokens_used = 0x70c5b15c

abbrev pub id_http_response : ℕ
id_http_response = 0x1cd0c42b

abbrev pub id_http_request : ℕ
id_http_request = 0x47492de5
