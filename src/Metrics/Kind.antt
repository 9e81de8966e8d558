-- ===== src/Metrics/Kind.antt =====
-- metrics/instrumentation.go: the instrumentation types, in the order of their constants; a service
-- defines others of its own.
use dora_service_utils.Base.{ℕ}

abbrev pub version : ℕ
version = 0

abbrev pub http_request_count : ℕ
http_request_count = 1

abbrev pub http_request_duration : ℕ
http_request_duration = 2

abbrev pub http_request_success : ℕ
http_request_success = 3

abbrev pub http_request_failure : ℕ
http_request_failure = 4

abbrev pub grpc_request_count : ℕ
grpc_request_count = 5

abbrev pub grpc_request_duration : ℕ
grpc_request_duration = 6

abbrev pub grpc_request_success : ℕ
grpc_request_success = 7

abbrev pub grpc_request_failure : ℕ
grpc_request_failure = 8

abbrev pub db_request_count : ℕ
db_request_count = 9

abbrev pub db_request_duration : ℕ
db_request_duration = 10

abbrev pub db_request_success : ℕ
db_request_success = 11

abbrev pub db_request_failure : ℕ
db_request_failure = 12

abbrev pub cache_request_count : ℕ
cache_request_count = 13

abbrev pub cache_request_duration : ℕ
cache_request_duration = 14

abbrev pub cache_request_success : ℕ
cache_request_success = 15

abbrev pub cache_request_failure : ℕ
cache_request_failure = 16

abbrev pub subscriber_count : ℕ
subscriber_count = 17

abbrev pub network_request_count : ℕ
network_request_count = 18

abbrev pub network_request_duration : ℕ
network_request_duration = 19

abbrev pub network_request_success : ℕ
network_request_success = 20

abbrev pub network_request_failure : ℕ
network_request_failure = 21
