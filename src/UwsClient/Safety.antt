-- ===== src/UwsClient/Safety.antt =====
-- on_underlying_io_bytes_received of src/uws_client.c on any bytes.
use azure_c_shared_utility.UwsClient.{UwsClient}
