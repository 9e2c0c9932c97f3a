-- ===== src/V2/Synthetic/SaveToJson.antt =====
-- `save_to_json` writes a file that `_parse_response` of ml/v2/data_fetcher.py reads.
use smart_hpa.Float.{Float}
use smart_hpa.Host.{Host}
use smart_hpa.Json.{Json}
