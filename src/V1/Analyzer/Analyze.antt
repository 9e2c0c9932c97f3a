-- ===== src/V1/Analyzer/Analyze.antt =====
-- `analyze` of ml/pattern_analyzer.py returns valid patterns.
use smart_hpa.Prelude.{List}
use smart_hpa.Float.{Float}
