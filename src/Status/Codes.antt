-- ===== src/Status/Codes.antt =====
-- src/Status.h: the codes.
pub data Code : Type 0 where
  okay not_found corruption not_supported invalid_argument io_error internal_error : Code
