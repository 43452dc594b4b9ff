-- ===== src/Httpapi.antt =====
-- internal/httpapi: the middleware that meters requests (`Metering`), and the table that it records
-- them in, of internal/store (`Requests`).
pub mod Requests
pub mod Metering
