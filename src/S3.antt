-- ===== src/S3.antt =====
-- supervisor/src/s3: the client's own loops over requests, which the other parts see as one request.
pub mod Multipart
pub mod Download
pub mod Requests
pub mod Listing
mod Tests
