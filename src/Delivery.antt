-- ===== src/Delivery.antt =====
-- WhatsApp delivery (backend/app/whatsapp, and the endpoint of backend/app/api/workspace.py that
-- records the review of near misses).
pub mod Rows
pub mod Requests
pub mod Sending
pub mod Webhook
pub mod Serving
pub mod Cleared
pub mod Guard
pub mod Statuses
pub mod Outcome
