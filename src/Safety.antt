-- ===== src/Safety.antt =====
-- packages/client-web/src/lib/safety-numbers.ts: `SafetyNumberManager`. The text of a safety number is in
-- Number, the trust that is kept of contacts in Trust.
pub mod Number
pub mod Trust
